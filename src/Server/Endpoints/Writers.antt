-- ===== src/Server/Endpoints/Writers.antt =====
-- The wrapper around a response writer: the client's response is the same, and its status the one that
-- the wrapper remembers.
use grpcx.Common.{ℕ, ◌++◌, List, [], ◌∷◌, ◌≡◌, refl, ◌∙◌, sym, ap, none, some, Bool, true, false}
use grpcx.Http.{
  ResponseWriter, write_header, write_body, first_status, is_informational, write_header-sent,
  write_header-final,
}
use grpcx.Server.Logging.{StatusWriter, status_write_header, wrap_response_writer}
use grpcx.Server.Endpoints.{WriterCall, header_call, body_call, play, pass_on, blank_writer}

-- the wrapper by its fields
abbrev pub wrapper : ResponseWriter → ℕ → Bool → StatusWriter
wrapper inner status wrote = record { inner = inner; status = status; wrote_header = wrote }

-- Once the client's status is sent, later calls of WriteHeader, which the wrapper drops, would change
-- nothing, and the wrapper keeps its status.
play_wrote :
    (calls : List WriterCall) (inner w : ResponseWriter) (status s : ℕ)
    → w.sent_status ≡ some s
    → (play w ((pass_on (wrapper inner status true) calls).0) ≡ play w calls)
      × ((pass_on (wrapper inner status true) calls).1.status ≡ status)
      × ((play w calls).sent_status ≡ some s)
unfolding status_write_header write_body
play_wrote [] inner w status s h = (refl, refl, h)
play_wrote (header_call code ∷ calls) inner w status s h =
    let ih = play_wrote calls inner w status s h in
    let same : write_header w code ≡ w = write_header-sent w s code h in
    (
      ih.0 ∙ sym (ap (λ t. play t calls) same),
      ih.1,
      ap (λ t. (play t calls).sent_status) same ∙ ih.2,
    )
play_wrote (body_call text ∷ calls) inner w status s h =
    play_wrote calls (write_body inner text) (write_body w text) status s
      (ap (λ t. some (first_status t 200)) h)

-- No informational status is sent.
abbrev pub NoInformational : List WriterCall → Type 0
NoInformational [] = Unit
NoInformational (header_call code ∷ calls) = (is_informational code ≡ false) × NoInformational calls
NoInformational (body_call text ∷ calls) = NoInformational calls

pub play-pass_on :
    (calls : List WriterCall) (inner w : ResponseWriter) (status : ℕ)
    → NoInformational calls
    → play w ((pass_on (wrapper inner status false) calls).0) ≡ play w calls
unfolding status_write_header write_body
play-pass_on [] inner w status h = refl
play-pass_on (header_call code ∷ calls) inner w status h =
    (play_wrote calls (write_header inner code) (write_header w code) code
      (first_status w.sent_status code) (write_header-final w code h.0)).0
play-pass_on (body_call text ∷ calls) inner w status h =
    play-pass_on calls (write_body inner text) (write_body w text) status h

-- What passes the wrapper sends no informational status either.
pub pass_on-NoInformational :
    (calls : List WriterCall) (inner : ResponseWriter) (status : ℕ) (wrote : Bool)
    → NoInformational calls
    → NoInformational (pass_on (wrapper inner status wrote) calls).0
unfolding status_write_header write_body
pass_on-NoInformational [] inner status wrote h = tt
pass_on-NoInformational (header_call code ∷ calls) inner status true h =
    pass_on-NoInformational calls inner status true h.1
pass_on-NoInformational (header_call code ∷ calls) inner status false h =
    (h.0, pass_on-NoInformational calls (write_header inner code) code true h.1)
pass_on-NoInformational (body_call text ∷ calls) inner status wrote h =
    pass_on-NoInformational calls (write_body inner text) status wrote h

pub append-NoInformational :
    (c d : List WriterCall) → NoInformational c → NoInformational d → NoInformational (c ++ d)
append-NoInformational [] d h k = k
append-NoInformational (header_call code ∷ c) d h k = (h.0, append-NoInformational c d h.1 k)
append-NoInformational (body_call text ∷ c) d h k = append-NoInformational c d h k

-- The calls without those of WriteHeader.
abbrev pub bodies : List WriterCall → List WriterCall
bodies [] = []
bodies (header_call code ∷ calls) = bodies calls
bodies (body_call text ∷ calls) = body_call text ∷ bodies calls

pub pass_on-bodies :
    (calls : List WriterCall) (inner : ResponseWriter) (status : ℕ)
    → (pass_on (wrapper inner status true) calls).0 ≡ bodies calls
unfolding status_write_header write_body
pass_on-bodies [] inner status = refl
pass_on-bodies (header_call code ∷ calls) inner status = pass_on-bodies calls inner status
pass_on-bodies (body_call text ∷ calls) inner status =
    ap (λ t. body_call text ∷ t) (pass_on-bodies calls (write_body inner text) status)

-- Where the first call is one of WriteHeader, no later one passes.
pub first-pass_on :
    (all : List WriterCall) (code : ℕ) (calls : List WriterCall)
    → all ≡ header_call code ∷ calls
    → (pass_on (wrap_response_writer blank_writer) all).0 ≡ header_call code ∷ bodies calls
unfolding wrap_response_writer status_write_header
first-pass_on all code calls q =
    ap (λ t. (pass_on (wrap_response_writer blank_writer) t).0) q
    ∙ ap (λ t. header_call code ∷ t) (pass_on-bodies calls (write_header blank_writer code) code)

-- A body is not followed by a call of WriteHeader.
abbrev NoHeader : List WriterCall → Type 0
NoHeader [] = Unit
NoHeader (header_call code ∷ calls) = ⊥
NoHeader (body_call text ∷ calls) = NoHeader calls

abbrev pub HeaderFirst : List WriterCall → Type 0
HeaderFirst [] = Unit
HeaderFirst (header_call code ∷ calls) = Unit
HeaderFirst (body_call text ∷ calls) = NoHeader calls

only_body :
    (calls : List WriterCall) (inner w : ResponseWriter) (status : ℕ)
    → NoHeader calls
    → (first_status w.sent_status 200 ≡ status)
    → ((pass_on (wrapper inner status false) calls).1.status ≡ status)
      × (first_status (play w calls).sent_status 200 ≡ status)
unfolding write_body
only_body [] inner w status h q = (refl, q)
only_body (header_call code ∷ calls) inner w status h q = absurd h
only_body (body_call text ∷ calls) inner w status h q =
    only_body calls (write_body inner text) (write_body w text) status h q

-- the status of the wrapper is the one that the client gets, 200 if there is no call
pub status-pass_on :
    (calls : List WriterCall) (inner w : ResponseWriter)
    → HeaderFirst calls
    → NoInformational calls
    → w.sent_status ≡ none
    → (pass_on (wrapper inner 200 false) calls).1.status
      ≡ first_status (play w calls).sent_status 200
unfolding status_write_header write_body
status-pass_on [] inner w h n q = sym (ap (λ t. first_status t 200) q)
status-pass_on (header_call code ∷ calls) inner w h n q =
    let f =
      play_wrote calls (write_header inner code) (write_header w code) code code
        (write_header-final w code n.0 ∙ ap (λ t. some (first_status t code)) q) in
    f.1 ∙ sym (ap (λ t. first_status t 200) f.2)
status-pass_on (body_call text ∷ calls) inner w h n q =
    let f =
      only_body calls (write_body inner text) (write_body w text) 200 h
        (ap (λ t. first_status t 200) q) in
    f.0 ∙ sym f.1
