-- ===== src/Http.antt =====
-- What the HTTP side uses of net/http: headers, requests, handlers and response writers.
use grpcx.Common.{
  ◌++◌, ℕ, String, List, [], ◌∷◌, ◌≡◌, Option, none, some, Map, lookup, store, delete, lookup-store,
  lookup-delete, is_some, leb, ◌&&◌, not, ◌==◌, Bool, false, Option-cases, inl, inr, refl,
  if◌then◌else◌, str_eq, string_equality, arith,
}
use grpcx.Common.Integers.{ℤ, pos, negsuc}
use grpcx.Common.Text.{◌+++◌}

-- net/http's Header with Set and Get, over the canonical form of a key
abbrev pub HttpHeader : Type 0
HttpHeader = Map String (List String)

abbrev first_value : Option (List String) → String
first_value (some (v ∷ vals)) = v
first_value _ = ""

module _ (canonical : String → String) where
  unfoldable pub header_set : HttpHeader → String → String → HttpHeader
  unfolding store
  header_set h k v = store (canonical k) (v ∷ []) h

  unfoldable pub header_del : HttpHeader → String → HttpHeader
  unfolding delete
  header_del h k = delete (canonical k) h

  abbrev pub all_values : Option (List String) → List String
  all_values none = []
  all_values (some vals) = vals

  unfoldable pub header_add : HttpHeader → String → String → HttpHeader
  unfolding store lookup
  header_add h k v = store (canonical k) (all_values (lookup (canonical k) h) ++ v ∷ []) h

  unfoldable pub header_get : HttpHeader → String → String
  unfolding lookup
  header_get h k = first_value (lookup (canonical k) h)

-- the parts of an *http.Request that the middlewares use
pub record HttpRequest : Type 0 where
  pub http_method : String
  pub path : String
  pub header : HttpHeader

-- an http.Handler over the header of its response writer
abbrev pub HttpHandler {ℓ} : Type ℓ → Type ℓ
HttpHandler A = HttpHeader → HttpRequest → A

-- An http.ResponseWriter, by what it has sent: the informational statuses, the status, which is that of
-- the first WriteHeader that is not informational, or 200 where a Write comes first, and the body.
pub record ResponseWriter : Type 0 where
  pub response_header : HttpHeader
  pub informational : List ℕ
  pub sent_status : Option ℕ
  pub body : String

abbrev pub first_status : Option ℕ → ℕ → ℕ
first_status none code = code
first_status (some sent) code = sent

-- the statuses that net/http sends ahead of the response: 1xx, less 101
abbrev pub is_informational : ℕ → Bool
is_informational code = leb 100 code && leb code 199 && not (code == 101)

-- WriteHeader of net/http for a code that it accepts
unfoldable pub write_header : ResponseWriter → ℕ → ResponseWriter
write_header w code =
    if is_some w.sent_status
    then w
    else if is_informational code
    then record w { informational = w.informational ++ code ∷ [] }
    else record w { sent_status = some code }

-- the codes that it accepts; it panics on the others, but does nothing once a status is sent
abbrev pub is_valid_status : ℤ → Bool
is_valid_status (pos code) = leb 100 code && leb code 999
is_valid_status (negsuc n) = false

abbrev write_valid : ResponseWriter → ℤ → ResponseWriter
write_valid w (pos code) = write_header w code
write_valid w (negsuc n) = w

-- WriteHeader with its check of the code; `none` is its panic
unfoldable pub checked_write_header : ResponseWriter → ℤ → Option ResponseWriter
unfolding write_header
checked_write_header w code =
    if is_some w.sent_status
    then some w
    else if is_valid_status code
    then some (write_valid w code)
    else none

pub write_header-sent :
    (w : ResponseWriter) (s code : ℕ) → w.sent_status ≡ some s → write_header w code ≡ w
unfolding write_header
write_header-sent w s code h = rw (h, write_header) refl

pub write_header-final :
    (w : ResponseWriter) (code : ℕ)
    → is_informational code ≡ false
    → (write_header w code).sent_status ≡ some (first_status w.sent_status code)
unfolding write_header
write_header-final w code h = elim (Option-cases w.sent_status) [
  | inl fresh ↦ rw (fresh, write_header, h) refl
  | inr (s, sent) ↦ rw (sent, write_header) refl
]

unfoldable pub write_body : ResponseWriter → String → ResponseWriter
write_body w text = record w {
  sent_status = some (first_status w.sent_status 200);
  body = w.body +++ text;
}

module _ (canonical : String → String) where
  pub header_get-header_set :
      (h : HttpHeader) (k j v : String)
      → header_get canonical (header_set canonical h k v) j
        ≡ (if str_eq (canonical k) (canonical j) then v else header_get canonical h j)
  unfolding header_get header_set
  header_get-header_set h k j v =
      ground (arith, lookup-store (canonical k) (canonical j) (v ∷ []) h)

  pub header_get-header_del :
      (h : HttpHeader) (k j : String)
      → header_get canonical (header_del canonical h k) j
        ≡ (if str_eq (canonical k) (canonical j) then "" else header_get canonical h j)
  unfolding header_get header_del
  header_get-header_del h k j = ground (arith, lookup-delete (canonical k) (canonical j) h)
