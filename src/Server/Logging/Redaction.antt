-- ===== src/Server/Logging/Redaction.antt =====
-- What the log of a payload keeps and what it masks, and the status that a response is logged with.
use grpcx.Common.{
  str_eq, ap, sym, ◌∙◌, none, some, contains-perm, RangeOrder, ℕ, true, false, String, List, [],
  ◌∷◌, ◌≡◌, refl, Bool, true, false, string_equality, eq_iff, contains, ◌||◌, arith, Bool-cases,
  inl, inr, ◌⊎◌,
}
use grpcx.Common.Text.{◌+++◌}
use grpcx.Http.{ResponseWriter, write_header, first_status, is_informational, write_header-final}
use grpcx.Common.Text.{fields, join}
use grpcx.Server.Logging.{
  redact_parts, redact_sensitive, StatusWriter, wrap_response_writer, status_write_header, mask,
  names, redact_part,
}

abbrev pub named_by : String → List String → Bool
named_by part [] = false
named_by part (field ∷ sensitive) = names part field || named_by part sensitive

-- A part that no field names stays; another becomes a field that names it, and the mask.
abbrev pub IsRedacted : List String → String → String → Type 0
IsRedacted sensitive part out =
    ((named_by part sensitive ≡ false) × (out ≡ part))
    ⊎ ((field : String) × (contains sensitive field ≡ true)
        × (names part field ≡ true)
        × (out ≡ field +++ mask))

abbrev pub AreRedacted : List String → List String → List String → Type 0
AreRedacted sensitive [] [] = Unit
AreRedacted sensitive (part ∷ parts) (out ∷ outs) =
    IsRedacted sensitive part out × AreRedacted sensitive parts outs
AreRedacted sensitive _ _ = ⊥

-- The result of the loop over the fields, from a current text.
redact_part_lem :
    (part current : String) (visits : List String)
    → ((named_by part visits ≡ false) × (redact_part part current visits ≡ current))
      ⊎ ((field : String) × (contains visits field ≡ true)
          × (names part field ≡ true)
          × (redact_part part current visits ≡ field +++ mask))
unfolding redact_part
redact_part_lem part current [] = inl (refl, refl)
redact_part_lem part current (field ∷ visits) = elim (Bool-cases (names part field)) [
  | inl hit ↦ elim (redact_part_lem part (field +++ mask) visits) [
    | inl (none_left, kept) ↦
        inr (field, ground (arith, eq_iff field field), hit, rw (hit, redact_part) kept)
    | inr (g, there, hit', done) ↦ inr (g, ground arith, hit', rw (hit, redact_part) done)
  ]
  | inr miss ↦ elim (redact_part_lem part current visits) [
    | inl (none_left, kept) ↦ inl (rw miss none_left, rw (miss, redact_part) kept)
    | inr (g, there, hit', done) ↦ inr (g, ground arith, hit', rw (miss, redact_part) done)
  ]
]

named_by-true :
    (part : String) (l : List String)
    → named_by part l ≡ true
    → (field : String) × (contains l field ≡ true) × (names part field ≡ true)
named_by-true part [] h = cc
named_by-true part (field ∷ l) h = elim (Bool-cases (names part field)) [
  | inl hit ↦ (field, ground (arith, eq_iff field field), hit)
  | inr miss ↦ let (g, there, hit) = named_by-true part l (ground arith) in (g, ground arith, hit)
]

named_by-contains :
    (part field : String) (l : List String)
    → contains l field ≡ true
    → names part field ≡ true
    → named_by part l ≡ true
named_by-contains part field [] h hit = cc
named_by-contains part field (g ∷ l) h hit = elim (Bool-cases (str_eq g field)) [
  | inl same ↦ ground (arith, eq_iff g field)
  | inr other ↦ ground (arith, named_by-contains part field l)
]

module _ (range : RangeOrder String) where
  in_sensitive :
      (sensitive : List String) (field : String)
      → contains (range.visit sensitive) field ≡ contains sensitive field
  in_sensitive sensitive field = sym (contains-perm (range.visit-perm sensitive) field)

  named_by-visit :
      (part : String) (sensitive : List String)
      → named_by part (range.visit sensitive) ≡ false
      → named_by part sensitive ≡ false
  named_by-visit part sensitive h = elim (Bool-cases (named_by part sensitive)) [
    | inr miss ↦ miss
    | inl found ↦
        let (field, there, hit) = named_by-true part sensitive found in
        let again : named_by part (range.visit sensitive) ≡ true =
          named_by-contains part field (range.visit sensitive)
            (in_sensitive sensitive field ∙ there) hit in
        absurd (cc (again, h))
  ]

  redact_parts_lem :
      (sensitive parts : List String)
      → AreRedacted sensitive parts (redact_parts (range.visit sensitive) parts)
  unfolding redact_parts
  redact_parts_lem sensitive [] = tt
  redact_parts_lem sensitive (part ∷ parts) = (
    elim (redact_part_lem part part (range.visit sensitive)) [
      | inl (none_left, kept) ↦ inl (named_by-visit part sensitive none_left, kept)
      | inr (field, there, hit, done) ↦
          inr (field, sym (in_sensitive sensitive field) ∙ there, hit, done)
    ],
    redact_parts_lem sensitive parts,
  )

  -- A logged payload is its space-separated parts again, each of which is either unchanged, and then
  -- begins with no sensitive field and ':' or '=', or replaced as a whole by a sensitive field that it
  -- begins with and the mask; that holds for every order in which the fields are visited.
  pub redact_sensitive_lem :
      (text : String) (sensitive : List String)
      → (out : List String) × (redact_sensitive range text sensitive ≡ join out " ")
        × AreRedacted sensitive (fields text) out
  unfolding redact_sensitive
  redact_sensitive_lem text sensitive = (
    redact_parts (range.visit sensitive) (fields text),
    refl,
    redact_parts_lem sensitive (fields text),
  )

-- The calls of WriteHeader that a handler makes.
abbrev pub write_all : StatusWriter → List ℕ → StatusWriter
write_all w [] = w
write_all w (code ∷ codes) = write_all (status_write_header w code) codes

status_write_header_twice :
    (w : StatusWriter) (code : ℕ) → w.wrote_header ≡ true → status_write_header w code ≡ w
unfolding status_write_header
status_write_header_twice w code h = rw (h, status_write_header) refl

write_all_wrote :
    (w : StatusWriter) (codes : List ℕ) → w.wrote_header ≡ true → write_all w codes ≡ w
write_all_wrote w [] h = refl
write_all_wrote w (code ∷ codes) h =
    ap (λ v. write_all v codes) (status_write_header_twice w code h) ∙ write_all_wrote w codes h

-- After any calls of WriteHeader on a fresh wrapper, the status that is logged is the one of the first
-- call, or 200 without a call, and the response behind it has sent that status, or none. The first
-- status is taken not to be informational.
pub status_writer_lem :
    (w : ResponseWriter) (code : ℕ) (codes : List ℕ)
    → w.sent_status ≡ none
    → is_informational code ≡ false
    → ((write_all (wrap_response_writer w) (code ∷ codes)).status ≡ code)
      × ((write_all (wrap_response_writer w) (code ∷ codes)).inner.sent_status ≡ some code)
      × ((write_all (wrap_response_writer w) []).status ≡ 200)
      × ((write_all (wrap_response_writer w) []).inner.sent_status ≡ none)
unfolding wrap_response_writer status_write_header write_header
status_writer_lem w code codes fresh final =
    let first : StatusWriter = status_write_header (wrap_response_writer w) code in
    let same = write_all_wrote first codes refl in
    (
      ap StatusWriter.status same,
      ap (λ s. s.inner.sent_status) same
          ∙ write_header-final w code final
          ∙ ap (λ o. some (first_status o code)) fresh,
      refl,
      fresh,
    )
