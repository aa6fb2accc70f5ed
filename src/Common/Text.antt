-- ===== src/Common/Text.antt =====
-- The functions of Go's package strings that the program calls. A string is a list of code points;
-- bytes that are not UTF-8 are outside the model.
use Prim.Native.Char.{Char, code}
use Prim.Native.String
use Prim.Native.String.{String}
use Prim.Native.Nat.{ℕ, ◌+◌}
use mathlib.Core.Path.{◌≡◌, refl, sym, ◌∙◌, ap, ap₂}
use mathlib.Core.Logic.{◌≢◌, inl, inr}
use mathlib.Core.Bool.{Bool, true, false, ◌&&◌, ◌||◌}
use mathlib.Core.List.{List, [], ◌∷◌}
use native.Mathlib.Omega.{arith}
use text.Mathlib.Text.{◌==◌ as str_eq}
use text.Mathlib.TextLemmas.{nil-append, cons-append, append-nil, append_assoc}
use grpcx.Common.Tests.{◌==◌, leb, if◌then◌else◌, Bool-cases}

abbrev pub ◌+++◌ : String → String → String
◌+++◌ = String.◌++◌

infixr 65 ◌+++◌
abbrev pub snoc : String → Char → String
snoc s c = s +++ String.◌∷◌ c String.[]

-- unicode.IsSpace
unfoldable pub is_space : ℕ → Bool
is_space c =
    (leb 9 c && leb c 13)
    || c == 32
    || c == 0x85
    || c == 0xa0
    || c == 0x1680
    || (leb 0x2000 c && leb c 0x200a)
    || c == 0x2028
    || c == 0x2029
    || c == 0x202f
    || c == 0x205f
    || c == 0x3000

unfoldable pub has_prefix : String → String → Bool
has_prefix s String.[] = true
has_prefix String.[] (String.◌∷◌ d p) = false
has_prefix (String.◌∷◌ c s) (String.◌∷◌ d p) = code c == code d && has_prefix s p

drop_prefix : String → String → String
drop_prefix s String.[] = s
drop_prefix String.[] (String.◌∷◌ d p) = String.[]
drop_prefix (String.◌∷◌ c s) (String.◌∷◌ d p) = drop_prefix s p

unfoldable pub trim_prefix : String → String → String
unfolding has_prefix drop_prefix
trim_prefix s p = if has_prefix s p then drop_prefix s p else s

-- strings.Split at a separator of one character
split_from : ℕ → String → String → List String
split_from sep cur String.[] = cur ∷ []
split_from sep cur (String.◌∷◌ c s) =
    let closed = cur ∷ split_from sep "" s in
    let longer = split_from sep (snoc cur c) s in if code c == sep then closed else longer

unfoldable pub split : String → ℕ → List String
unfolding split_from
split s sep = split_from sep "" s

-- the part before the first separator, the whole text if there is none: the first result of
-- strings.Cut, and the element 0 of what strings.SplitN(s, sep, 2) returns
unfoldable pub before : String → ℕ → String
before String.[] sep = ""
before (String.◌∷◌ c s) sep =
    let rest = before s sep in if code c == sep then "" else String.◌∷◌ c rest

-- the element 0 of what strings.Split returns, which is never empty
unfoldable pub first : List String → String
first [] = ""
first (s ∷ parts) = s

unfoldable pub trim_left : String → String
unfolding is_space
trim_left String.[] = ""
trim_left (String.◌∷◌ c s) =
    let rest = trim_left s in if is_space (code c) then rest else String.◌∷◌ c s

unfoldable pub trim_right : String → String
unfolding is_space
trim_right String.[] = ""
trim_right (String.◌∷◌ c s) =
    let rest = trim_right s in if is_space (code c) && str_eq rest "" then "" else String.◌∷◌ c rest

unfoldable pub trim_space : String → String
unfolding trim_left trim_right
trim_space s = trim_right (trim_left s)

unfoldable pub join : List String → String → String
join [] sep = ""
join (s ∷ []) sep = s
join (s ∷ t ∷ parts) sep = s +++ sep +++ join (t ∷ parts) sep

-- strings.Fields
fields_from : String → String → List String
unfolding is_space
fields_from cur String.[] = if str_eq cur "" then [] else cur ∷ []
fields_from cur (String.◌∷◌ c s) =
    let closed = fields_from "" s in
    let longer = fields_from (snoc cur c) s in
    if is_space (code c) then (if str_eq cur "" then closed else cur ∷ closed) else longer

unfoldable pub fields : String → List String
unfolding fields_from
fields s = fields_from "" s

-- The simple case folding behind strings.EqualFold, exact where one of the texts is ASCII: beside
-- the capitals, U+017F folds to s and U+212A to k.
unfoldable pub fold_case : ℕ → ℕ
fold_case c =
    if leb b'A' c && leb c b'Z'
    then c + 32
    else if c == 0x17f
    then b's'
    else if c == 0x212a
    then b'k'
    else c

unfoldable pub equal_fold : String → String → Bool
unfolding fold_case
equal_fold String.[] String.[] = true
equal_fold String.[] (String.◌∷◌ d t) = false
equal_fold (String.◌∷◌ c s) String.[] = false
equal_fold (String.◌∷◌ c s) (String.◌∷◌ d t) =
    fold_case (code c) == fold_case (code d) && equal_fold s t

split_test : split "a,b,,c" b',' ≡ "a" ∷ "b" ∷ "" ∷ "c" ∷ []
unfolding split
split_test = refl

trim_test : trim_space " \t a b  " ≡ "a b"
unfolding trim_space
trim_test = refl

fields_test : fields " a:1  b " ≡ "a:1" ∷ "b" ∷ []
unfolding fields
fields_test = refl

trim_prefix_test : trim_prefix "Bearer abc" "Bearer " ≡ "abc"
unfolding trim_prefix
trim_prefix_test = refl

equal_fold_test : equal_fold "DeSc" "desc" ≡ true
unfolding equal_fold
equal_fold_test = refl

pub snoc-append : (s : String) (c : Char) (t : String) → snoc s c +++ t ≡ s +++ String.◌∷◌ c t
snoc-append s c t = simp (append_assoc, cons-append, nil-append)

split_from-first : (sep : ℕ) (cur s : String) → first (split_from sep cur s) ≡ cur +++ before s sep
unfolding split_from first before
split_from-first sep cur String.[] = sym (append-nil cur)
split_from-first sep cur (String.◌∷◌ c s) = elim (Bool-cases (code c == sep)) [
  | inl e ↦ rw e (sym (append-nil cur))
  | inr e ↦ rw e (split_from-first sep (snoc cur c) s ∙ snoc-append cur c (before s sep))
]

-- strings.Split(s, sep)[0] is the part before the first separator.
pub first-split : (s : String) (sep : ℕ) → first (split s sep) ≡ before s sep
unfolding split
first-split s sep = split_from-first sep "" s ∙ nil-append (before s sep)

-- No separator is left in what stands before the first.
abbrev pub Free : ℕ → String → Type 0
Free sep String.[] = Unit
Free sep (String.◌∷◌ c s) = (code c ≢ sep) × Free sep s

pub before-Free : (sep : ℕ) (s : String) → Free sep (before s sep)
unfolding before
before-Free sep String.[] = tt
before-Free sep (String.◌∷◌ c s) = elim (Bool-cases (code c == sep)) [
  | inl e ↦ rw e tt
  | inr e ↦ rw e (ground arith, before-Free sep s)
]

pub before-Free_keeps : (sep other : ℕ) (s : String) → Free sep s → Free sep (before s other)
unfolding before
before-Free_keeps sep other String.[] h = tt
before-Free_keeps sep other (String.◌∷◌ c s) h = elim (Bool-cases (code c == other)) [
  | inl e ↦ rw e tt
  | inr e ↦ rw e (h.0, before-Free_keeps sep other s h.1)
]

has_prefix-append : (p s : String) → has_prefix (p +++ s) p ≡ true
unfolding has_prefix
has_prefix-append String.[] s = refl
has_prefix-append (String.◌∷◌ c p) s = rw cons-append (ground (arith, has_prefix-append p s))

drop_prefix-append : (p s : String) → drop_prefix (p +++ s) p ≡ s
unfolding drop_prefix
drop_prefix-append String.[] s = nil-append s
drop_prefix-append (String.◌∷◌ c p) s = rw cons-append (drop_prefix-append p s)

-- Trimming a prefix off undoes writing it in front.
pub trim_prefix-append : (p s : String) → trim_prefix (p +++ s) p ≡ s
unfolding trim_prefix
trim_prefix-append p s = rw (has_prefix-append p s, trim_prefix) (drop_prefix-append p s)

-- The part before the first separator of a text whose beginning has none.
pub before-append :
    (sep : ℕ) (s t : String) → Free sep s → before (s +++ t) sep ≡ s +++ before t sep
unfolding before
before-append sep String.[] t h = rw (nil-append t) (sym (nil-append (before t sep)))
before-append sep (String.◌∷◌ c s) t h =
    let other : (code c == sep) ≡ false = ground arith in
    rw (cons-append c s t, other)
      (ap (λ r. String.◌∷◌ c r) (before-append sep s t h.1) ∙ sym (cons-append c s (before t sep)))

split_from-Free : (sep : ℕ) (cur s : String) → Free sep s → split_from sep cur s ≡ (cur +++ s) ∷ []
unfolding split_from
split_from-Free sep cur String.[] h = ap (λ r. r ∷ []) (sym (append-nil cur))
split_from-Free sep cur (String.◌∷◌ c s) h =
    let other : (code c == sep) ≡ false = ground arith in
    rw other (split_from-Free sep (snoc cur c) s h.1 ∙ ap (λ r. r ∷ []) (snoc-append cur c s))

split_from-append :
    (sep : ℕ) (cur s : String) (d : Char) (t : String)
    → Free sep s
    → code d ≡ sep
    → split_from sep cur (s +++ String.◌∷◌ d t) ≡ (cur +++ s) ∷ split_from sep "" t
unfolding split_from
split_from-append sep cur String.[] d t h e =
    let here : (code d == sep) ≡ true = ground arith in
    rw (nil-append (String.◌∷◌ d t), here)
      (ap (λ r. r ∷ split_from sep "" t) (sym (append-nil cur)))
split_from-append sep cur (String.◌∷◌ c s) d t h e =
    let other : (code c == sep) ≡ false = ground arith in
    rw (cons-append c s (String.◌∷◌ d t), other)
      (split_from-append sep (snoc cur c) s d t h.1 e
        ∙ ap (λ r. r ∷ split_from sep "" t) (snoc-append cur c s))

-- Splitting two parts without a separator, joined by one, gives the two parts.
pub split-two :
    (sep : ℕ) (s : String) (d : Char) (t : String)
    → Free sep s
    → Free sep t
    → code d ≡ sep
    → split (s +++ String.◌∷◌ d t) sep ≡ s ∷ t ∷ []
unfolding split
split-two sep s d t h k e =
    split_from-append sep "" s d t h e
    ∙ ap₂ (λ x y. x ∷ y) (nil-append s)
        (split_from-Free sep "" t k ∙ ap (λ r. r ∷ []) (nil-append t))

-- No character of the text is a space.
abbrev pub Solid : String → Type 0
Solid String.[] = Unit
Solid (String.◌∷◌ c s) = (is_space (code c) ≡ false) × Solid s

trim_right-Solid : (s : String) → Solid s → trim_right s ≡ s
unfolding trim_right
trim_right-Solid String.[] h = refl
trim_right-Solid (String.◌∷◌ c s) h = rw h.0 (ap (λ r. String.◌∷◌ c r) (trim_right-Solid s h.1))

pub trim_space-Solid : (s : String) → Solid s → trim_space s ≡ s
unfolding trim_space
trim_space-Solid String.[] h = refl
trim_space-Solid (String.◌∷◌ c s) h = rw h.0 (trim_right-Solid (String.◌∷◌ c s) h)

trim_left-Free : (sep : ℕ) (s : String) → Free sep s → Free sep (trim_left s)
unfolding trim_left
trim_left-Free sep String.[] h = tt
trim_left-Free sep (String.◌∷◌ c s) h = elim (Bool-cases (is_space (code c))) [
  | inl e ↦ rw e (trim_left-Free sep s h.1)
  | inr e ↦ rw e h
]

trim_right-Free : (sep : ℕ) (s : String) → Free sep s → Free sep (trim_right s)
unfolding trim_right
trim_right-Free sep String.[] h = tt
trim_right-Free sep (String.◌∷◌ c s) h =
    elim (Bool-cases (is_space (code c) && str_eq (trim_right s) "")) [
      | inl e ↦ rw e tt
      | inr e ↦ rw e (h.0, trim_right-Free sep s h.1)
    ]

pub trim_space-Free : (sep : ℕ) (s : String) → Free sep s → Free sep (trim_space s)
unfolding trim_space
trim_space-Free sep s h = trim_right-Free sep (trim_left s) (trim_left-Free sep s h)

pub before-cons_self :
    (sep : ℕ) (c : Char) (s : String) → code c ≡ sep → before (String.◌∷◌ c s) sep ≡ ""
unfolding before
before-cons_self sep c s e = let here : (code c == sep) ≡ true = ground arith in rw here

pub before-cons_other :
    (sep : ℕ) (c : Char) (s : String)
    → code c ≢ sep
    → before (String.◌∷◌ c s) sep ≡ String.◌∷◌ c (before s sep)
unfolding before
before-cons_other sep c s e = let other : (code c == sep) ≡ false = ground arith in rw other
