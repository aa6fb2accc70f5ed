-- ===== src/Id.antt =====
-- id/nanoid.go. The nanoid package is a parameter, whose randomness is an argument; a panic is `none`.
mod Tests
use Prim.Native.String
use Prim.Native.Char.{code}
use grpcx.Common.{
  ℕ, zero, suc, ◌<◌, ◌≤◌, ◌*◌, String, ◌≡◌, ◌≢◌, refl, Option, none, some, Bool, true, false,
  if◌then◌else◌, str_eq, ◌||◌, ◌==◌, leb, not, eq_iff, arith, Option-cases, inl, inr, Bool-cases,
  ap,
}
use grpcx.Common.Integers.{ℤ, pos, negsuc}
use grpcx.Common.Result.{Result, success, failure, Result-cases}

abbrev pub string_length : String → ℕ
string_length String.[] = 0
string_length (String.◌∷◌ c s) = suc (string_length s)

abbrev pub has_char : String → ℕ → Bool
has_char String.[] d = false
has_char (String.◌∷◌ c s) d = code c == d || has_char s d

-- every character of a text is one of the alphabet
abbrev pub IsOver : String → String → Type 0
IsOver alphabet String.[] = Unit
IsOver alphabet (String.◌∷◌ c s) = (has_char alphabet (code c) ≡ true) × IsOver alphabet s

abbrev pub default_alphabet : String
default_alphabet = "0123456789ABCDEFGHIJKLMNOPQRSTUVWXYZabcdefghijklmnopqrstuvwxyz"

abbrev pub default_length : ℤ
default_length = pos 16

-- *nanoIDGenerator
pub record Generator : Type 0 where
  pub alphabet : String
  pub length : ℤ

abbrev pub is_positive : ℤ → Bool
is_positive (pos zero) = false
is_positive (pos (suc n)) = true
is_positive (negsuc n) = false

unfoldable pub new_generator : Generator
new_generator = record { alphabet = default_alphabet; length = default_length }

unfoldable pub new_generator_with_alphabet : String → ℤ → Option Generator
new_generator_with_alphabet alphabet length =
    if str_eq alphabet "" || not (is_positive length)
    then none
    else some (record { alphabet = alphabet; length = length })

unfoldable pub new_generator_with_length : ℤ → Option Generator
new_generator_with_length length =
    if not (is_positive length)
    then none
    else some (record { alphabet = default_alphabet; length = length })

-- nanoid.Generate: an identifier of the length over the alphabet, or an error, which it gives for an
-- alphabet that is empty or has more than 255 bytes (four for a character at most), for a length that is not positive, and
-- when the source of randomness `Seed` fails
pub record NanoidPackage : Type 1 where
  pub GenerateError : Type 0
  pub Seed : Type 0
  pub IsWorking : Seed → Type 0
  pub generate : String → ℤ → Seed → Result GenerateError String
  pub generate-over :
      (alphabet : String) (n : ℕ) (seed : Seed) (id : String)
      → generate alphabet (pos n) seed ≡ success id
      → IsOver alphabet id × (string_length id ≡ n)
  pub generate_ok :
      (alphabet : String) (n : ℕ) (seed : Seed)
      → 0 < string_length alphabet
      → 4 * string_length alphabet ≤ 255
      → 0 < n
      → IsWorking seed
      → (id : String) × (generate alphabet (pos n) seed ≡ success id)

not_empty : (s : String) → 0 < string_length s → str_eq s "" ≡ false
not_empty s h = elim (Bool-cases (str_eq s "")) [
  | inr q ↦ q
  | inl q ↦ absurd (omega (arith, h, ap string_length ((eq_iff s "").0 q)))
]

module _ (N : NanoidPackage) where
  open N use {GenerateError, Seed, IsWorking, generate, generate-over, generate_ok}

  unfoldable pub generate_id : Generator → Seed → Option String
  generate_id g seed = elim (generate g.alphabet g.length seed) [
    | failure err ↦ none
    | success id ↦ some id
  ]

  -- what GenerateID gives with a working source of randomness
  abbrev pub Gives : Generator → String → ℕ → Seed → Type 0
  Gives g alphabet n seed =
      (id : String) × (generate_id g seed ≡ some id) × IsOver alphabet id × (string_length id ≡ n)

  generate_id_lem :
      (alphabet : String) (n : ℕ) (seed : Seed)
      → 0 < string_length alphabet
      → 4 * string_length alphabet ≤ 255
      → 0 < n
      → IsWorking seed
      → Gives (record { alphabet = alphabet; length = pos n }) alphabet n seed
  unfolding generate_id
  generate_id_lem alphabet n seed h k l working =
      let made = generate_ok alphabet n seed h k l working in
      let f = generate-over alphabet n seed made.0 made.1 in
      (made.0, rw (made.1, generate_id) refl, f.0, f.1)

  -- A generator gives an identifier of its length over its alphabet, and does not panic, as long as the
  -- source of randomness works: NewGenerator one of 16 letters and digits, NewGeneratorWithLength
  -- one of the given length, NewGeneratorWithAlphabet one over the given alphabet of at most 63
  -- characters. The two latter panic exactly for a length that is not positive or an empty alphabet.
  pub generators_lem :
      (alphabet : String) (n : ℕ) (seed : Seed)
      → 4 * string_length alphabet ≤ 255
      → IsWorking seed
      → Gives new_generator default_alphabet 16 seed
        × ((0 < n)
            → (g : Generator) × (new_generator_with_length (pos n) ≡ some g)
              × Gives g default_alphabet n seed)
        × ((0 < n)
            → (0 < string_length alphabet)
            → (g : Generator) × (new_generator_with_alphabet alphabet (pos n) ≡ some g)
              × Gives g alphabet n seed)
        × (new_generator_with_length (pos 0) ≡ none)
        × ((m : ℕ) → new_generator_with_length (negsuc m) ≡ none)
        × ((m : ℤ) → new_generator_with_alphabet "" m ≡ none)
  unfolding new_generator new_generator_with_length new_generator_with_alphabet
  generators_lem alphabet n seed k working = (
    generate_id_lem default_alphabet 16 seed (omega arith) (omega arith) (omega arith) working,
    λ h. (
      record { alphabet = default_alphabet; length = pos n },
      ground (arith, h),
      generate_id_lem default_alphabet n seed (omega arith) (omega arith) h working,
    ),
    λ h l. (
      record { alphabet = alphabet; length = pos n },
      ground (arith, h, not_empty alphabet l),
      generate_id_lem alphabet n seed l k h working,
    ),
    refl,
    λ m. refl,
    λ m. refl,
  )
