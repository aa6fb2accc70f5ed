-- ===== src/Common/Eq.antt =====
-- Go's `comparable` constraint as an interface: a Boolean equality that decides `≡`.
use Prim.Native.Nat.{ℕ}
use Prim.Native.String.{String}
use mathlib.Core.Path.{◌≡◌, refl}
use mathlib.Core.Logic.{◌↔◌}
use mathlib.Core.Bool.{Bool, true}
use native.Mathlib.Omega.{arith}
use text.Mathlib.Text.{◌==◌ as str_eq}
use text.Mathlib.TextEquality.{eq_iff}
use grpcx.Common.Tests.{◌==◌ as nat_eq, ==_iff}

pub record Equality {ℓ} (A : Type ℓ) : Type ℓ where
  pub test : A → A → Bool
  pub test_iff : (a b : A) → (test a b ≡ true) ↔ (a ≡ b)

abbrev pub eqb {ℓ} : {A : Type ℓ} ⦃e : Equality A⦄ → A → A → Bool
eqb ⦃e⦄ = e.test

module _ {ℓ} {A : Type ℓ} ⦃e : Equality A⦄ where
  pub eqb_refl : (a : A) → eqb a a ≡ true
  eqb_refl a = (e.test_iff a a).1 refl

  pub eqb_symm : (a b : A) → eqb a b ≡ eqb b a
  eqb_symm a b = ground (arith, e.test_iff a b, e.test_iff b a)

instance abbrev pub nat_equality : Equality ℕ
nat_equality = record { test = nat_eq; test_iff = ==_iff }

instance abbrev pub string_equality : Equality String
string_equality = record { test = str_eq; test_iff = eq_iff }
