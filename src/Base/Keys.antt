-- ===== src/Base/Keys.antt =====
-- Keys that Go compares by `==`: an instance argument, for texts, numbers and pairs.
use text.Mathlib.Text.{◌==◌ as same_text}
use text.Mathlib.TextEquality.{eq_iff}
use golang_gin_rpc.Base.Tests.{eqb, eqb_iff}
use Prim.Native.String.{String}
use Prim.Native.Nat.{ℕ}
use mathlib.Core.Bool.{Bool, true}
use mathlib.Core.Path.{◌≡◌, refl}
use mathlib.Core.Logic.{◌↔◌}

-- A test that decides equality.
pub record Eq {ℓ} (K : Type ℓ) : Type ℓ where
  pub same : K → K → Bool
  pub same_iff : (k j : K) → (same k j ≡ true) ↔ (k ≡ j)

module _ {ℓ} {K : Type ℓ} ⦃e : Eq K⦄ where
  infix 50 ◌==◌
  abbrev pub ◌==◌ : K → K → Bool
  k == j = e.same k j

  pub ==_iff : (k j : K) → ((k == j) ≡ true) ↔ (k ≡ j)
  ==_iff = e.same_iff

  pub ==_self : (k : K) → (k == k) ≡ true
  ==_self k = (e.same_iff k k).1 refl

instance abbrev pub string_eq : Eq String
string_eq = record { same = same_text; same_iff = eq_iff }

instance abbrev pub nat_eq : Eq ℕ
nat_eq = record { same = eqb; same_iff = eqb_iff }
