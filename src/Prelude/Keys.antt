-- ===== src/Prelude/Keys.antt =====
-- Types with a Boolean equality, which serve as keys of the hash maps and sets.
use mathlib.Core.Path.{◌≡◌, refl}
use mathlib.Core.Logic.{◌↔◌}
use mathlib.Core.Bool.{Bool, true, false, ◌||◌}
use mathlib.Core.List.{List, [], ◌∷◌, ◌++◌}
use Prim.Native.Nat.{ℕ}
use Prim.Native.String.{String}
use text.Mathlib.Text.{◌==◌ as str_eq}
use text.Mathlib.TextEquality.{eq_iff}
use native.Mathlib.Omega.{arith}
use bbn.Prelude.Tests.{eqb, eqb_iff}

-- The `Eq` of Rust, with its meaning.
pub record Eq {ℓ} (K : Type ℓ) : Type ℓ where
  pub beq : K → K → Bool
  pub beq_iff : (x y : K) → (beq x y ≡ true) ↔ (x ≡ y)

instance abbrev pub string_eq : Eq String
string_eq = record { beq_iff = eq_iff; beq = str_eq }

instance abbrev pub nat_eq : Eq ℕ
nat_eq = record { beq_iff = eqb_iff; beq = eqb }

module _ {ℓ} {K : Type ℓ} ⦃e : Eq K⦄ where
  infix 50 ◌==◌
  abbrev pub ◌==◌ : K → K → Bool
  x == y = e.beq x y

  pub beq_refl : (x : K) → (x == x) ≡ true
  beq_refl x = (e.beq_iff x x).1 refl

  -- `contains` of a set, a slice or a vector.
  abbrev pub contains : List K → K → Bool
  contains [] key = false
  contains (k ∷ keys) key = k == key || contains keys key

  pub contains-append :
      (keys others : List K) (key : K)
      → contains (keys ++ others) key ≡ (contains keys key || contains others key)
  contains-append [] others key = refl
  contains-append (k ∷ keys) others key = ground (arith, contains-append keys others key)
