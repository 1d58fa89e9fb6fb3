-- ===== src/Prelude/Count.antt =====
-- How many elements pass a test, and how that number changes with one element.
use Prim.Native.Nat.{ℕ, zero, suc, ◌+◌}
use mathlib.Core.Path.{◌≡◌, refl}
use mathlib.Core.Bool.{Bool, true, false}
use mathlib.Core.List.{List, [], ◌∷◌, ◌++◌}
use mathlib.Core.Option.{some}
use native.Mathlib.Omega.{arith}
use game_network.Prelude.Lists.{get_elem?, modify, All}

abbrev pub to_ℕ : Bool → ℕ
to_ℕ true = 1
to_ℕ false = 0

module _ {ℓ} {A : Type ℓ} (test : A → Bool) where
  unfoldable pub count : List A → ℕ
  count [] = 0
  count (x ∷ xs) = to_ℕ (test x) + count xs

  pub count-nil : count [] ≡ 0
  unfolding count
  count-nil = refl

  pub count-cons : (x : A) (xs : List A) → count (x ∷ xs) ≡ to_ℕ (test x) + count xs
  unfolding count
  count-cons x xs = refl

  pub count-append : (xs ys : List A) → count (xs ++ ys) ≡ count xs + count ys
  unfolding count
  count-append [] ys = omega arith
  count-append (x ∷ xs) ys = omega (arith, count-append xs ys)

  pub count-modify :
      (i : ℕ) (f : A → A) (xs : List A) {x : A}
      → get_elem? xs i ≡ some x
      → count (modify i f xs) + to_ℕ (test x) ≡ count xs + to_ℕ (test (f x))
  unfolding count
  count-modify i f [] e = cc
  count-modify zero f (y ∷ ys) e = ground arith
  count-modify (suc i) f (y ∷ ys) e = omega (arith, count-modify i f ys e)

  pub count-eq-zero : (xs : List A) → All (λ x. test x ≡ false) xs → count xs ≡ 0
  unfolding count
  count-eq-zero [] h = refl
  count-eq-zero (x ∷ xs) h = ground (arith, count-eq-zero xs h.1)
