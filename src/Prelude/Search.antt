-- ===== src/Prelude/Search.antt =====
-- `for (i = 0; i < n; i++) if (test(a[i])) return i;`: the scan that the programs use most.
use Prim.Native.Nat.{ℕ, zero, suc, ◌<◌}
use mathlib.Core.Path.{◌≡◌, refl}
use mathlib.Core.Logic.{◌⊎◌, inl, inr}
use mathlib.Core.Bool.{Bool, true, false}
use mathlib.Core.List.{List, [], ◌∷◌}
use mathlib.Core.Option
use mathlib.Core.Option.{Option, none, some}
use native.Mathlib.Omega.{arith}
use game_network.Prelude.Tests.{if◌then◌else◌, Bool-cases}
use game_network.Prelude.Lists.{All, get_elem?}

module _ {ℓ} {A : Type ℓ} (test : A → Bool) where
  unfoldable pub first_index : List A → Option ℕ
  first_index [] = none
  first_index (x ∷ xs) = if test x then some 0 else Option.map suc (first_index xs)

  -- The element that the scan stops at, with every earlier one refused.
  pub record IsFirst (xs : List A) (i : ℕ) : Type ℓ where
    pub found : A
    pub stands : get_elem? xs i ≡ some found
    pub passes : test found ≡ true
    pub earlier : (j : ℕ) (y : A) → j < i → get_elem? xs j ≡ some y → test y ≡ false

  IsFirst-suc :
      (x : A) (xs : List A) (i : ℕ) → test x ≡ false → IsFirst xs i → IsFirst (x ∷ xs) (suc i)
  IsFirst-suc x xs i no_hit f = record {
    found = f.found;
    stands = f.stands;
    passes = f.passes;
    earlier = before;
  }
    where
      before : (j : ℕ) (y : A) → j < suc i → get_elem? (x ∷ xs) j ≡ some y → test y ≡ false
      before zero y h e = ground arith
      before (suc j) y h e = f.earlier j y (omega arith) e

  -- Either the scan runs through, and no element passes, or it stops at the first that does.
  pub first_index_cases :
      (xs : List A)
      → ((first_index xs ≡ none) × All (λ x. test x ≡ false) xs)
        ⊎ ((i : ℕ) × (first_index xs ≡ some i) × IsFirst xs i)
  unfolding first_index
  first_index_cases [] = inl (refl, tt)
  first_index_cases (x ∷ xs) = elim (Bool-cases (test x)) [
    | inl hit ↦ inr (
      0,
      ground arith,
      record { found = x; stands = refl; passes = hit; earlier = λ j y h e. absurd (omega arith) },
    )
    | inr no_hit ↦ elim (first_index_cases xs) [
      | inl (e, all) ↦ inl (ground arith, (no_hit, all))
      | inr (i, e, f) ↦ inr (suc i, ground arith, IsFirst-suc x xs i no_hit f)
    ]
  ]
