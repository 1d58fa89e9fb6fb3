-- ===== src/Prelude/Lists.antt =====
-- Lists measured and indexed by native numbers, under the library's names.
use Prim.Native.Nat.{ℕ, zero, suc, ◌+◌, ◌-◌, ◌<◌, min, ◌≤◌}
use mathlib.Core.Path.{◌≡◌, refl, ap, subst}
use mathlib.Core.Logic.{◌≢◌}
use mathlib.Core.List.{List, [], ◌∷◌, ◌++◌}
use mathlib.Core.Option
use mathlib.Core.Option.{Option, none, some, some-injective}
use native.Mathlib.Omega.{arith}
use game_network.Prelude.Tests.{◌==◌, if◌then◌else◌}

-- A predicate by recursion computes to tuples, which the tactics read and build.
abbrev pub All {ℓ κ} : {A : Type ℓ} → (A → Type κ) → List A → Type κ
All P [] = Unit
All P (x ∷ xs) = P x × All P xs

module _ {ℓ} {A : Type ℓ} where
  abbrev pub length : List A → ℕ
  length [] = 0
  length (x ∷ xs) = suc (length xs)

  abbrev pub get_elem? : List A → ℕ → Option A
  get_elem? [] i = none
  get_elem? (x ∷ xs) zero = some x
  get_elem? (x ∷ xs) (suc i) = get_elem? xs i

  -- The element at one index replaced by its image; out of range nothing changes.
  abbrev pub modify : ℕ → (A → A) → List A → List A
  modify i f [] = []
  modify zero f (x ∷ xs) = f x ∷ xs
  modify (suc i) f (x ∷ xs) = x ∷ modify i f xs

  abbrev pub take : ℕ → List A → List A
  take zero xs = []
  take (suc n) [] = []
  take (suc n) (x ∷ xs) = x ∷ take n xs

  abbrev pub drop : ℕ → List A → List A
  drop zero xs = xs
  drop (suc n) [] = []
  drop (suc n) (x ∷ xs) = drop n xs

  abbrev pub replicate : ℕ → A → List A
  replicate zero a = []
  replicate (suc n) a = a ∷ replicate n a

module _ {ℓ} {A : Type ℓ} where
  pub length-append : (xs ys : List A) → length (xs ++ ys) ≡ length xs + length ys
  length-append [] ys = omega arith
  length-append (x ∷ xs) ys = omega (arith, length-append xs ys)

  -- A count that goes up by a test, 1 or 0, as a list.
  pub replicate_counted : (n : ℕ) (a : A) → a ∷ replicate n a ≡ replicate (1 + n) a
  replicate_counted n a = let e : suc n ≡ 1 + n = omega arith in ap (λ k. replicate k a) e

  pub replicate_uncounted : (n : ℕ) (a : A) → replicate n a ≡ replicate (0 + n) a
  replicate_uncounted n a = let e : n ≡ 0 + n = omega arith in ap (λ k. replicate k a) e

  pub length-replicate : (n : ℕ) (a : A) → length (replicate n a) ≡ n
  length-replicate zero a = refl
  length-replicate (suc n) a = ap suc (length-replicate n a)

  pub length-modify : (i : ℕ) (f : A → A) (xs : List A) → length (modify i f xs) ≡ length xs
  length-modify i f [] = refl
  length-modify zero f (x ∷ xs) = refl
  length-modify (suc i) f (x ∷ xs) = ap suc (length-modify i f xs)

  pub modify-modify :
      (i : ℕ) (f g : A → A) (xs : List A) → modify i f (modify i g xs) ≡ modify i (λ x. f (g x)) xs
  modify-modify i f g [] = refl
  modify-modify zero f g (x ∷ xs) = refl
  modify-modify (suc i) f g (x ∷ xs) = ap (◌∷◌ x) (modify-modify i f g xs)

  pub get_elem?-modify :
      (i : ℕ) (f : A → A) (xs : List A) (j : ℕ)
      → get_elem? (modify i f xs) j
        ≡ (if i == j then Option.map f (get_elem? xs j) else get_elem? xs j)
  get_elem?-modify i f [] j = ground arith
  get_elem?-modify zero f (x ∷ xs) zero = refl
  get_elem?-modify zero f (x ∷ xs) (suc j) = ground arith
  get_elem?-modify (suc i) f (x ∷ xs) zero = ground arith
  get_elem?-modify (suc i) f (x ∷ xs) (suc j) = ground (arith, get_elem?-modify i f xs j)

  pub length-take : (n : ℕ) (xs : List A) → length (take n xs) ≡ min n (length xs)
  length-take zero xs = omega arith
  length-take (suc n) [] = omega arith
  length-take (suc n) (x ∷ xs) = omega (arith, length-take n xs)

module _ {ℓ κ} {A : Type ℓ} (P : A → Type κ) where
  pub All-get_elem? : (xs : List A) (i : ℕ) {x : A} → All P xs → get_elem? xs i ≡ some x → P x
  All-get_elem? [] i h e = cc
  All-get_elem? (y ∷ ys) zero h e = subst P (some-injective _ _ e) h.0
  All-get_elem? (y ∷ ys) (suc i) h e = All-get_elem? ys i h.1 e

  pub All-modify :
      (i : ℕ) (f : A → A) (xs : List A)
      → ((x : A) → get_elem? xs i ≡ some x → P x → P (f x))
      → All P xs
      → All P (modify i f xs)
  All-modify i f [] k h = h
  All-modify zero f (x ∷ xs) k h = (k x refl h.0, h.1)
  All-modify (suc i) f (x ∷ xs) k h = (h.0, All-modify i f xs k h.1)

  pub All-replicate : (n : ℕ) (a : A) → P a → All P (replicate n a)
  All-replicate zero a h = tt
  All-replicate (suc n) a h = (h, All-replicate n a h)

pub All-mono {ℓ κ μ} :
    {A : Type ℓ} {P : A → Type κ} {Q : A → Type μ} (xs : List A)
    → ((x : A) → P x → Q x)
    → All P xs
    → All Q xs
All-mono [] f h = tt
All-mono (x ∷ xs) f h = (f x h.0, All-mono xs f h.1)

module _ {ℓ} {A : Type ℓ} where
  pub get_elem?_within : (xs : List A) (i : ℕ) → i < length xs → (x : A) × (get_elem? xs i ≡ some x)
  get_elem?_within [] i h = absurd (omega arith)
  get_elem?_within (x ∷ xs) zero h = (x, refl)
  get_elem?_within (x ∷ xs) (suc i) h = get_elem?_within xs i (omega arith)

  pub get_elem?-modify_at :
      (i : ℕ) (f : A → A) (xs : List A) {x : A}
      → get_elem? xs i ≡ some x
      → get_elem? (modify i f xs) i ≡ some (f x)
  get_elem?-modify_at i f xs e = ground (arith, get_elem?-modify i f xs i)

  pub get_elem?-modify_other :
      (i j : ℕ) (f : A → A) (xs : List A) → j ≢ i → get_elem? (modify i f xs) j ≡ get_elem? xs j
  get_elem?-modify_other i j f xs h = ground (arith, get_elem?-modify i f xs j)

  pub get_elem?_bound : (xs : List A) (i : ℕ) {x : A} → get_elem? xs i ≡ some x → i < length xs
  get_elem?_bound [] i e = cc
  get_elem?_bound (y ∷ ys) zero e = omega arith
  get_elem?_bound (y ∷ ys) (suc i) e = omega (arith, get_elem?_bound ys i e)

pub All-append {ℓ κ} :
    {A : Type ℓ} (P : A → Type κ) (xs ys : List A) → All P xs → All P ys → All P (xs ++ ys)
All-append P [] ys hx hy = hy
All-append P (x ∷ xs) ys hx hy = (hx.0, All-append P xs ys hx.1 hy)

pub All-append_parts {ℓ κ} :
    {A : Type ℓ} (P : A → Type κ) (xs ys : List A) → All P (xs ++ ys) → All P xs × All P ys
All-append_parts P [] ys h = (tt, h)
All-append_parts P (x ∷ xs) ys h =
    let (hxs, hys) = All-append_parts P xs ys h.1 in ((h.0, hxs), hys)

module _ {ℓ} {A : Type ℓ} where
  pub length-drop : (n : ℕ) (xs : List A) → length (drop n xs) ≡ length xs - n
  length-drop zero xs = omega arith
  length-drop (suc n) [] = omega arith
  length-drop (suc n) (x ∷ xs) = omega (arith, length-drop n xs)

  pub take_nil : (n : ℕ) → take {A = A} n [] ≡ []
  take_nil zero = refl
  take_nil (suc n) = refl

  pub drop_nil : (n : ℕ) → drop {A = A} n [] ≡ []
  drop_nil zero = refl
  drop_nil (suc n) = refl

  -- A prefix taken in two steps.
  pub take-split : (m n : ℕ) (xs : List A) → take m xs ++ take n (drop m xs) ≡ take (m + n) xs
  take-split zero n xs = let e : 0 + n ≡ n = omega arith in rw e
  take-split (suc m) n [] = rw (take_nil n, take_nil (suc m + n))
  take-split (suc m) n (x ∷ xs) =
      let e : suc m + n ≡ suc (m + n) = omega arith in rw e (ap (◌∷◌ x) (take-split m n xs))

  pub drop-drop : (m n : ℕ) (xs : List A) → drop n (drop m xs) ≡ drop (m + n) xs
  drop-drop zero n xs = let e : 0 + n ≡ n = omega arith in rw e
  drop-drop (suc m) n [] = rw (drop_nil n, drop_nil (suc m + n))
  drop-drop (suc m) n (x ∷ xs) =
      let e : suc m + n ≡ suc (m + n) = omega arith in rw e (drop-drop m n xs)

  pub take-append-drop : (m : ℕ) (xs : List A) → take m xs ++ drop m xs ≡ xs
  take-append-drop zero xs = refl
  take-append-drop (suc m) [] = refl
  take-append-drop (suc m) (x ∷ xs) = ap (◌∷◌ x) (take-append-drop m xs)

  pub take_all : (n : ℕ) (xs : List A) → length xs ≤ n → take n xs ≡ xs
  take_all zero [] h = refl
  take_all zero (x ∷ xs) h = absurd (omega arith)
  take_all (suc n) [] h = refl
  take_all (suc n) (x ∷ xs) h = ap (◌∷◌ x) (take_all n xs (omega arith))

  pub drop_all : (n : ℕ) (xs : List A) → length xs ≤ n → drop n xs ≡ []
  drop_all zero [] h = refl
  drop_all zero (x ∷ xs) h = absurd (omega arith)
  drop_all (suc n) [] h = refl
  drop_all (suc n) (x ∷ xs) h = drop_all n xs (omega arith)

pub All-unappend {ℓ κ} :
    {A : Type ℓ} (P : A → Type κ) (xs ys : List A) → All P (xs ++ ys) → All P xs × All P ys
All-unappend P [] ys h = (tt, h)
All-unappend P (x ∷ xs) ys h = let (front, back) = All-unappend P xs ys h.1 in ((h.0, front), back)
