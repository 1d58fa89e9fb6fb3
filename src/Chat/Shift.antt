-- ===== src/Chat/Shift.antt =====
-- The loop of `handle_clnt` closes the gap that the removed socket leaves.
use mathlib.Core.List.{erase, erase_of_not-mem, Mem, not-mem-nil, mem-cons}
use mathlib.Core.Logic.Or
use mathlib.Core.HLevel.{⊥_prop}
use game_network.Prelude.{
  ℕ, zero, suc, ◌-◌, ◌<◌, ◌≤◌, ◌≡◌, refl, sym, ap, ◌∙◌, ◌==◌, some, List, [], ◌∷◌, arith, take,
  length, first_index, inl, inr, Option-cases, length-take, ℕ_discrete, if_pos, if_neg, All,
  first_index_cases, IsFirst, length-modify, get_elem?_bound, false,
}
use game_network.Chat.Table.{Table, shift, cell, write_cell, remove, clients, max_client}

abbrev erase_idx : ℕ → List ℕ → List ℕ
erase_idx i [] = []
erase_idx zero (x ∷ xs) = xs
erase_idx (suc i) (x ∷ xs) = x ∷ erase_idx i xs

shift-cons : (k j x : ℕ) (xs : List ℕ) → shift k (suc j) (x ∷ xs) ≡ x ∷ shift k j xs
unfolding shift
shift-cons zero j x xs = refl
shift-cons (suc k) j x xs = shift-cons k (suc j) x (write_cell j (cell xs (suc j)) xs)

take-shift_zero : (k x : ℕ) (xs : List ℕ) → k ≤ length xs → take k (shift k 0 (x ∷ xs)) ≡ take k xs
unfolding shift
take-shift_zero zero x xs h = refl
take-shift_zero (suc k) x [] h = absurd (omega arith)
take-shift_zero (suc k) x (y ∷ ys) h =
    rw (shift-cons k 0 y (y ∷ ys)) (ap (◌∷◌ y) (take-shift_zero k y ys (omega arith)))

length-shift : (k j : ℕ) (xs : List ℕ) → length (shift k j xs) ≡ length xs
unfolding shift
length-shift zero j xs = refl
length-shift (suc k) j xs =
    length-shift k (suc j) (write_cell j (cell xs (suc j)) xs) ∙ length-modify j _ xs

take-shift :
    (c i : ℕ) (xs : List ℕ)
    → i ≤ c
    → c < length xs
    → take c (shift (c - i) i xs) ≡ erase_idx i (take (suc c) xs)
take-shift c i [] h l = absurd (omega arith)
take-shift c zero (x ∷ xs) h l =
    let e : c - 0 ≡ c = omega arith in rw e (take-shift_zero c x xs (omega arith))
take-shift zero (suc i) (x ∷ xs) h l = absurd (omega arith)
take-shift (suc c) (suc i) (x ∷ xs) h l =
    let e : suc c - suc i ≡ c - i = omega arith in
    rw (e, shift-cons (c - i) i x xs) (ap (◌∷◌ x) (take-shift c i xs (omega arith) (omega arith)))

first_index-erase :
    (fd i : ℕ) (xs : List ℕ)
    → first_index (λ sock. fd == sock) xs ≡ some i
    → erase_idx i xs ≡ erase ℕ_discrete xs fd
unfolding first_index
first_index-erase fd i [] e = cc
first_index-erase fd i (x ∷ xs) e = elim (ℕ_discrete x fd) [
  | yes same ↦ let q : i ≡ 0 = ground arith in rw q (rw (if_pos _ same))
  | no other ↦ elim (Option-cases (first_index (λ sock. fd == sock) xs)) [
    | inl e' ↦ absurd (ground arith)
    | inr (j, q) ↦
        let r : i ≡ suc j = ground arith in
        rw r (rw (if_neg _ other) (ap (◌∷◌ x) (first_index-erase fd j xs q)))
  ]
]

pub record IsArray (t : Table) : Type 0 where
  pub cells : length t.client_socks ≡ max_client
  pub counted : t.client_count ≤ max_client

not_first-not_mem : (fd : ℕ) (xs : List ℕ) → All (λ sock. (fd == sock) ≡ false) xs → ¬ Mem fd xs
not_first-not_mem fd [] all m = not-mem-nil m
not_first-not_mem fd (x ∷ xs) all m =
    Or.elim ⊥_prop (mem-cons.0 m) (λ e. ground arith) (not_first-not_mem fd xs all.1)

-- On an array of 100 cells with a count of at most 100, the section at the end of handle_clnt
-- erases the first entry of the socket from the list of clients, keeps the order of the others, and
-- keeps these bounds.
pub clients-remove :
    (fd : ℕ) (t : Table)
    → IsArray t
    → (clients (remove fd t) ≡ erase ℕ_discrete (clients t) fd) × IsArray (remove fd t)
unfolding remove
clients-remove fd t a = elim (first_index_cases (λ sock. fd == sock) (clients t)) [
  | inl (e, all) ↦
      rw (e, remove) (sym (erase_of_not-mem ℕ_discrete (not_first-not_mem fd (clients t) all)), a)
  | inr (i, e, f) ↦
      rw (e, remove)
        (
          take-shift (t.client_count - 1) i t.client_socks (omega (arith, within i f))
                (omega (arith, within i f, a.cells, a.counted))
              ∙ rw (whole i f) (first_index-erase fd i (clients t) e),
          record {
            cells = length-shift (t.client_count - 1 - i) i t.client_socks ∙ a.cells;
            counted = omega (arith, a.counted);
          },
        )
]
  where
    within : (i : ℕ) → IsFirst (λ sock. fd == sock) (clients t) i → i < t.client_count
    within i f =
        omega
          (arith, get_elem?_bound (clients t) i f.stands, length-take t.client_count t.client_socks)

    whole :
        (i : ℕ)
        → IsFirst (λ sock. fd == sock) (clients t) i
        → suc (t.client_count - 1) ≡ t.client_count
    whole i f = omega (arith, within i f)
