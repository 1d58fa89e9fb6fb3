-- ===== src/Broadcast/Swap.antt =====
-- The array as a bag of sockets: what the loop takes out, when the last client moves into the gap.
use mathlib.Core.List.{
  Perm, Mem, erase, erase_of_not-mem, perm_append_singleton, cons-perm_iff_perm-erase, not-mem-nil,
  mem-cons,
}
use mathlib.Core.List.Perm
use mathlib.Core.Logic.Or
use mathlib.Core.Path.{subst}
use mathlib.Core.HLevel.{⊥_prop}
use mathlib.Mathlib.Data.Multiset.{Multiset, of_list}
use mathlib.Mathlib.Data.Multiset
use game_network.Prelude.{
  ℕ, zero, suc, ◌-◌, ◌<◌, ◌≤◌, ◌≡◌, refl, sym, ap, ◌∙◌, some, List, [], ◌∷◌, ◌++◌, arith, take,
  modify, length, get_elem?, inl, inr, Bool-cases, length-take, All, ℤ, ◌==ℤ◌, ==ℤ_iff, ==ℤ_ne,
  first_index_cases, IsFirst, length-modify, get_elem?_bound, get_elem?_within, false, ℕ_discrete,
}
use game_network.Broadcast.Server.{Server, clients, remove_client, cell, array_size}

pub ℤ_discrete : Discrete ℤ
ℤ_discrete a b = elim (Bool-cases (a ==ℤ b)) [
  | inl e ↦ yes ((==ℤ_iff a b).0 e)
  | inr e ↦ no (==ℤ_ne a b e)
]

module _ {A : Type 0} where
  -- The element that stood at `j` changes places with `last`.
  perm-modify :
      (j : ℕ) (last : A) (xs : List A) {x : A}
      → get_elem? xs j ≡ some x
      → Perm (x ∷ modify j (λ _. last) xs) (last ∷ xs)
  perm-modify j last [] e = cc
  perm-modify zero last (y ∷ ys) {x} e = let same : y ≡ x = cc in rw (← same) (Perm.swap last y ys)
  perm-modify (suc j) last (y ∷ ys) {x} e =
      Perm.trans (Perm.swap y x (modify j (λ _. last) ys))
        (Perm.trans (Perm.cons y (perm-modify j last ys e)) (Perm.swap last y ys))

  pub take-modify :
      (n j : ℕ) (f : A → A) (xs : List A) → take n (modify j f xs) ≡ modify j f (take n xs)
  take-modify zero j f xs = refl
  take-modify (suc n) j f [] = refl
  take-modify (suc n) zero f (x ∷ xs) = refl
  take-modify (suc n) (suc j) f (x ∷ xs) = ap (◌∷◌ x) (take-modify n j f xs)

  pub modify_beyond : (j : ℕ) (f : A → A) (xs : List A) → length xs ≤ j → modify j f xs ≡ xs
  modify_beyond j f [] h = refl
  modify_beyond zero f (x ∷ xs) h = absurd (omega arith)
  modify_beyond (suc j) f (x ∷ xs) h = ap (◌∷◌ x) (modify_beyond j f xs (omega arith))

  get_elem?-take : (n j : ℕ) (xs : List A) → j < n → get_elem? (take n xs) j ≡ get_elem? xs j
  get_elem?-take zero j xs h = absurd (omega arith)
  get_elem?-take (suc n) j [] h = refl
  get_elem?-take (suc n) zero (x ∷ xs) h = refl
  get_elem?-take (suc n) (suc j) (x ∷ xs) h = get_elem?-take n j xs (omega arith)

  pub take_snoc :
      (n : ℕ) (xs : List A) {x : A}
      → get_elem? xs n ≡ some x
      → take (suc n) xs ≡ take n xs ++ (x ∷ [])
  take_snoc n [] e = cc
  take_snoc zero (y ∷ ys) {x} e = let same : y ≡ x = cc in ap (λ a. a ∷ []) same
  take_snoc (suc n) (y ∷ ys) e = ap (◌∷◌ y) (take_snoc n ys e)

  -- The first `suc n` cells are those that are left, and the one at `j`.
  swap_out :
      (n j : ℕ) (xs : List A) {x last : A}
      → get_elem? xs n ≡ some last
      → get_elem? xs j ≡ some x
      → j ≤ n
      → Perm (x ∷ take n (modify j (λ _. last) xs)) (take (suc n) xs)
  swap_out n j xs {x} {last} e g h =
      rw (take_snoc n xs e, take-modify n j (λ _. last) xs)
        (elim (ℕ_discrete j n) [
          | yes same ↦
              let found : x ≡ last = ground (arith, e, g, same) in
              rw (found, modify_beyond j (λ _. last) (take n xs) (omega (arith, length-take n xs)))
                (Perm.symm (perm_append_singleton last (take n xs)))
          | no other ↦
              Perm.trans (perm-modify j last (take n xs) (get_elem?-take n j xs (ground arith) ∙ g))
                (Perm.symm (perm_append_singleton last (take n xs)))
        ])

cell-some : (socks : List ℤ) (i : ℕ) {fd : ℤ} → get_elem? socks i ≡ some fd → cell socks i ≡ fd
cell-some socks i e = rw (cell, e)

pub record IsArray (s : Server) : Type 0 where
  pub cells : length s.client_sockets ≡ array_size
  pub counted : s.client_count ≤ array_size

-- The clients as a bag: the order of the array forgotten.
abbrev pub bag : Server → Multiset ℤ
bag s = of_list (clients s)

not_first-not_mem : (fd : ℤ) (xs : List ℤ) → All (λ sock. (sock ==ℤ fd) ≡ false) xs → ¬ Mem fd xs
not_first-not_mem fd [] all m = not-mem-nil m
not_first-not_mem fd (x ∷ xs) all m =
    Or.elim ⊥_prop (mem-cons.0 m) (λ e. ==ℤ_ne x fd all.0 (sym e)) (not_first-not_mem fd xs all.1)

module _ (fd : ℤ) (s : Server) where
  remove_client_some :
      (j : ℕ)
      → IsArray s
      → IsFirst (λ sock. sock ==ℤ fd) (clients s) j
      → Perm
          (clients (record s {
            client_sockets =
                modify j (λ _. cell s.client_sockets (s.client_count - 1)) s.client_sockets;
            client_count = s.client_count - 1;
          }))
          (erase ℤ_discrete (clients s) fd)
  remove_client_some j a f =
      let n = s.client_count - 1 in
      let bound = get_elem?_bound (clients s) j f.stands in
      let len = length-take s.client_count s.client_sockets in
      let (last, stands) =
        get_elem?_within s.client_sockets n (omega (arith, a.cells, a.counted)) in
      let all : suc n ≡ s.client_count = omega arith in
      let same : f.found ≡ fd = (==ℤ_iff f.found fd).0 f.passes in
      let at_j : get_elem? s.client_sockets j ≡ some fd =
        sym (get_elem?-take s.client_count j s.client_sockets (omega arith))
        ∙ f.stands
        ∙ ap some same in
      let last_cell : cell s.client_sockets n ≡ last = cell-some s.client_sockets n stands in
      rw last_cell (
        ((cons-perm_iff_perm-erase ℤ_discrete).0 (
          subst
            (λ k.
              Perm (fd ∷ take n (modify j (λ _. last) s.client_sockets)) (take k s.client_sockets))
            all (swap_out n j s.client_sockets stands at_j (omega arith)))).1)

  -- On an array in its bounds the loop that moves the last client into the gap erases the socket
  -- once from the multiset of clients, and leaves the array in its bounds.
  pub bag-remove_client :
      IsArray s
      → (bag (remove_client fd s) ≡ Multiset.erase ℤ_discrete (bag s) fd)
        × IsArray (remove_client fd s)
  unfolding remove_client
  bag-remove_client a = elim (first_index_cases (λ sock. sock ==ℤ fd) (clients s)) [
    | inl (e, all) ↦
        rw (e, remove_client)
          (
            sym (
                Multiset.coe-erase ℤ_discrete (clients s) fd
                ∙ ap of_list (erase_of_not-mem ℤ_discrete (not_first-not_mem fd (clients s) all))),
            a,
          )
    | inr (j, e, f) ↦
        rw (e, remove_client)
          (
            Multiset.coe-eq-coe.1 (remove_client_some j a f)
                ∙ sym (Multiset.coe-erase ℤ_discrete (clients s) fd),
            record {
              cells = length-modify j _ s.client_sockets ∙ a.cells;
              counted = omega (arith, a.counted);
            },
          )
  ]
