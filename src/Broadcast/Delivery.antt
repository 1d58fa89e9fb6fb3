-- ===== src/Broadcast/Delivery.antt =====
-- What a turn of the loop of week11/epoll_server.c does to the bag of clients, and who gets a
-- message.
use mathlib.Core.Logic.{◌↔◌}
use mathlib.Mathlib.Data.Multiset.{Multiset, of_list}
use mathlib.Mathlib.Data.Multiset
use game_network.Prelude.{
  some_same, ◌⊎◌, ℕ, suc, ◌<◌, ◌≤◌, ◌≡◌, refl, sym, ap, ◌∙◌, leb, if◌then◌else◌, Bool, true, false,
  none, some, Option, List, [], ◌∷◌, ◌++◌, arith, take, modify, inl, inr, Bool-cases, ℤ, ◌==ℤ◌,
  ==ℤ_iff, count, length-modify, get_elem?_within, get_elem?, get_elem?-modify_at, ==ℤ_ne,
  length-take, to_ℕ,
}
use game_network.Broadcast.Server.{
  Server, Event, Effect, epoll_add, epoll_del, close, write, write_all, add_client, broadcast,
  write_to, read_client, turn, array_size, accepted,
}
use game_network.Broadcast.Swap.{
  IsArray, bag, bag-remove_client, ℤ_discrete, take_snoc, take-modify, modify_beyond,
}
use mathlib.Core.Path.{subst}
use mathlib.Core.List.{perm_append_singleton}

-- A descriptor that is not the server's, as the bag sees it: the end of a connection erases it
-- once.
abbrev pub bag_read : ℤ → Option (List ℕ) → Multiset ℤ → Multiset ℤ
bag_read fd none b = b
bag_read fd (some []) b = Multiset.erase ℤ_discrete b fd
bag_read fd (some (c ∷ cs)) b = b

-- An event, as the bag sees it: an accepted connection comes in.
abbrev pub bag_turn : ℤ → Event → Multiset ℤ → Multiset ℤ
bag_turn server_socket e b =
    if e.current_fd ==ℤ server_socket
    then Multiset.cons e.client_socket b
    else bag_read e.current_fd e.message b

read_client-bag :
    (fd : ℤ) (message : Option (List ℕ)) (s : Server)
    → IsArray s
    → (bag (read_client fd message s).0 ≡ bag_read fd message (bag s))
      × IsArray (read_client fd message s).0
unfolding read_client
read_client-bag fd none s a = (refl, a)
read_client-bag fd (some []) s a = bag-remove_client fd s a
read_client-bag fd (some (c ∷ cs)) s a = (refl, a)

abbrev pub added : ℤ → Server → Server
added sock s = record s {
  client_sockets = modify s.client_count (λ _. sock) s.client_sockets;
  client_count = suc s.client_count;
}

added-bag :
    (sock : ℤ) (s : Server)
    → IsArray s
    → s.client_count < array_size
    → (bag (added sock s) ≡ Multiset.cons sock (bag s)) × IsArray (added sock s)
added-bag sock s a room =
    let cells = s.client_sockets in
    let n = s.client_count in
    let (old, stands) = get_elem?_within cells n (omega (arith, a.cells)) in
    let last : get_elem? (modify n (λ _. sock) cells) n ≡ some sock =
      get_elem?-modify_at n (λ _. sock) cells stands in
    let kept : take n (modify n (λ _. sock) cells) ≡ take n cells =
      take-modify n n (λ _. sock) cells
      ∙ modify_beyond n (λ _. sock) (take n cells) (omega (arith, length-take n cells)) in
    (
      ap of_list (take_snoc n (modify n (λ _. sock) cells) last ∙ ap (λ xs. xs ++ (sock ∷ [])) kept)
          ∙ Multiset.coe-eq-coe.1 (perm_append_singleton sock (take n cells)),
      record { cells = length-modify n _ cells ∙ a.cells; counted = omega arith },
    )

pub add_client_cases :
    (sock : ℤ) (s : Server)
    → ((add_client sock s ≡ none) × (array_size ≤ s.client_count))
      ⊎ ((add_client sock s ≡ some (added sock s)) × (s.client_count < array_size))
unfolding add_client
add_client_cases sock s = elim (Bool-cases (leb array_size s.client_count)) [
  | inl e ↦ inl (rw (add_client, e), ground arith)
  | inr e ↦ inr (rw (add_client, e), ground arith)
]

pub turn_cases :
    (s : Server) (e : Event)
    → ((e.current_fd ==ℤ s.server_socket) ≡ true)
        × (turn s e ≡ accepted e.client_socket (add_client e.client_socket s))
      ⊎ ((e.current_fd ==ℤ s.server_socket) ≡ false)
        × (turn s e ≡ some (read_client e.current_fd e.message s))
unfolding turn
turn_cases s e = elim (Bool-cases (e.current_fd ==ℤ s.server_socket)) [
  | inl h ↦ inl (h, rw (turn, h))
  | inr h ↦ inr (h, rw (turn, h))
]

-- A turn that returns does to the bag of clients what the event says, and leaves the array in its
-- bounds.
pub turn-bag :
    (s t : Server) (e : Event) (out : List Effect)
    → IsArray s
    → turn s e ≡ some (t, out)
    → (bag t ≡ bag_turn s.server_socket e (bag s)) × IsArray t
turn-bag s t e out a h = elim (turn_cases s e) [
  | inl (own, step) ↦ elim (add_client_cases e.client_socket s) [
    | inl (full, bound) ↦
        let gone : turn s e ≡ none = step ∙ ap (accepted e.client_socket) full in cc
    | inr (room, bound) ↦
        let got : turn s e ≡ some (added e.client_socket s, epoll_add e.client_socket ∷ []) =
          step ∙ ap (accepted e.client_socket) room in
        let same : added e.client_socket s ≡ t = cc in
        rw own (
          subst (λ u. (bag u ≡ Multiset.cons e.client_socket (bag s)) × IsArray u) same
            (added-bag e.client_socket s a bound))
  ]
  | inr (other, step) ↦
      let same : (read_client e.current_fd e.message s).0 ≡ t =
        ap (λ q. q.0) (some_same (sym step ∙ h)) in
      rw other (
        subst (λ u. (bag u ≡ bag_read e.current_fd e.message (bag s)) × IsArray u) same
          (read_client-bag e.current_fd e.message s a))
]

-- On an array in its bounds a turn writes behind the array exactly when a connection is accepted
-- and 100 clients are there.
turn_faults :
    (s : Server) (e : Event)
    → IsArray s
    → (turn s e ≡ none) ↔ ((e.current_fd ≡ s.server_socket) × (s.client_count ≡ array_size))
turn_faults s e a = elim (turn_cases s e) [
  | inl (own, step) ↦ elim (add_client_cases e.client_socket s) [
    | inl (full, bound) ↦ (
      λ h. ((==ℤ_iff e.current_fd s.server_socket).0 own, omega (arith, a.counted)),
      λ h. step ∙ ap (accepted e.client_socket) full,
    )
    | inr (room, bound) ↦
        let got : turn s e ≡ some (added e.client_socket s, epoll_add e.client_socket ∷ []) =
          step ∙ ap (accepted e.client_socket) room in
        (λ h. cc, λ h. absurd (omega (arith, h.1)))
  ]
  | inr (other, step) ↦ (λ h. cc, λ h. absurd (==ℤ_ne e.current_fd s.server_socket other h.0))
]

-- A write of the message to the descriptor.
abbrev pub is_write : ℤ → Effect → Bool
is_write d (epoll_add fd) = false
is_write d (epoll_del fd) = false
is_write d (close fd) = false
is_write d (write sock bytes) = sock ==ℤ d
is_write d (write_all sock) = sock ==ℤ d

is_write-write_to :
    (d sock : ℤ) (message : Option (List ℕ)) → is_write d (write_to message sock) ≡ (sock ==ℤ d)
is_write-write_to d sock none = refl
is_write-write_to d sock (some bytes) = refl

broadcast_own :
    (fd : ℤ) (message : Option (List ℕ)) (socks : List ℤ)
    → count (is_write fd) (broadcast fd message socks) ≡ 0
unfolding broadcast count
broadcast_own fd message [] = refl
broadcast_own fd message (sock ∷ socks) =
    let rest = broadcast_own fd message socks in
    elim (Bool-cases (sock ==ℤ fd)) [
      | inl own ↦ rw own rest
      | inr other ↦
          let no_write = is_write-write_to fd sock message ∙ other in
          rw other (omega (arith, rest, ap to_ℕ no_write))
    ]

module _ (fd d : ℤ) (other : (d ==ℤ fd) ≡ false) (message : Option (List ℕ)) where
  not_both : (sock : ℤ) → (sock ==ℤ fd) ≡ true → (sock ==ℤ d) ≡ false
  not_both sock own = elim (Bool-cases (sock ==ℤ d)) [
    | inl hit ↦ absurd (==ℤ_ne d fd other (sym ((==ℤ_iff sock d).0 hit) ∙ (==ℤ_iff sock fd).0 own))
    | inr miss ↦ miss
  ]

  broadcast_other :
      (socks : List ℤ)
      → count (is_write d) (broadcast fd message socks) ≡ count (λ sock. sock ==ℤ d) socks
  unfolding broadcast count
  broadcast_other [] = refl
  broadcast_other (sock ∷ socks) =
      let rest = broadcast_other socks in
      elim (Bool-cases (sock ==ℤ fd)) [
        | inl own ↦ rw own (omega (arith, rest, ap to_ℕ (not_both sock own)))
        | inr not_own ↦ rw not_own (omega (arith, rest, ap to_ℕ (is_write-write_to d sock message)))
      ]

-- A message, or a failed read, writes once to each entry of a socket other than the sender's, and
-- never to the sender's.
count-broadcast :
    (fd d : ℤ) (message : Option (List ℕ)) (socks : List ℤ)
    → count (is_write d) (broadcast fd message socks)
      ≡ (if d ==ℤ fd then 0 else count (λ sock. sock ==ℤ d) socks)
count-broadcast fd d message socks = elim (Bool-cases (d ==ℤ fd)) [
  | inl own ↦ rw own (
      subst (λ x. count (is_write x) (broadcast fd message socks) ≡ 0) (sym ((==ℤ_iff d fd).0 own))
        (broadcast_own fd message socks))
  | inr other ↦ rw other (broadcast_other fd d other message socks)
]
