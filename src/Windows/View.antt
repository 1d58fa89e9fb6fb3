-- ===== src/Windows/View.antt =====
-- A table of wserver.c as a table of lserver.c: a SOCKET is a descriptor, and `INVALID_SOCKET` is
-- -1.
use mathlib.Core.Option
use game_network.Prelude.{
  Option-cases, ℕ, zero, suc, ◌≡◌, refl, sym, ap, ◌==◌, if◌then◌else◌, Bool, not, ◌&&◌, List, [],
  ◌∷◌, ◌++◌, map, arith, ℤ, pos, minus_one, ◌==ℤ◌, modify, get_elem?, first_index, Bool-cases, inl,
  inr,
}
use game_network.Game.Types.{Packet, SockAddr, Effect, epoll_del, close_fd}
use game_network.Game
use game_network.Windows.Types.{Player, Call, send, sendto, closesocket, invalid_socket}
use game_network.Windows.Table.{
  is_free, holds_socket, activate, deactivate, alloc_player, free_player, hears_tcp, broadcast_tcp,
  broadcast_udp, hears_udp,
}

abbrev pub fd_of : ℕ → ℤ
fd_of sock = if sock == invalid_socket then minus_one else pos sock

abbrev pub as_linux : Player → Game.Types.Player
as_linux p = record {
  x = p.x;
  y = p.y;
  hp = p.hp;
  is_active = p.is_active;
  tcp_fd = fd_of p.tcp_sock;
  udp_addr = p.udp_addr;
  username = p.username;
}

-- What a call is on Linux. A socket that is closed leaves the epoll set first.
abbrev pub as_effects : Call → List Effect
as_effects (send sock pkt) = Game.Types.send (fd_of sock) pkt ∷ []
as_effects (sendto addr pkt) = Game.Types.sendto addr pkt ∷ []
as_effects (closesocket sock) = epoll_del (fd_of sock) ∷ close_fd (fd_of sock) ∷ []

abbrev pub all_effects : List Call → List Effect
all_effects [] = []
all_effects (c ∷ cs) = as_effects c ++ all_effects cs

fd_of-invalid : (sock : ℕ) → (sock == invalid_socket) ≡ (fd_of sock ==ℤ minus_one)
fd_of-invalid sock = elim (Bool-cases (sock == invalid_socket)) [ inl e ↦ rw e | inr e ↦ rw e ]

fd_of_same : (a b : ℕ) → (a == b) ≡ (fd_of a ==ℤ fd_of b)
fd_of_same a b = elim (Bool-cases (a == invalid_socket)) [
  | inl ea ↦ elim (Bool-cases (b == invalid_socket)) [
    | inl eb ↦ ground arith
    | inr eb ↦ ground arith
  ]
  | inr ea ↦ elim (Bool-cases (b == invalid_socket)) [
    | inl eb ↦ ground arith
    | inr eb ↦ ground arith
  ]
]

module _ {A B : Type 0} (f : A → B) where
  pub map-modify :
      (i : ℕ) (g : A → A) (h : B → B) (xs : List A)
      → ((x : A) → f (g x) ≡ h (f x))
      → map f (modify i g xs) ≡ modify i h (map f xs)
  map-modify i g h [] e = refl
  map-modify zero g h (x ∷ xs) e = ap (λ y. y ∷ map f xs) (e x)
  map-modify (suc i) g h (x ∷ xs) e = ap (◌∷◌ (f x)) (map-modify i g h xs e)

  first_index-map :
      (p : A → Bool) (q : B → Bool) (xs : List A)
      → ((x : A) → p x ≡ q (f x))
      → first_index p xs ≡ first_index q (map f xs)
  unfolding first_index
  first_index-map p q [] e = refl
  first_index-map p q (x ∷ xs) e = rw (e x, first_index-map p q xs e)

  pub get_elem?-map : (xs : List A) (i : ℕ) → get_elem? (map f xs) i ≡ Option.map f (get_elem? xs i)
  get_elem?-map [] i = refl
  get_elem?-map (x ∷ xs) zero = refl
  get_elem?-map (x ∷ xs) (suc i) = get_elem?-map xs i

pub alloc_player-as_linux :
    (sock : ℕ) (players : List Player)
    → Game.Table.alloc_player (fd_of sock) (map as_linux players)
      ≡ (map as_linux (alloc_player sock players).0, (alloc_player sock players).1)
unfolding alloc_player Game.Table.alloc_player
alloc_player-as_linux sock players =
    let same = first_index-map as_linux is_free Game.Table.is_free players (λ p. refl) in
    elim (Option-cases (first_index is_free players)) [
      | inl e ↦ rw (alloc_player, Game.Table.alloc_player, ← same, e)
      | inr (i, e) ↦
          rw (alloc_player, Game.Table.alloc_player, ← same, e)
            (ap (λ ps. (ps, pos i))
              (sym (
                map-modify as_linux i (activate sock) (Game.Table.activate (fd_of sock)) players
                  (λ p. refl))))
    ]

pub free_player-as_linux :
    (sock : ℕ) (players : List Player)
    → Game.Table.free_player (fd_of sock) (map as_linux players)
      ≡ map as_linux (free_player sock players)
unfolding free_player Game.Table.free_player
free_player-as_linux sock players =
    let same =
      first_index-map as_linux (holds_socket sock) (Game.Table.holds_fd (fd_of sock)) players
        (λ p. fd_of_same p.tcp_sock sock) in
    elim (Option-cases (first_index (holds_socket sock) players)) [
      | inl e ↦ rw (free_player, Game.Table.free_player, ← same, e)
      | inr (i, e) ↦
          rw (free_player, Game.Table.free_player, ← same, e)
            (sym (map-modify as_linux i deactivate Game.Table.deactivate players (λ p. refl)))
    ]

pub broadcast_tcp-as_linux :
    (pkt : Packet) (players : List Player)
    → Game.Table.broadcast_tcp pkt (map as_linux players) ≡ all_effects (broadcast_tcp pkt players)
unfolding broadcast_tcp Game.Table.broadcast_tcp
broadcast_tcp-as_linux pkt [] = refl
broadcast_tcp-as_linux pkt (p ∷ ps) =
    let heard : hears_tcp p ≡ Game.Table.hears_tcp (as_linux p) =
      ap (λ b. p.is_active && not b) (fd_of-invalid p.tcp_sock) in
    elim (Bool-cases (hears_tcp p)) [
      | inl e ↦
          rw (← heard, e)
            (ap (◌∷◌ (Game.Types.send (fd_of p.tcp_sock) pkt)) (broadcast_tcp-as_linux pkt ps))
      | inr e ↦ rw (← heard, e) (broadcast_tcp-as_linux pkt ps)
    ]

pub broadcast_udp-as_linux :
    (pkt : Packet) (players : List Player)
    → Game.Table.broadcast_udp pkt (map as_linux players) ≡ all_effects (broadcast_udp pkt players)
unfolding broadcast_udp Game.Table.broadcast_udp
broadcast_udp-as_linux pkt [] = refl
broadcast_udp-as_linux pkt (p ∷ ps) = elim (Bool-cases (hears_udp p)) [
  | inl e ↦ rw e (ap (◌∷◌ (Game.Types.sendto p.udp_addr pkt)) (broadcast_udp-as_linux pkt ps))
  | inr e ↦ rw e (broadcast_udp-as_linux pkt ps)
]
