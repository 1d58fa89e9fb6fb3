-- ===== src/Game/Cases.antt =====
-- The branches of `on_tcp` and of a turn of the event loop, as rules: a predicate that holds of the
-- result of each branch, under the test that leads to it, holds of the whole.
use game_network.Prelude.{
  ◌≡◌, ◌≢◌, ◌⊎◌, inl, inr, Bool-cases, true, false, List, [], ◌∷◌, ℤ, pos, ◌==ℤ◌, ==ℤ_iff, ==ℤ_ne,
  le_zero,
}
use game_network.Game.Types.{Player, Packet, Effect, epoll_add, epoll_del, close_fd}
use game_network.Game.Table.{alloc_player, free_player, broadcast_tcp}
use game_network.Game.Handlers.{on_tcp, on_udp, login_as, logout}
use game_network.Game.Server.{Event, Server, serve_client, turn}

module _ {ℓ} (P : List Player × List Effect → Type ℓ) where
  pub on_tcp_cases :
      (pkt : Packet) (fd : ℤ) (players : List Player)
      → (pkt.type ≡ pos 1 → P (login_as (alloc_player fd players) pkt fd))
      → (pkt.type ≡ pos 2 → P (logout pkt players))
      → ((pkt.type ≡ pos 4) ⊎ (pkt.type ≡ pos 5) → P (players, broadcast_tcp pkt players))
      → (pkt.type ≢ pos 1 → pkt.type ≢ pos 2 → P (players, []))
      → P (on_tcp pkt fd players)
  unfolding on_tcp
  on_tcp_cases pkt fd players login out relay ignored = elim (Bool-cases (pkt.type ==ℤ pos 1)) [
    | inl e ↦ rw e (login ((==ℤ_iff pkt.type (pos 1)).0 e))
    | inr n1 ↦ rw n1 (elim (Bool-cases (pkt.type ==ℤ pos 2)) [
      | inl e ↦ rw e (out ((==ℤ_iff pkt.type (pos 2)).0 e))
      | inr n2 ↦ rw n2 (elim (Bool-cases (pkt.type ==ℤ pos 4)) [
        | inl e ↦ rw e (relay (inl ((==ℤ_iff pkt.type (pos 4)).0 e)))
        | inr n4 ↦ rw n4 (elim (Bool-cases (pkt.type ==ℤ pos 5)) [
          | inl e ↦ rw e (relay (inr ((==ℤ_iff pkt.type (pos 5)).0 e)))
          | inr n5 ↦ rw n5 (ignored (==ℤ_ne pkt.type (pos 1) n1) (==ℤ_ne pkt.type (pos 2) n2))
        ])
      ])
    ])
  ]

  pub serve_client_cases :
      (e : Event) (players : List Player)
      → (le_zero e.len ≡ true → P (free_player e.fd players, epoll_del e.fd ∷ close_fd e.fd ∷ []))
      → (le_zero e.len ≡ false → P (on_tcp e.pkt e.fd players))
      → P (serve_client e players)
  unfolding serve_client
  serve_client_cases e players ended got = elim (Bool-cases (le_zero e.len)) [
    | inl h ↦ rw h (ended h)
    | inr h ↦ rw h (got h)
  ]

  pub turn_cases :
      (s : Server) (e : Event)
      → (e.fd ≡ s.tcp_sock → P (s.players, epoll_add e.cfd ∷ []))
      → (e.fd ≢ s.tcp_sock → e.fd ≡ s.udp_sock → P (on_udp e.pkt e.src s.players))
      → (e.fd ≢ s.tcp_sock → e.fd ≢ s.udp_sock → P (serve_client e s.players))
      → P (turn s e)
  unfolding turn
  turn_cases s e accepts moves serves = elim (Bool-cases (e.fd ==ℤ s.tcp_sock)) [
    | inl t ↦ rw t (accepts ((==ℤ_iff e.fd s.tcp_sock).0 t))
    | inr nt ↦ rw nt (elim (Bool-cases (e.fd ==ℤ s.udp_sock)) [
      | inl u ↦ rw u (moves (==ℤ_ne e.fd s.tcp_sock nt) ((==ℤ_iff e.fd s.udp_sock).0 u))
      | inr nu ↦ rw nu (serves (==ℤ_ne e.fd s.tcp_sock nt) (==ℤ_ne e.fd s.udp_sock nu))
    ])
  ]

pub on_tcp_login :
    (pkt : Packet) (fd : ℤ) (players : List Player)
    → pkt.type ≡ pos 1
    → on_tcp pkt fd players ≡ login_as (alloc_player fd players) pkt fd
unfolding on_tcp
on_tcp_login pkt fd players e = rw e

pub on_tcp_relay :
    (pkt : Packet) (fd : ℤ) (players : List Player)
    → (pkt.type ≡ pos 4) ⊎ (pkt.type ≡ pos 5)
    → on_tcp pkt fd players ≡ (players, broadcast_tcp pkt players)
unfolding on_tcp
on_tcp_relay pkt fd players (inl e) = rw e
on_tcp_relay pkt fd players (inr e) = rw e
