-- ===== src/Game/Full.antt =====
-- A client of week13/client.c at a server of week13/lserver.c that has no free slot.
use game_network.Game.Cases.{on_tcp_login}
use game_network.Game.Handlers.{login_as, on_tcp}
use game_network.Game.Alloc.{alloc_player_cases}
use game_network.Game.Visit.{IsConnection, event_of, serve_step, serve_none, turn_tcp}
use game_network.Game.Server.{Server, serve}
use game_network.Game.Client.{client, send_tcp, login_packet}
use game_network.Prelude.{
  ℕ, ◌≡◌, refl, ◌∙◌, inl, inr, none, List, [], ℤ, pos, All, map, true, arith, All-get_elem?,
}
use game_network.Game.Types.{Player, Packet, SockAddr}

login_refused :
    (c : ℤ) (pkt : Packet) (players : List Player)
    → pkt.type ≡ pos 1
    → All (λ p. p.is_active ≡ true) players
    → on_tcp pkt c players ≡ (players, [])
unfolding login_as
login_refused c pkt players e all =
    rw (on_tcp_login pkt c players e) (elim (alloc_player_cases c players) [
      | inl (q, _) ↦ rw q
      | inr (i, a) ↦ absurd (
          ground (arith, a.was_free, All-get_elem? (λ p. p.is_active ≡ true) players i all a.stood))
    ])

-- When every slot of the table is active, the login of a client on a connection changes nothing and
-- nothing is sent: the client, which sends nothing else before its first recv returns, waits.
pub game_full :
    (s : Server) (c : ℤ) (src : SockAddr) (rand : ℕ)
    → IsConnection s.tcp_sock s.udp_sock c
    → All (λ p. p.is_active ≡ true) s.players
    → serve s (map (event_of s c src) (client rand none)) ≡ (s, [])
unfolding client
game_full s c src rand h all =
    serve_step s (event_of s c src (send_tcp (login_packet rand))) [] s.players [] [] s
      (turn_tcp s c src (login_packet rand) h
        ∙ login_refused c (login_packet rand) s.players refl all)
      (serve_none s)
