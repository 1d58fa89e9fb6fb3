-- ===== src/Game/Visit.antt =====
-- A client's session with the server: week13/client.c, lines 41 to 80, against the event loop of
-- week13/lserver.c, with no other client's event in between.
use game_network.Game.Cases.{on_tcp_login}
use game_network.Game.Alloc.{Allocated}
use game_network.Game.Table.{deactivate, free_player, activate, broadcast_tcp, broadcast_udp}
use game_network.Game.Client.{send_udp, Sent, no_packet, send_tcp}
use game_network.Game.Handlers.{
  login_as, on_udp, on_tcp, logout, rename, move_to, slot, active_slot,
}
use game_network.Game.Types.{
  SockAddr, Packet, send, Player, max_players, epoll_del, close_fd, Effect,
}
use game_network.Game.Server.{Server, turn, Event, serve_client, serve}
use game_network.Prelude.{
  ℕ, ◌<◌, ◌≡◌, ◌≢◌, refl, ap, ◌∙◌, Bool-cases, inl, inr, true, false, some, List, [], ◌∷◌, ◌++◌,
  arith, ℤ, pos, minus_one, ◌==ℤ◌, ==ℤ_iff, ==ℤ_refl, modify, modify-modify, get_elem?,
}

-- What the server's loop gets for what the client sends, and for the end of the client: the
-- connection is `c`, and its datagrams come from `src`. 84 is the size of a packet.
abbrev pub event_of : Server → ℤ → SockAddr → Sent → Event
event_of s c src (send_tcp pkt) = record {
  fd = c;
  cfd = minus_one;
  len = pos 84;
  pkt = pkt;
  src = src;
}
event_of s c src (send_udp pkt) = record {
  fd = s.udp_sock;
  cfd = minus_one;
  len = pos 84;
  pkt = pkt;
  src = src;
}

abbrev pub end_of : ℤ → SockAddr → Event
end_of c src = record { fd = c; cfd = minus_one; len = pos 0; pkt = no_packet; src = src }

-- The descriptors of the listening socket, the datagram socket and a connection.
pub record IsConnection (tcp_sock udp_sock c : ℤ) : Type 0 where
  pub is_open : c ≢ minus_one
  pub not_tcp : c ≢ tcp_sock
  pub not_udp : c ≢ udp_sock
  pub udp_tcp : udp_sock ≢ tcp_sock

-- What the login, the move and the logout make of the slot.
abbrev pub arrived : ℤ → Packet → Player → Player
arrived c pkt p = rename pkt.username (activate c p)

abbrev pub moved : ℤ → Packet → Packet → SockAddr → Player → Player
moved c pkt move src p = move_to move src (arrived c pkt p)

abbrev pub gone : ℤ → Packet → Packet → SockAddr → Player → Player
gone c pkt move src p = deactivate (moved c pkt move src p)

==ℤ_false : (a b : ℤ) → a ≢ b → (a ==ℤ b) ≡ false
==ℤ_false a b h = elim (Bool-cases (a ==ℤ b)) [ inl e ↦ absurd (h ((==ℤ_iff a b).0 e)) | inr e ↦ e ]

-- A packet on the connection, a datagram, and the end, in the loop.
pub turn_tcp :
    (s : Server) (c : ℤ) (src : SockAddr) (pkt : Packet)
    → IsConnection s.tcp_sock s.udp_sock c
    → turn s (event_of s c src (send_tcp pkt)) ≡ on_tcp pkt c s.players
unfolding turn serve_client
turn_tcp s c src pkt h = rw (==ℤ_false c s.tcp_sock h.not_tcp, ==ℤ_false c s.udp_sock h.not_udp)

pub turn_udp :
    (s : Server) (c : ℤ) (src : SockAddr) (pkt : Packet)
    → IsConnection s.tcp_sock s.udp_sock c
    → turn s (event_of s c src (send_udp pkt)) ≡ on_udp pkt src s.players
unfolding turn
turn_udp s c src pkt h = rw (==ℤ_false s.udp_sock s.tcp_sock h.udp_tcp, ==ℤ_refl s.udp_sock)

pub turn_end :
    (s : Server) (c : ℤ) (src : SockAddr)
    → IsConnection s.tcp_sock s.udp_sock c
    → turn s (end_of c src) ≡ (free_player c s.players, epoll_del c ∷ close_fd c ∷ [])
unfolding turn serve_client
turn_end s c src h = rw (==ℤ_false c s.tcp_sock h.not_tcp, ==ℤ_false c s.udp_sock h.not_udp)

-- The handlers on the table in which the visitor has the slot.
pub on_tcp_arrives :
    (c : ℤ) (pkt : Packet) (players : List Player) (i : ℕ)
    → pkt.type ≡ pos 1
    → Allocated c players i
    → on_tcp pkt c players ≡ (
      modify i (arrived c pkt) players,
      send c (record pkt { player_id = pos i })
          ∷ broadcast_tcp (record pkt { player_id = pos i }) (modify i (arrived c pkt) players),
    )
unfolding login_as
on_tcp_arrives c pkt players i e a =
    rw (on_tcp_login pkt c players e, a.result)
      (ap
        (λ t. (
          t,
          send c (record pkt { player_id = pos i })
              ∷ broadcast_tcp (record pkt { player_id = pos i }) t,
        ))
        (modify-modify i (rename pkt.username) (activate c) players))

slot_inside : (pid : ℤ) (i : ℕ) → pid ≡ pos i → i < max_players → slot pid ≡ some i
slot_inside pid i e small = ap slot e ∙ ground (arith, small)

active_slot_inside :
    (pid : ℤ) (players : List Player) (i : ℕ) (p : Player)
    → slot pid ≡ some i
    → get_elem? players i ≡ some p
    → p.is_active ≡ true
    → active_slot pid players ≡ some i
active_slot_inside pid players i p e at active = rw (active_slot, e) (rw at (rw active))

pub on_udp_moves :
    (pkt : Packet) (src : SockAddr) (players : List Player) (i : ℕ) (p : Player)
    → pkt.player_id ≡ pos i
    → i < max_players
    → get_elem? players i ≡ some p
    → p.is_active ≡ true
    → on_udp pkt src players
      ≡ (modify i (move_to pkt src) players, broadcast_udp pkt (modify i (move_to pkt src) players))
unfolding on_udp
on_udp_moves pkt src players i p e small at active =
    let inside = slot_inside pkt.player_id i e small in
    rw (active_slot_inside pkt.player_id players i p inside at active, on_udp)

on_tcp-logout :
    (pkt : Packet) (c : ℤ) (players : List Player)
    → pkt.type ≡ pos 2
    → on_tcp pkt c players ≡ logout pkt players
unfolding on_tcp
on_tcp-logout pkt c players t = rw t

pub on_tcp_leaves :
    (pkt : Packet) (c : ℤ) (players : List Player) (i : ℕ)
    → pkt.type ≡ pos 2
    → pkt.player_id ≡ pos i
    → i < max_players
    → on_tcp pkt c players
      ≡ (modify i deactivate players, broadcast_tcp pkt (modify i deactivate players))
unfolding logout
on_tcp_leaves pkt c players i t e small =
    on_tcp-logout pkt c players t ∙ rw (slot_inside pkt.player_id i e small, logout)

serve-turn :
    (s : Server) (e : Event) (es : List Event) (players : List Player) (out : List Effect)
    → turn s e ≡ (players, out)
    → serve s (e ∷ es) ≡ (
      (serve (record s { players = players }) es).0,
      out ++ (serve (record s { players = players }) es).1,
    )
unfolding serve
serve-turn s e es players out h =
    ap
      (λ r. (
        (serve (record s { players = r.0 }) es).0,
        r.1 ++ (serve (record s { players = r.0 }) es).1,
      ))
      h

pub serve_step :
    (s : Server) (e : Event) (es : List Event) (players : List Player) (out more : List Effect)
    (last : Server)
    → turn s e ≡ (players, out)
    → serve (record s { players = players }) es ≡ (last, more)
    → serve s (e ∷ es) ≡ (last, out ++ more)
serve_step s e es players out more last h rest =
    serve-turn s e es players out h ∙ ap (λ r. (r.0, out ++ r.1)) rest

pub serve_none : (s : Server) → serve s [] ≡ (s, [])
unfolding serve
serve_none s = refl
