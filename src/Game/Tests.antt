-- ===== src/Game/Tests.antt =====
-- Runs of the game server at concrete packets, and its theorems applied to them.
use game_network.Prelude.{
  ℕ, zero, suc, ◌<◌, ◌≡◌, refl, true, some, List, [], ◌∷◌, arith, ℤ, pos, replicate, All,
  first_index, count, get_elem?,
}
use mathlib.Core.List.{Mem}
use game_network.Game.Types.{SockAddr, Player, Packet, sendto, strncpy}
use game_network.Game.Table.{alloc_player, free_player, activate}
use game_network.Game.Handlers.{on_tcp, on_udp, login_as}
use game_network.Game.Server.{Event, blank, start, turn, serve}
use game_network.Game.Alloc.{Allocated}
use game_network.Game.Invariant.{
  IsTable, IsReady, on_tcp-IsTable, start-IsTable, serve-start-IsTable,
}
use game_network.Game.Lobby.{Step, view}
use game_network.Game.Refines.{turn-Step}
use game_network.Game.Delivery.{Carries, sends_to, sessions_on, login_delivery, ghost_session}
use game_network.Game.Stale.{stale_address}

abbrev home : SockAddr
home = record { sin_family = 2; sin_addr = 0x0100007f; sin_port = 9001 }

-- A packet of the type, from the player.
abbrev packet_of : ℤ → ℤ → Packet
packet_of type pid = record {
  type = type;
  player_id = pid;
  x = 0;
  y = 0;
  target_id = pos 1;
  username = b'a' ∷ b'd' ∷ replicate 30 0;
  password = replicate 32 0;
}

abbrev event_on : ℤ → Packet → Event
event_on fd pkt = record { fd = fd; cfd = pos 7; len = pos 80; pkt = pkt; src = home }

abbrev login_packet : Packet
login_packet = packet_of (pos 1) (pos 0)

abbrev attack : Packet
attack = packet_of (pos 4) (pos 0)

-- A client connects, logs in, moves and leaves.
abbrev session_events : List Event
session_events =
    event_on (pos 3) login_packet
    ∷ event_on (pos 7) login_packet
    ∷ event_on (pos 4) (packet_of (pos 3) (pos 0))
    ∷ event_on (pos 7) (packet_of (pos 2) (pos 0))
    ∷ []

session-IsReady : All IsReady session_events
session-IsReady = ((λ e. cc), ((λ e. cc), ((λ e. cc), ((λ e. cc), tt))))

serve-start-IsTable_example : IsTable (serve (start (pos 3) (pos 4)) session_events).0.players
serve-start-IsTable_example = serve-start-IsTable (pos 3) (pos 4) session_events session-IsReady

turn-Step_example :
    Step
      (start (pos 3) (pos 4))
      (event_on (pos 7) login_packet)
      (view (start (pos 3) (pos 4)).players)
      (view (turn (start (pos 3) (pos 4)) (event_on (pos 7) login_packet)).0)
turn-Step_example =
    turn-Step (start (pos 3) (pos 4)) (event_on (pos 7) login_packet) (λ e. cc)
      (start-IsTable (pos 3) (pos 4))

-- One player online on descriptor 6, and a slot that its last player left with an address.
abbrev small : List Player
small = activate (pos 6) blank ∷ record blank { udp_addr = home } ∷ []

abbrev second_free : Allocated (pos 7) small 1
unfolding alloc_player first_index
second_free = record {
  old = record blank { udp_addr = home };
  stood = refl;
  was_free = refl;
  lowest = before;
  result = refl;
}
  where
    before : (j : ℕ) (p : Player) → j < 1 → get_elem? small j ≡ some p → p.is_active ≡ true
    before zero p h e = ground arith
    before (suc j) p h e = absurd (omega arith)

-- The newcomer gets its answer twice, the player who is online once.
login_delivery_example :
    All (Carries (record login_packet { player_id = pos 1 })) (on_tcp login_packet (pos 7) small).1
    × (sends_to (pos 7) (on_tcp login_packet (pos 7) small).1 ≡ 2)
unfolding count
login_delivery_example =
    login_delivery (pos 7) login_packet small 1 (pos 7) second_free refl (λ e. cc)

-- Two logins over descriptor 7.
abbrev twice_in : List Player
twice_in =
    (on_tcp login_packet (pos 7) (on_tcp login_packet (pos 7) (start (pos 3) (pos 4)).players).0).0

twice_in-IsTable : IsTable twice_in
twice_in-IsTable =
    on_tcp-IsTable login_packet (pos 7) _ (λ e. cc)
      (on_tcp-IsTable login_packet (pos 7) _ (λ e. cc) (start-IsTable (pos 3) (pos 4)))

twice_in_sessions : sessions_on (pos 7) twice_in ≡ 2
unfolding count on_tcp login_as alloc_player first_index start strncpy
twice_in_sessions = refl

ghost_session_example :
    0 < sends_to (pos 7) (on_tcp attack (pos 6) (free_player (pos 7) twice_in)).1
ghost_session_example =
    ghost_session (pos 7) (pos 6) attack twice_in (λ e. cc) twice_in-IsTable
      (omega (arith, twice_in_sessions)) refl

-- The newcomer on slot 1 has sent no datagram, and the move of player 0 goes to its predecessor.
stale_address_example :
    Mem
      (sendto home (packet_of (pos 3) (pos 0)))
      (on_udp (packet_of (pos 3) (pos 0)) home (on_tcp login_packet (pos 7) small).0).1
unfolding on_tcp login_as alloc_player first_index
stale_address_example =
    stale_address (pos 7) login_packet (packet_of (pos 3) (pos 0)) home small 1 0 second_free refl
      refl refl (λ e. omega arith)

-- A third login on a table of two is refused, and nothing is sent.
full_refused :
    on_tcp login_packet (pos 8) (activate (pos 6) blank ∷ []) ≡ (activate (pos 6) blank ∷ [], [])
unfolding on_tcp login_as alloc_player first_index
full_refused = refl

-- A move of an identifier that is not online is dropped.
stray_move : on_udp (packet_of (pos 3) (pos 1)) home small ≡ (small, [])
unfolding on_udp
stray_move = refl
