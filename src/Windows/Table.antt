-- ===== src/Windows/Table.antt =====
-- week13/wserver.c, lines 108 to 142: the fixed table of players.
use game_network.Prelude.{
  ℕ, ◌==◌, if◌then◌else◌, Bool, true, false, not, ◌&&◌, none, some, List, [], ◌∷◌, ℤ, pos,
  minus_one, modify, first_index,
}
use game_network.Game.Types.{Packet, af_inet}
use game_network.Windows.Types.{Player, Call, send, sendto, invalid_socket}

abbrev pub is_free : Player → Bool
is_free p = not p.is_active

abbrev pub holds_socket : ℕ → Player → Bool
holds_socket sock p = p.tcp_sock == sock

abbrev pub activate : ℕ → Player → Player
activate sock p = record p { is_active = true; hp = 100; tcp_sock = sock }

abbrev pub deactivate : Player → Player
deactivate p = record p { is_active = false; tcp_sock = invalid_socket }

-- The new table, and the slot or -1.
unfoldable pub alloc_player : ℕ → List Player → List Player × ℤ
alloc_player sock players = elim (first_index is_free players) [
  | none ↦ (players, minus_one)
  | some i ↦ (modify i (activate sock) players, pos i)
]

unfoldable pub free_player : ℕ → List Player → List Player
free_player sock players = elim (first_index (holds_socket sock) players) [
  | none ↦ players
  | some i ↦ modify i deactivate players
]

abbrev pub hears_tcp : Player → Bool
hears_tcp p = p.is_active && not (p.tcp_sock == invalid_socket)

abbrev pub hears_udp : Player → Bool
hears_udp p = p.is_active && p.udp_addr.sin_family == af_inet

unfoldable pub broadcast_tcp : Packet → List Player → List Call
broadcast_tcp pkt [] = []
broadcast_tcp pkt (p ∷ ps) =
    let rest = broadcast_tcp pkt ps in if hears_tcp p then send p.tcp_sock pkt ∷ rest else rest

unfoldable pub broadcast_udp : Packet → List Player → List Call
broadcast_udp pkt [] = []
broadcast_udp pkt (p ∷ ps) =
    let rest = broadcast_udp pkt ps in if hears_udp p then sendto p.udp_addr pkt ∷ rest else rest
