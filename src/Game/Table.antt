-- ===== src/Game/Table.antt =====
-- week13/lserver.c, lines 97 to 131: the fixed table of players. The loops over its slots run over
-- the list, and stop where the source returns.
use game_network.Prelude.{
  ◌==◌, if◌then◌else◌, Bool, true, false, not, ◌&&◌, none, some, List, [], ◌∷◌, ℤ, pos, minus_one,
  ◌==ℤ◌, modify, first_index,
}
use game_network.Game.Types.{Player, Packet, Effect, send, sendto, af_inet}

abbrev pub is_free : Player → Bool
is_free p = not p.is_active

abbrev pub holds_fd : ℤ → Player → Bool
holds_fd fd p = p.tcp_fd ==ℤ fd

abbrev pub activate : ℤ → Player → Player
activate fd p = record p { is_active = true; hp = 100; tcp_fd = fd }

abbrev pub deactivate : Player → Player
deactivate p = record p { is_active = false; tcp_fd = minus_one }

-- The new table, and the slot or -1.
unfoldable pub alloc_player : ℤ → List Player → List Player × ℤ
alloc_player fd players = elim (first_index is_free players) [
  | none ↦ (players, minus_one)
  | some i ↦ (modify i (activate fd) players, pos i)
]

unfoldable pub free_player : ℤ → List Player → List Player
free_player fd players = elim (first_index (holds_fd fd) players) [
  | none ↦ players
  | some i ↦ modify i deactivate players
]

abbrev pub hears_tcp : Player → Bool
hears_tcp p = p.is_active && not (p.tcp_fd ==ℤ minus_one)

abbrev pub hears_udp : Player → Bool
hears_udp p = p.is_active && p.udp_addr.sin_family == af_inet

unfoldable pub broadcast_tcp : Packet → List Player → List Effect
broadcast_tcp pkt [] = []
broadcast_tcp pkt (p ∷ ps) =
    let rest = broadcast_tcp pkt ps in if hears_tcp p then send p.tcp_fd pkt ∷ rest else rest

unfoldable pub broadcast_udp : Packet → List Player → List Effect
broadcast_udp pkt [] = []
broadcast_udp pkt (p ∷ ps) =
    let rest = broadcast_udp pkt ps in if hears_udp p then sendto p.udp_addr pkt ∷ rest else rest
