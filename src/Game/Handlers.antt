-- ===== src/Game/Handlers.antt =====
-- week13/lserver.c, lines 133 to 173: what a packet does to the table, and the sends that follow.
-- The lines that only print are left out.
use game_network.Prelude.{
  ℕ, if◌then◌else◌, ltb, Option, none, some, List, [], ◌∷◌, ℤ, pos, negsuc, ◌==ℤ◌, modify,
  get_elem?,
}
use game_network.Game.Types.{
  Player, Packet, SockAddr, Effect, send, strncpy, max_players, name_size,
}
use game_network.Game.Table.{alloc_player, broadcast_tcp, broadcast_udp, deactivate}

-- The guard `pid < 0 || pid >= MAX_PLAYERS`: the index that passes it.
abbrev pub slot : ℤ → Option ℕ
slot (pos n) = if ltb n max_players then some n else none
slot (negsuc n) = none

abbrev pub rename : List ℕ → Player → Player
rename name p = record p { username = strncpy name_size name }

-- `case 1` behind the call of `alloc_player`: the new table, and the slot or -1.
unfoldable pub login_as : List Player × ℤ → Packet → ℤ → List Player × List Effect
login_as (players, negsuc n) pkt fd = (players, [])
login_as (players, pos i) pkt fd =
    let named = modify i (rename pkt.username) players in
    let resp = record pkt { player_id = pos i } in (named, send fd resp ∷ broadcast_tcp resp named)

unfoldable pub logout : Packet → List Player → List Player × List Effect
logout pkt players = elim (slot pkt.player_id) [
  | none ↦ (players, [])
  | some i ↦ let gone = modify i deactivate players in (gone, broadcast_tcp pkt gone)
]

unfoldable pub on_tcp : Packet → ℤ → List Player → List Player × List Effect
on_tcp pkt fd players =
    if pkt.type ==ℤ pos 1
    then login_as (alloc_player fd players) pkt fd
    else if pkt.type ==ℤ pos 2
    then logout pkt players
    else if pkt.type ==ℤ pos 4
    then (players, broadcast_tcp pkt players)
    else if pkt.type ==ℤ pos 5
    then (players, broadcast_tcp pkt players)
    else (players, [])

abbrev pub move_to : Packet → SockAddr → Player → Player
move_to pkt src p = record p { x = pkt.x; y = pkt.y; udp_addr = src }

-- The slot of an active player, behind both guards of `on_udp`.
abbrev pub active_slot : ℤ → List Player → Option ℕ
active_slot pid players = elim (slot pid) [
  | none ↦ none
  | some i ↦ elim (get_elem? players i) [
    | none ↦ none
    | some p ↦ if p.is_active then some i else none
  ]
]

unfoldable pub on_udp : Packet → SockAddr → List Player → List Player × List Effect
on_udp pkt src players = elim (active_slot pkt.player_id players) [
  | none ↦ (players, [])
  | some i ↦ let moved = modify i (move_to pkt src) players in (moved, broadcast_udp pkt moved)
]
