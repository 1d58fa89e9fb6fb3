-- ===== src/Windows/Handlers.antt =====
-- week13/wserver.c, lines 144 to 186: `on_tcp` and `on_udp`. The lines that only print are left
-- out.
use game_network.Prelude.{
  ℕ, if◌then◌else◌, Option, none, some, List, [], ◌∷◌, ℤ, pos, negsuc, minus_one, ◌==ℤ◌, modify,
  get_elem?,
}
use game_network.Game.Types.{Packet, SockAddr, strncpy, name_size}
use game_network.Game.Handlers.{slot}
use game_network.Windows.Types.{Player, IoContext, Call, send}
use game_network.Windows.Table.{alloc_player, broadcast_tcp, broadcast_udp, deactivate}

-- The table, the context, and the calls.
abbrev pub Handled : Type 0
Handled = List Player × IoContext × List Call

abbrev pub rename : List ℕ → Player → Player
rename name p = record p { username = strncpy name_size name }

-- `case 1` behind the call of `alloc_player`.
unfoldable pub login_as : List Player × ℤ → Packet → IoContext → Handled
login_as (players, negsuc n) pkt ctx = (players, ctx, [])
login_as (players, pos i) pkt ctx =
    let named = modify i (rename pkt.username) players in
    let resp = record pkt { player_id = pos i } in
    (named, record ctx { player_id = pos i }, send ctx.socket resp ∷ broadcast_tcp resp named)

unfoldable pub logout : Packet → IoContext → List Player → Handled
logout pkt ctx players = elim (slot pkt.player_id) [
  | none ↦ (players, ctx, [])
  | some i ↦
      let gone = modify i deactivate players in
      (gone, record ctx { player_id = minus_one }, broadcast_tcp pkt gone)
]

unfoldable pub on_tcp : Packet → IoContext → List Player → Handled
on_tcp pkt ctx players =
    if pkt.type ==ℤ pos 1
    then login_as (alloc_player ctx.socket players) pkt ctx
    else if pkt.type ==ℤ pos 2
    then logout pkt ctx players
    else if pkt.type ==ℤ pos 4
    then (players, ctx, broadcast_tcp pkt players)
    else if pkt.type ==ℤ pos 5
    then (players, ctx, broadcast_tcp pkt players)
    else (players, ctx, [])

abbrev pub move_to : Packet → SockAddr → Player → Player
move_to pkt src p = record p { x = pkt.x; y = pkt.y; udp_addr = src }

-- The slot of an active player, behind the guards of `on_udp`.
abbrev pub active_slot : ℤ → List Player → Option ℕ
active_slot pid players = elim (slot pid) [
  | none ↦ none
  | some i ↦ elim (get_elem? players i) [
    | none ↦ none
    | some p ↦ if p.is_active then some i else none
  ]
]

unfoldable pub on_udp : Packet → SockAddr → List Player → List Player × List Call
on_udp pkt src players = elim (active_slot pkt.player_id players) [
  | none ↦ (players, [])
  | some i ↦ let moved = modify i (move_to pkt src) players in (moved, broadcast_udp pkt moved)
]
