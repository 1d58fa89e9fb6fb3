-- ===== src/Windows/Port.antt =====
-- The handlers and the worker's rounds of wserver.c against those of lserver.c.

use game_network.Prelude.{
  ◌≡◌, refl, ap, List, map, ℤ, pos, negsuc, ◌==ℤ◌, modify, get_elem?, Bool-cases, Option-cases, inl,
  inr,
}
use game_network.Game.Types.{Packet, SockAddr, Effect}
use game_network.Game.Handlers.{slot}
use game_network.Game
use game_network.Windows.Types.{Player, IoContext, Call}
use game_network.Windows.Table.{alloc_player, deactivate}
use game_network.Windows.Handlers.{login_as, logout, on_tcp, on_udp, active_slot, rename, move_to}
use game_network.Windows.View.{
  fd_of, as_linux, all_effects, map-modify, get_elem?-map, alloc_player-as_linux,
  broadcast_tcp-as_linux, broadcast_udp-as_linux,
}

-- A table and calls, as the Linux build has them.
abbrev pub as_result : List Player → List Call → List Game.Types.Player × List Effect
as_result players calls = (map as_linux players, all_effects calls)

login_as-as_linux :
    (r : ℤ) (pkt : Packet) (ctx : IoContext) (players : List Player)
    → Game.Handlers.login_as (map as_linux players, r) pkt (fd_of ctx.socket)
      ≡ as_result (login_as (players, r) pkt ctx).0 (login_as (players, r) pkt ctx).2
unfolding login_as Game.Handlers.login_as
login_as-as_linux (negsuc n) pkt ctx players = refl
login_as-as_linux (pos i) pkt ctx players =
    let resp = record pkt { player_id = pos i } in
    let named =
      map-modify as_linux i (rename pkt.username) (Game.Handlers.rename pkt.username) players
        (λ p. refl) in
    rw (← named, broadcast_tcp-as_linux resp (modify i (rename pkt.username) players))

logout-as_linux :
    (pkt : Packet) (ctx : IoContext) (players : List Player)
    → Game.Handlers.logout pkt (map as_linux players)
      ≡ as_result (logout pkt ctx players).0 (logout pkt ctx players).2
unfolding logout Game.Handlers.logout
logout-as_linux pkt ctx players = elim (Option-cases (slot pkt.player_id)) [
  | inl e ↦ rw (logout, Game.Handlers.logout, e)
  | inr (i, e) ↦
      let gone = map-modify as_linux i deactivate Game.Table.deactivate players (λ p. refl) in
      rw (logout, Game.Handlers.logout, e)
        (rw (← gone, broadcast_tcp-as_linux pkt (modify i deactivate players)))
]

-- `on_tcp` of both builds makes the same table, and the same sends in the same order.
pub on_tcp-as_linux :
    (pkt : Packet) (ctx : IoContext) (players : List Player)
    → Game.Handlers.on_tcp pkt (fd_of ctx.socket) (map as_linux players)
      ≡ as_result (on_tcp pkt ctx players).0 (on_tcp pkt ctx players).2
unfolding on_tcp Game.Handlers.on_tcp
on_tcp-as_linux pkt ctx players = elim (Bool-cases (pkt.type ==ℤ pos 1)) [
  | inl e ↦ rw e (
      rw (alloc_player-as_linux ctx.socket players) (
        login_as-as_linux (alloc_player ctx.socket players).1 pkt ctx
          (alloc_player ctx.socket players).0))
  | inr e ↦ elim (Bool-cases (pkt.type ==ℤ pos 2)) [
    | inl e2 ↦ rw (e, e2) (logout-as_linux pkt ctx players)
    | inr e2 ↦ elim (Bool-cases (pkt.type ==ℤ pos 4)) [
      | inl e4 ↦
          rw (e, e2, e4)
            (ap (λ out. (map as_linux players, out)) (broadcast_tcp-as_linux pkt players))
      | inr e4 ↦ elim (Bool-cases (pkt.type ==ℤ pos 5)) [
        | inl e5 ↦
            rw (e, e2, e4, e5)
              (ap (λ out. (map as_linux players, out)) (broadcast_tcp-as_linux pkt players))
        | inr e5 ↦ rw (e, e2, e4, e5)
      ]
    ]
  ]
]

active_slot-as_linux :
    (pid : ℤ) (players : List Player)
    → Game.Handlers.active_slot pid (map as_linux players) ≡ active_slot pid players
active_slot-as_linux pid players = elim (Option-cases (slot pid)) [
  | inl e ↦ rw (active_slot, Game.Handlers.active_slot, e)
  | inr (i, e) ↦ elim (Option-cases (get_elem? players i)) [
    | inl g ↦
        rw (active_slot, Game.Handlers.active_slot, e, get_elem?-map as_linux players i) (rw g)
    | inr (p, g) ↦
        rw (active_slot, Game.Handlers.active_slot, e, get_elem?-map as_linux players i) (rw g)
  ]
]

pub on_udp-as_linux :
    (pkt : Packet) (src : SockAddr) (players : List Player)
    → Game.Handlers.on_udp pkt src (map as_linux players)
      ≡ as_result (on_udp pkt src players).0 (on_udp pkt src players).1
unfolding on_udp Game.Handlers.on_udp
on_udp-as_linux pkt src players =
    let same = active_slot-as_linux pkt.player_id players in
    elim (Option-cases (active_slot pkt.player_id players)) [
      | inl e ↦ rw (on_udp, Game.Handlers.on_udp, same, e)
      | inr (i, e) ↦
          let moved =
            map-modify as_linux i (move_to pkt src) (Game.Handlers.move_to pkt src) players
              (λ p. refl) in
          rw (on_udp, Game.Handlers.on_udp, same, e)
            (rw (← moved, broadcast_udp-as_linux pkt (modify i (move_to pkt src) players)))
    ]
