-- ===== src/Game/Stale.antt =====
-- What a login leaves of the player who had the slot before: `alloc_player` sets three fields, and
-- the UDP address is not one of them.
use game_network.Prelude.{
  ℕ, ◌≡◌, ◌≢◌, Bool-cases, inl, inr, true, some, List, [], ◌∷◌, arith, ℤ, pos, get_elem?, modify,
  get_elem?-modify_at, get_elem?-modify_other, zero, suc, ap, ◌∙◌,
}
use mathlib.Core.Path.{subst}
use mathlib.Core.Option.{some-injective}
use mathlib.Core.List.{Mem, mem-cons_self, mem-cons_of_mem}
use game_network.Game.Types.{Player, Packet, SockAddr, sendto, af_inet}
use game_network.Game.Table.{activate, broadcast_udp, hears_udp}
use game_network.Game.Handlers.{on_tcp, on_udp, login_as, rename, move_to, active_slot}
use game_network.Game.Cases.{on_tcp_login}
use game_network.Game.Alloc.{Allocated}

pub broadcast_udp-mem :
    (pkt : Packet) (players : List Player) (i : ℕ) {p : Player}
    → get_elem? players i ≡ some p
    → hears_udp p ≡ true
    → Mem (sendto p.udp_addr pkt) (broadcast_udp pkt players)
unfolding broadcast_udp
broadcast_udp-mem pkt [] i e h = cc
broadcast_udp-mem pkt (q ∷ qs) zero {p} e h =
    subst (λ r. Mem (sendto r.udp_addr pkt) (broadcast_udp pkt (q ∷ qs))) same
      (rw (ap hears_udp same ∙ h) mem-cons_self)
  where
    same : q ≡ p
    same = some-injective q p e
broadcast_udp-mem pkt (q ∷ qs) (suc i) e h = elim (Bool-cases (hears_udp q)) [
  | inl yes_udp ↦ rw yes_udp (mem-cons_of_mem _ (broadcast_udp-mem pkt qs i e h))
  | inr no_udp ↦ rw no_udp (broadcast_udp-mem pkt qs i e h)
]

-- The slot of a newcomer after the login, with the address of the player who had it before.
login_keeps_address :
    (fd : ℤ) (pkt : Packet) (players : List Player) (i : ℕ) (a : Allocated fd players i)
    → pkt.type ≡ pos 1
    → get_elem? (on_tcp pkt fd players).0 i ≡ some (rename pkt.username (activate fd a.old))
unfolding login_as
login_keeps_address fd pkt players i a e =
    rw (on_tcp_login pkt fd players e, a.result)
      (get_elem?-modify_at i (rename pkt.username) (modify i (activate fd) players)
        (get_elem?-modify_at i (activate fd) players a.stood))

-- When a login takes a slot whose last player had an AF_INET address, then a move of an active
-- player on another slot is sent to that last player's address.
pub stale_address :
    (fd : ℤ) (pkt mv : Packet) (src : SockAddr) (players : List Player) (i j : ℕ)
    (a : Allocated fd players i)
    → pkt.type ≡ pos 1
    → a.old.udp_addr.sin_family ≡ af_inet
    → active_slot mv.player_id (on_tcp pkt fd players).0 ≡ some j
    → i ≢ j
    → Mem (sendto a.old.udp_addr mv) (on_udp mv src (on_tcp pkt fd players).0).1
unfolding on_udp
stale_address fd pkt mv src players i j a e inet at apart =
    rw (at, on_udp)
      (broadcast_udp-mem mv (modify j (move_to mv src) (on_tcp pkt fd players).0) i
        (get_elem?-modify_other j i (move_to mv src) (on_tcp pkt fd players).0 apart
          ∙ login_keeps_address fd pkt players i a e)
        (ground arith))
