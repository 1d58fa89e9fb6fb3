-- ===== src/Windows/Pending.antt =====
-- The receives that are under way in week13/wserver.c, in every state that the loops reach.
use mathlib.Core.List.{Mem, Perm, Nodup}
use mathlib.Core.List.Perm
use game_network.Prelude.{
  ℕ, ◌≡◌, refl, inl, inr, ◌==◌, Bool, true, false, Option, none, some, List, [], ◌∷◌, ℤ, pos,
  negsuc, ◌==ℤ◌, count, Bool-cases, Option-cases,
}
use game_network.Game.Types.{Packet}
use game_network.Game.Handlers.{slot}
use game_network.Windows.Types.{Player, IoContext, Op, tcp_recv, udp_recv}
use game_network.Windows.Table.{alloc_player}
use game_network.Windows.Handlers.{on_tcp, login_as, logout}
use game_network.Windows.Worker.{
  Server, Completion, start, accept_client, worker_round, worked, worked_tcp, worked_udp,
}

abbrev pub is_udp_recv : Op → Bool
is_udp_recv tcp_recv = false
is_udp_recv udp_recv = true

abbrev pub is_udp : IoContext → Bool
is_udp ctx = is_udp_recv ctx.op_type

abbrev pub socket_front : Op → ℕ → List ℕ → List ℕ
socket_front tcp_recv sock rest = sock ∷ rest
socket_front udp_recv sock rest = rest

-- The connections with a receive under way.
abbrev pub sockets : List IoContext → List ℕ
sockets [] = []
sockets (ctx ∷ ctxs) = socket_front ctx.op_type ctx.socket (sockets ctxs)

-- `accept` gives a SOCKET that has no receive under way; any completion may come next.
pub data Reach : Server → Type 0 where
  began : Reach start
  accepted :
      {s : Server} (client : ℕ)
      → Reach s
      → ¬ Mem client (sockets s.pending)
      → Reach (accept_client client s)
  completed : {s : Server} (c : Completion) → Reach s → Reach (worker_round c s).0

-- What a round leaves of a context: it is freed, if it is a connection's, or posted again as it
-- was.
abbrev pub Kept : IoContext → Option IoContext → Type 0
Kept ctx none = ctx.op_type ≡ tcp_recv
Kept ctx (some k) = (k.op_type ≡ ctx.op_type) × (k.socket ≡ ctx.socket)

login_as_socket :
    (r : ℤ) (players : List Player) (pkt : Packet) (ctx : IoContext)
    → (login_as (players, r) pkt ctx).1.socket ≡ ctx.socket
unfolding login_as
login_as_socket (negsuc n) players pkt ctx = refl
login_as_socket (pos n) players pkt ctx = refl

logout_socket :
    (pkt : Packet) (ctx : IoContext) (players : List Player)
    → (logout pkt ctx players).1.socket ≡ ctx.socket
unfolding logout
logout_socket pkt ctx players = elim (Option-cases (slot pkt.player_id)) [
  | inl e ↦ rw (logout, e)
  | inr (i, e) ↦ rw (logout, e)
]

on_tcp_socket :
    (pkt : Packet) (ctx : IoContext) (players : List Player)
    → (on_tcp pkt ctx players).1.socket ≡ ctx.socket
unfolding on_tcp
on_tcp_socket pkt ctx players = elim (Bool-cases (pkt.type ==ℤ pos 1)) [
  | inl e ↦
      rw (on_tcp, e)
        (login_as_socket (alloc_player ctx.socket players).1 (alloc_player ctx.socket players).0 pkt
          ctx)
  | inr e ↦ elim (Bool-cases (pkt.type ==ℤ pos 2)) [
    | inl e2 ↦ rw (on_tcp, e, e2) (logout_socket pkt ctx players)
    | inr e2 ↦ elim (Bool-cases (pkt.type ==ℤ pos 4)) [
      | inl e4 ↦ rw (on_tcp, e, e2, e4)
      | inr e4 ↦ elim (Bool-cases (pkt.type ==ℤ pos 5)) [
        | inl e5 ↦ rw (on_tcp, e, e2, e4, e5)
        | inr e5 ↦ rw (on_tcp, e, e2, e4, e5)
      ]
    ]
  ]
]

pub worked-Kept :
    (c : Completion) (op : Op) (sock : ℕ) (id : ℤ) (players : List Player)
    → let ctx : IoContext = record { op_type = op; socket = sock; player_id = id } in
      Kept ctx (worked c ctx players).1
unfolding worked worked_tcp worked_udp
worked-Kept c tcp_recv sock id players = elim (Bool-cases (c.bytes == 0)) [
  | inl e ↦ rw (worked_tcp, e) refl
  | inr e ↦
      rw (worked_tcp, e)
        (
          refl,
          on_tcp_socket c.pkt (record { op_type = tcp_recv; socket = sock; player_id = id })
              players,
        )
]
worked-Kept c udp_recv sock id players = elim (Bool-cases (c.bytes == 0)) [
  | inl e ↦ rw (worked_udp, e) (refl, refl)
  | inr e ↦ rw (worked_udp, e) (refl, refl)
]

-- What holds of the receives under way.
pub record IsSound (pending : List IoContext) : Type 0 where
  pub once : Nodup (sockets pending)
  pub datagrams : count is_udp pending ≡ 1
