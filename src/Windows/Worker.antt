-- ===== src/Windows/Worker.antt =====
-- week13/wserver.c, lines 61 to 106 and 188 to 235: `main`, the posting of receives, and the rounds
-- of `worker_thread`. Which receive completes, with how many bytes and what in its buffer, is an
-- argument of the round. `main` and the only worker thread share the completion port alone: the
-- table belongs to the worker.
use game_network.Prelude.{
  ℕ, zero, suc, ◌==◌, if◌then◌else◌, false, Option, none, some, List, [], ◌∷◌, minus_one, replicate,
  get_elem?,
}
use game_network.Game.Types.{Packet, SockAddr, max_players}
use game_network.Windows.Types.{
  Player, IoContext, tcp_recv, udp_recv, Call, closesocket, invalid_socket,
}
use game_network.Windows.Table.{free_player}
use game_network.Windows.Handlers.{on_tcp, on_udp}

-- The table, and the contexts of the receives that are under way.
pub record Server : Type 0 where
  pub players : List Player
  pub pending : List IoContext

pub record Completion : Type 0 where
  pub index : ℕ  -- the receive that has completed
  pub bytes : ℕ
  pub pkt : Packet  -- ctx->buffer
  pub src : SockAddr  -- ctx->addr

-- A static `Player` after the loop at the head of `main`.
abbrev pub blank : Player
blank = record {
  x = 0;
  y = 0;
  hp = 0;
  is_active = false;
  tcp_sock = invalid_socket;
  udp_addr = record { sin_family = 0; sin_addr = 0; sin_port = 0 };
  username = replicate 32 0;
}

abbrev pub post_tcp_recv : IoContext → IoContext
post_tcp_recv ctx = record ctx { op_type = tcp_recv }

abbrev pub post_udp_recv : IoContext → IoContext
post_udp_recv ctx = record ctx { op_type = udp_recv }

unfoldable pub start : Server
start = record {
  players = replicate max_players blank;
  pending = post_udp_recv (record { op_type = udp_recv; socket = 0; player_id = minus_one }) ∷ [];
}

-- A round of the loop of `main`, for the socket that `accept` returns.
unfoldable pub accept_client : ℕ → Server → Server
accept_client client s = record s {
  pending =
      post_tcp_recv (record { op_type = tcp_recv; socket = client; player_id = minus_one })
      ∷ s.pending;
}

-- What a round makes of the table and of the context, which is `none` once it is freed.
abbrev pub Worked : Type 0
Worked = List Player × Option IoContext × List Call

unfoldable pub worked_udp : Completion → IoContext → List Player → Worked
worked_udp c ctx players =
    let (moved, calls) = on_udp c.pkt c.src players in
    if c.bytes == 0
    then (players, some (post_udp_recv ctx), [])
    else (moved, some (post_udp_recv ctx), calls)

unfoldable pub worked_tcp : Completion → IoContext → List Player → Worked
worked_tcp c ctx players =
    let (handled, kept, calls) = on_tcp c.pkt ctx players in
    if c.bytes == 0
    then (free_player ctx.socket players, none, closesocket ctx.socket ∷ [])
    else (handled, some (post_tcp_recv kept), calls)

-- The body of the loop of `worker_thread` behind the test of `ctx`.
unfoldable pub worked : Completion → IoContext → List Player → Worked
worked c ctx players = elim ctx.op_type [
  | udp_recv ↦ worked_udp c ctx players
  | tcp_recv ↦ worked_tcp c ctx players
]

-- The list without its entry at an index, or with another there.
unfoldable pub put : ℕ → Option IoContext → List IoContext → List IoContext
put i kept [] = []
put zero none (ctx ∷ ctxs) = ctxs
put zero (some kept) (ctx ∷ ctxs) = kept ∷ ctxs
put (suc i) kept (ctx ∷ ctxs) = ctx ∷ put i kept ctxs

-- A round of `worker_thread`. The port only reports receives that were posted: another index is no
-- completion.
unfoldable pub worker_round : Completion → Server → Server × List Call
worker_round c s = elim (get_elem? s.pending c.index) [
  | none ↦ (s, [])
  | some ctx ↦
      let (players, kept, calls) = worked c ctx s.players in
      (record { players = players; pending = put c.index kept s.pending }, calls)
]
