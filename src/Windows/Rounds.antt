-- ===== src/Windows/Rounds.antt =====
-- A round of `worker_thread` against a turn of the loop of lserver.c.
use game_network.Prelude.{
  ℕ, ◌≡◌, ◌≢◌, refl, ◌==◌, ◌<◌, false, some, List, map, arith, ℤ, pos, minus_one, ◌==ℤ◌, ==ℤ_refl,
  get_elem?, Bool-cases, inl, inr, ==ℤ_iff,
}
use game_network.Game.Server.{Event, turn, serve_client}
use game_network.Game
use game_network.Windows.Types.{Player, IoContext, Op, tcp_recv, udp_recv}
use game_network.Windows.Worker.{Server, Completion, worked, worked_tcp, worked_udp, worker_round}
use game_network.Windows.View.{fd_of, as_linux, free_player-as_linux}
use game_network.Windows.Port.{as_result, on_tcp-as_linux, on_udp-as_linux}

abbrev pub op_fd : ℤ → ℕ → Op → ℤ
op_fd udp_sock sock tcp_recv = fd_of sock
op_fd udp_sock sock udp_recv = udp_sock

-- What the loop of lserver.c meets where this receive completes.
abbrev pub as_event : ℤ → Completion → IoContext → Event
as_event udp_sock c ctx = record {
  fd = op_fd udp_sock ctx.socket ctx.op_type;
  cfd = minus_one;
  len = pos c.bytes;
  pkt = c.pkt;
  src = c.src;
}

abbrev pub as_server : ℤ → ℤ → List Player → Game.Server.Server
as_server tcp_sock udp_sock players = record {
  tcp_sock = tcp_sock;
  udp_sock = udp_sock;
  players = map as_linux players;
}

-- The sockets of `main` are two, and a connection has another.
pub record Apart (tcp_sock udp_sock fd : ℤ) : Type 0 where
  pub two : udp_sock ≢ tcp_sock
  pub not_tcp : fd ≢ tcp_sock
  pub not_udp : fd ≢ udp_sock

differ : (a b : ℤ) → a ≢ b → (a ==ℤ b) ≡ false
differ a b h = elim (Bool-cases (a ==ℤ b)) [ inl e ↦ absurd (h ((==ℤ_iff a b).0 e)) | inr e ↦ e ]

module _ (tcp_sock udp_sock : ℤ) (c : Completion) (players : List Player) where
  worked_tcp-turn :
      (sock : ℕ) (id : ℤ)
      → let ctx : IoContext = record { op_type = tcp_recv; socket = sock; player_id = id } in
        Apart tcp_sock udp_sock (fd_of sock)
        → turn (as_server tcp_sock udp_sock players) (as_event udp_sock c ctx)
          ≡ as_result (worked_tcp c ctx players).0 (worked_tcp c ctx players).2
  unfolding turn serve_client worked_tcp
  worked_tcp-turn sock id a =
      let ctx : IoContext = record { op_type = tcp_recv; socket = sock; player_id = id } in
      elim (Bool-cases (c.bytes == 0)) [
        | inl e ↦
            rw
              (turn, differ (fd_of sock) tcp_sock a.not_tcp, differ (fd_of sock) udp_sock a.not_udp)
              (rw (serve_client, worked_tcp, e) (rw (free_player-as_linux sock players)))
        | inr e ↦
            rw
              (turn, differ (fd_of sock) tcp_sock a.not_tcp, differ (fd_of sock) udp_sock a.not_udp)
              (rw (serve_client, worked_tcp, e) (on_tcp-as_linux c.pkt ctx players))
      ]

  worked_udp-turn :
      (ctx : IoContext)
      → udp_sock ≢ tcp_sock
      → 0 < c.bytes
      → turn
          (as_server tcp_sock udp_sock players)
          (as_event udp_sock c (record ctx { op_type = udp_recv }))
        ≡ as_result (worked_udp c ctx players).0 (worked_udp c ctx players).2
  unfolding turn worked_udp
  worked_udp-turn ctx two more =
      let some_bytes : (c.bytes == 0) ≡ false = ground arith in
      rw (turn, differ udp_sock tcp_sock two, ==ℤ_refl udp_sock)
        (rw (worked_udp, some_bytes) (on_udp-as_linux c.pkt c.src players))

  worked-turn :
      (op : Op) (sock : ℕ) (id : ℤ)
      → Apart tcp_sock udp_sock (fd_of sock)
      → (op ≡ udp_recv → 0 < c.bytes)
      → turn
          (as_server tcp_sock udp_sock players)
          (as_event udp_sock c (record { op_type = op; socket = sock; player_id = id }))
        ≡ as_result
            (worked c (record { op_type = op; socket = sock; player_id = id }) players).0
            (worked c (record { op_type = op; socket = sock; player_id = id }) players).2
  unfolding worked
  worked-turn tcp_recv sock id a more = worked_tcp-turn sock id a
  worked-turn udp_recv sock id a more =
      worked_udp-turn (record { op_type = udp_recv; socket = sock; player_id = id }) a.two
        (more refl)

-- A round of worker_thread that takes the completion of a pending receive, not that of an empty
-- datagram, does to the table what a turn of the loop of lserver.c does for the same bytes on the
-- same connection, and makes the same calls in the same order, a SOCKET read as its descriptor; the
-- sockets of main are two, and the connection has another.
pub worker_round-turn :
    (tcp_sock udp_sock : ℤ) (c : Completion) (s : Server) (ctx : IoContext)
    → get_elem? s.pending c.index ≡ some ctx
    → Apart tcp_sock udp_sock (fd_of ctx.socket)
    → (ctx.op_type ≡ udp_recv → 0 < c.bytes)
    → turn (as_server tcp_sock udp_sock s.players) (as_event udp_sock c ctx)
      ≡ as_result (worker_round c s).0.players (worker_round c s).1
unfolding worker_round
worker_round-turn tcp_sock udp_sock c s ctx e a more =
    rw (worker_round, e)
      (worked-turn tcp_sock udp_sock c s.players ctx.op_type ctx.socket ctx.player_id a more)
