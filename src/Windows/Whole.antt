-- ===== src/Windows/Whole.antt =====
-- wserver.c from its start: its runs are runs of lserver.c, so what holds of those holds of these.
use mathlib.Core.Path.{subst, sym}
use game_network.Prelude.{
  ℕ, zero, suc, ◌≡◌, ◌≢◌, refl, ap, ◌∙◌, List, [], ◌∷◌, map, replicate, All, All-get_elem?, ℤ,
  minus_one, get_elem?, Option-cases, inl, inr,
}
use game_network.Game.Types.{max_players}
use game_network.Game.Server.{serve}
use game_network.Game.Invariant.{IsReady, IsTable, serve-start-IsTable}
use game_network.Game
use game_network.Windows.Types.{Op, tcp_recv, udp_recv}
use game_network.Windows.Worker.{Server, start, blank, worker_round, accept_client}
use game_network.Windows.View.{as_linux, fd_of}
use game_network.Windows.Rounds.{as_server, op_fd}
use game_network.Windows.Runs.{
  Move, accepts, completes, moves, move, all_events, linux_events, run_effects, Fits, IsConnection,
  IsServed, worker_round-IsServed, serve-moves,
}

map-blank : (n : ℕ) → map as_linux (replicate n blank) ≡ replicate n Game.Server.blank
map-blank zero = refl
map-blank (suc n) = ap (λ ps. Game.Server.blank ∷ ps) (map-blank n)

as_server-start :
    (tcp_sock udp_sock : ℤ)
    → as_server tcp_sock udp_sock start.players ≡ Game.Server.start tcp_sock udp_sock
unfolding start Game.Server.start
as_server-start tcp_sock udp_sock =
    ap (λ ps. record { tcp_sock = tcp_sock; udp_sock = udp_sock; players = ps })
      (map-blank max_players)

module _ (tcp_sock udp_sock : ℤ) where
  op_fd_ready :
      (op : Op) (sock : ℕ)
      → udp_sock ≢ minus_one
      → fd_of sock ≢ minus_one
      → op_fd udp_sock sock op ≢ minus_one
  op_fd_ready tcp_recv sock u h = h
  op_fd_ready udp_recv sock u h = u

  all_events-IsReady :
      (s : Server) (ms : List Move)
      → tcp_sock ≢ minus_one
      → udp_sock ≢ minus_one
      → All (IsServed tcp_sock udp_sock) s.pending
      → Fits tcp_sock udp_sock s ms
      → All IsReady (all_events tcp_sock udp_sock s ms)
  unfolding all_events move accept_client Fits worker_round
  all_events-IsReady s [] t u h f = tt
  all_events-IsReady s (accepts client ∷ ms) t u h f =
      (t, all_events-IsReady (accept_client client s) ms t u (f.0, h) f.1)
  all_events-IsReady s (completes c ∷ ms) t u h f =
      let later =
        all_events-IsReady (worker_round c s).0 ms t u
          (worker_round-IsServed tcp_sock udp_sock c s h) f.1 in
      elim (Option-cases (get_elem? s.pending c.index)) [
        | inl e ↦ rw (all_events, linux_events, e) later
        | inr (ctx, e) ↦
            rw (all_events, linux_events, e)
              (
                op_fd_ready ctx.op_type ctx.socket u
                    (All-get_elem? (IsServed tcp_sock udp_sock) s.pending c.index h e).1,
                later,
              )
      ]

  -- Any accepts and completions of the Windows server from its start, in any order, are a run of
  -- the loop of lserver.c from its start on the same connections and bytes: it ends with the same
  -- table, a SOCKET read as its descriptor, and makes the same sends and closes in the same
  -- order, the association of a connection with the port read as its registration with epoll. The
  -- sockets of main are two, accept returns valid ones that are neither of them, 0 (the socket of
  -- the context for datagrams) is neither of them too, and no datagram is empty.
  pub serve-windows_run :
      (ms : List Move)
      → udp_sock ≢ tcp_sock
      → IsConnection tcp_sock udp_sock 0
      → Fits tcp_sock udp_sock start ms
      → serve (Game.Server.start tcp_sock udp_sock) (all_events tcp_sock udp_sock start ms) ≡ (
        as_server tcp_sock udp_sock (moves start ms).0.players,
        run_effects tcp_sock udp_sock start ms,
      )
  unfolding start
  serve-windows_run ms two zero_free f =
      ap (λ s. serve s (all_events tcp_sock udp_sock start ms))
        (sym (as_server-start tcp_sock udp_sock))
      ∙ serve-moves tcp_sock udp_sock start ms two (zero_free, tt) f

  -- After any accepts and completions of the Windows server from its start, in any order, its
  -- table, a SOCKET read as its descriptor, satisfies the invariant of the table of lserver.c.
  -- The sockets of main are two and valid, accept returns valid ones that are neither of them, 0
  -- is neither of them too, and no datagram is empty.
  pub moves-IsTable :
      (ms : List Move)
      → udp_sock ≢ tcp_sock
      → tcp_sock ≢ minus_one
      → udp_sock ≢ minus_one
      → IsConnection tcp_sock udp_sock 0
      → Fits tcp_sock udp_sock start ms
      → IsTable (map as_linux (moves start ms).0.players)
  unfolding start
  moves-IsTable ms two t u zero_free f =
      subst (λ r. IsTable r.0.players) (serve-windows_run ms two zero_free f)
        (serve-start-IsTable tcp_sock udp_sock (all_events tcp_sock udp_sock start ms)
          (all_events-IsReady start ms t u (zero_free, tt) f))
