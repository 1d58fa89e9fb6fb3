-- ===== src/Windows/Runs.antt =====
-- Whole runs of wserver.c, `main` and `worker_thread` in any order, against those of lserver.c.
use mathlib.Core.Path.{subst, sym}
use game_network.Prelude.{
  ℕ, zero, suc, ◌≡◌, ◌≢◌, ap, ◌∙◌, ◌<◌, none, some, Option, List, [], ◌∷◌, ◌++◌, map, All,
  All-get_elem?, ℤ, pos, minus_one, get_elem?, some_same, ==ℤ_refl, Option-cases, inl, inr,
}
use game_network.Game.Types.{Effect, epoll_add}
use game_network.Game.Server.{Event, turn, serve}
use game_network.Game.Visit.{serve_step, serve_none}
use game_network.Game.Client.{no_packet}
use game_network.Windows.Types.{IoContext, udp_recv, Call}
use game_network.Windows.Worker.{Server, Completion, worker_round, accept_client, put}
use game_network.Windows.View.{fd_of, as_linux, all_effects}
use game_network.Windows.Pending.{Kept, worked-Kept}
use game_network.Windows.Rounds.{as_event, as_server, Apart, worker_round-turn}

-- A round of the loop of `main`, for the socket that `accept` returns, or a round of the worker.
pub data Move : Type 0 where
  accepts : ℕ → Move
  completes : Completion → Move

unfoldable pub move : Move → Server → Server × List Call
move (accepts client) s = (accept_client client s, [])
move (completes c) s = worker_round c s

unfoldable pub moves : Server → List Move → Server × List Call
unfolding move
moves s [] = (s, [])
moves s (m ∷ ms) =
    let (next, calls) = move m s in let (last, more) = moves next ms in (last, calls ++ more)

module _ (tcp_sock udp_sock : ℤ) where
  abbrev pub accept_event : ℕ → Event
  accept_event client = record {
    fd = tcp_sock;
    cfd = fd_of client;
    len = pos 0;
    pkt = no_packet;
    src = record { sin_family = 0; sin_addr = 0; sin_port = 0 };
  }

  -- What the loop of lserver.c meets at a move: the socket that is accepted, or the bytes of the
  -- receive that completes.
  abbrev pub linux_events : Server → Move → List Event
  linux_events s (accepts client) = accept_event client ∷ []
  linux_events s (completes c) = elim (get_elem? s.pending c.index) [
    | none ↦ []
    | some ctx ↦ as_event udp_sock c ctx ∷ []
  ]

  -- The association with the port is the registration with epoll.
  abbrev pub linux_effects : Move → List Call → List Effect
  linux_effects (accepts client) calls = epoll_add (fd_of client) ∷ []
  linux_effects (completes c) calls = all_effects calls

  unfoldable pub all_events : Server → List Move → List Event
  unfolding move
  all_events s [] = []
  all_events s (m ∷ ms) = linux_events s m ++ all_events (move m s).0 ms

  unfoldable pub run_effects : Server → List Move → List Effect
  unfolding move
  run_effects s [] = []
  run_effects s (m ∷ ms) = linux_effects m (move m s).1 ++ run_effects (move m s).0 ms

  -- A connection has a socket that is valid and not one of `main`'s.
  abbrev pub IsConnection : ℕ → Type 0
  IsConnection sock = Apart tcp_sock udp_sock (fd_of sock) × (fd_of sock ≢ minus_one)

  -- `accept` returns such sockets, and no datagram is empty.
  unfoldable pub Fits : Server → List Move → Type 0
  Fits s [] = Unit
  Fits s (accepts client ∷ ms) = IsConnection client × Fits (accept_client client s) ms
  Fits s (completes c ∷ ms) =
      ((ctx : IoContext)
        → get_elem? s.pending c.index ≡ some ctx
        → ctx.op_type ≡ udp_recv
        → 0 < c.bytes)
      × Fits (worker_round c s).0 ms

  abbrev pub IsServed : IoContext → Type 0
  IsServed ctx = IsConnection ctx.socket

  put-IsServed :
      (i : ℕ) (ctxs : List IoContext) (ctx : IoContext) (kept : Option IoContext)
      → get_elem? ctxs i ≡ some ctx
      → Kept ctx kept
      → All IsServed ctxs
      → All IsServed (put i kept ctxs)
  unfolding put
  put-IsServed i [] ctx kept e k h = tt
  put-IsServed zero (x ∷ xs) ctx none e k h = h.1
  put-IsServed zero (x ∷ xs) ctx (some kept) e k h =
      let same : kept.socket ≡ x.socket = k.1 ∙ ap (λ y. y.socket) (sym (some_same e)) in
      (subst IsConnection (sym same) h.0, h.1)
  put-IsServed (suc i) (x ∷ xs) ctx kept e k h = (h.0, put-IsServed i xs ctx kept e k h.1)

  pub worker_round-IsServed :
      (c : Completion) (s : Server)
      → All IsServed s.pending
      → All IsServed (worker_round c s).0.pending
  unfolding worker_round
  worker_round-IsServed c s h = elim (Option-cases (get_elem? s.pending c.index)) [
    | inl e ↦ rw (worker_round, e) h
    | inr (ctx, e) ↦
        rw (worker_round, e)
          (put-IsServed c.index s.pending ctx _ e
            (worked-Kept c ctx.op_type ctx.socket ctx.player_id s.players) h)
  ]

  accept_turn :
      (s : Server) (client : ℕ)
      → turn (as_server tcp_sock udp_sock s.players) (accept_event client)
        ≡ (map as_linux s.players, epoll_add (fd_of client) ∷ [])
  unfolding turn
  accept_turn s client = rw (turn, ==ℤ_refl tcp_sock)

  pub serve-moves :
      (s : Server) (ms : List Move)
      → udp_sock ≢ tcp_sock
      → All IsServed s.pending
      → Fits s ms
      → serve (as_server tcp_sock udp_sock s.players) (all_events s ms)
        ≡ (as_server tcp_sock udp_sock (moves s ms).0.players, run_effects s ms)
  unfolding moves all_events run_effects move accept_client Fits worker_round
  serve-moves s [] two h f = serve_none (as_server tcp_sock udp_sock s.players)
  serve-moves s (accepts client ∷ ms) two h f =
      let next = accept_client client s in
      serve_step (as_server tcp_sock udp_sock s.players) _ (all_events next ms)
        (map as_linux s.players) (epoll_add (fd_of client) ∷ []) (run_effects next ms)
        (as_server tcp_sock udp_sock (moves next ms).0.players) (accept_turn s client)
        (serve-moves next ms two (f.0, h) f.1)
  serve-moves s (completes c ∷ ms) two h f =
      let next = (worker_round c s).0 in
      let calls = (worker_round c s).1 in
      let later = serve-moves next ms two (worker_round-IsServed c s h) f.1 in
      elim (Option-cases (get_elem? s.pending c.index)) [
        | inl e ↦
            let same : worker_round c s ≡ (s, []) = rw (worker_round, e) in
            rw (all_events, linux_events, e)
              (ap (λ q. serve (as_server tcp_sock udp_sock q) (all_events next ms))
                  (sym (ap (λ r. r.0.players) same))
                ∙ later
                ∙ ap
                    (λ cs. (
                      as_server tcp_sock udp_sock (moves next ms).0.players,
                      all_effects cs ++ run_effects next ms,
                    ))
                    (sym (ap (λ r. r.1) same)))
        | inr (ctx, e) ↦
            rw (all_events, linux_events, e)
              (serve_step (as_server tcp_sock udp_sock s.players) (as_event udp_sock c ctx)
                (all_events next ms) (map as_linux next.players) (all_effects calls)
                (run_effects next ms) (as_server tcp_sock udp_sock (moves next ms).0.players)
                (worker_round-turn tcp_sock udp_sock c s ctx e
                  (All-get_elem? IsServed s.pending c.index h e).0 (f.0 ctx e))
                later)
      ]
