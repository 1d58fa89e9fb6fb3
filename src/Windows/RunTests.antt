-- ===== src/Windows/RunTests.antt =====
-- A run of the Windows build: a connection is accepted and logs in twice, the second time with a
-- packet that comes cut.
use game_network.Prelude.{ℕ, ◌≡◌, ◌≢◌, List, [], ◌∷◌, replicate, map, pos, minus_one, arith}
use game_network.Game.Server.{serve}
use game_network.Game.Invariant.{IsTable}
use game_network.Game
use game_network.Windows.Worker.{Completion, start}
use game_network.Windows.View.{as_linux, fd_of}
use game_network.Windows.Rounds.{as_server}
use game_network.Windows.Runs.{
  Move, accepts, completes, moves, all_events, run_effects, Fits, IsConnection,
}
use game_network.Windows.Whole.{serve-windows_run, moves-IsTable}

abbrev bytes_of_first : ℕ → Completion
bytes_of_first n = record {
  index = 0;
  bytes = n;
  pkt = record {
    type = pos 1;
    player_id = pos 0;
    x = 0;
    y = 0;
    target_id = pos 0;
    username = replicate 32 65;
    password = replicate 32 66;
  };
  src = record { sin_family = 0; sin_addr = 0; sin_port = 0 };
}

abbrev one_session : List Move
one_session = accepts 7 ∷ completes (bytes_of_first 84) ∷ completes (bytes_of_first 12) ∷ []

apart :
    (sock : ℕ)
    → (fd_of sock ≢ pos 3)
    → (fd_of sock ≢ pos 4)
    → (fd_of sock ≢ minus_one)
    → IsConnection (pos 3) (pos 4) sock
apart sock t u v = (record { two = λ e. cc; not_tcp = t; not_udp = u }, v)

one_session-Fits : Fits (pos 3) (pos 4) start one_session
unfolding Fits
one_session-Fits = (
  apart 7 (λ e. cc) (λ e. cc) (λ e. cc),
  ((λ ctx e u. omega arith), ((λ ctx e u. omega arith), tt)),
)

serve-windows_run_example :
    serve (Game.Server.start (pos 3) (pos 4)) (all_events (pos 3) (pos 4) start one_session) ≡ (
      as_server (pos 3) (pos 4) (moves start one_session).0.players,
      run_effects (pos 3) (pos 4) start one_session,
    )
serve-windows_run_example =
    serve-windows_run (pos 3) (pos 4) one_session (λ e. cc) (apart 0 (λ e. cc) (λ e. cc) (λ e. cc))
      one_session-Fits

moves-IsTable_example : IsTable (map as_linux (moves start one_session).0.players)
moves-IsTable_example =
    moves-IsTable (pos 3) (pos 4) one_session (λ e. cc) (λ e. cc) (λ e. cc)
      (apart 0 (λ e. cc) (λ e. cc) (λ e. cc)) one_session-Fits
