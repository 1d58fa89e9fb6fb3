-- ===== src/Sockets/Unchecked.antt =====
-- The programs that look at no result: those of weeks 2, 11 and 13, and week9's client on Windows.
-- Of week11's server and week13's Linux server it is what they do before their event loops.
use game_network.Prelude.{ℕ, List}
use game_network.Sockets.Calls.{Program}
use game_network.Sockets.Streams.{echo_server_main, echo_client_main}
use game_network.Sockets.Practice.{practice_echo_server_main, practice_echo_client_main}
use game_network.Sockets.Polling.{
  winsock_client_main, epoll_server_setup, epoll_client_main, select_client_main,
  practice_select_client_main, game_server_setup, game_client_main, windows_game_server_main,
}
use game_network.Sockets.Orderly.{Orderly}

pub data Unchecked : Type 0 where
  week2_server week2_client week2_practice_server week2_practice_client : Unchecked
  week9_winsock_client : Unchecked
  week11_epoll_setup week11_epoll_client : Unchecked
  week11_select_client week11_practice_client : Unchecked
  week13_setup week13_client week13_windows_server : Unchecked

-- `address` is the one of week11's practice client, and `rounds` are those of week13 on Windows.
abbrev pub unchecked : List ℕ → ℕ → Unchecked → Program ℕ
unchecked address rounds week2_server = echo_server_main
unchecked address rounds week2_client = echo_client_main
unchecked address rounds week2_practice_server = practice_echo_server_main
unchecked address rounds week2_practice_client = practice_echo_client_main
unchecked address rounds week9_winsock_client = winsock_client_main
unchecked address rounds week11_epoll_setup = epoll_server_setup
unchecked address rounds week11_epoll_client = epoll_client_main
unchecked address rounds week11_select_client = select_client_main
unchecked address rounds week11_practice_client = practice_select_client_main address
unchecked address rounds week13_setup = game_server_setup
unchecked address rounds week13_client = game_client_main
unchecked address rounds week13_windows_server = windows_game_server_main rounds
