-- ===== src/Sockets/AllChecked.antt =====
-- The programs of week9 and week10 that test their calls, and all checked programs together.
use game_network.Sockets.Polling.{
  datagram_server_main, datagram_client_main, get_buf_main, reuseaddr_main, final_sockopt_main,
  winsock_server_main,
}
use game_network.Prelude.{ℕ}
use game_network.Sockets.Calls.{Program}
use game_network.Sockets.Tidy.{Tidy}
use game_network.Sockets.Practice.{
  practice_command_server_main, practice_command_client_main, text_server_main, text_client_main,
}
use game_network.Sockets.Streams.{
  command_server_main, command_client_main, file_server_main, file_client_main, drawing_server_main,
  drawing_client_main, chat_server_setup, chat_client_main,
}

-- The programs that test the results of the calls they need, of week7's server what it does before
-- its accepting loop.
pub data Checked : Type 0 where
  week3_server week3_client week3_practice_server week3_practice_client : Checked
  week5_server week5_client week6_text_server week6_text_client : Checked
  week6_server week6_client week7_setup week7_client : Checked
  week9_server week9_client week9_winsock_server : Checked
  week10_get_buf week10_reuseaddr week10_final_sockopt : Checked

abbrev pub checked : ℕ → Checked → Program ℕ
checked rounds week3_server = command_server_main
checked rounds week3_client = command_client_main
checked rounds week3_practice_server = practice_command_server_main
checked rounds week3_practice_client = practice_command_client_main
checked rounds week6_text_server = text_server_main
checked rounds week6_text_client = text_client_main
checked rounds week5_server = file_server_main rounds
checked rounds week5_client = file_client_main
checked rounds week6_server = drawing_server_main
checked rounds week6_client = drawing_client_main
checked rounds week7_setup = chat_server_setup
checked rounds week7_client = chat_client_main
checked rounds week9_server = datagram_server_main
checked rounds week9_client = datagram_client_main
checked rounds week9_winsock_server = winsock_server_main
checked rounds week10_get_buf = get_buf_main
checked rounds week10_reuseaddr = reuseaddr_main
checked rounds week10_final_sockopt = final_sockopt_main
