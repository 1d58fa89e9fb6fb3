-- ===== src/Sockets/Practice.antt =====
-- The mains of the practice programs of week2_Prac and week3_Prac, and of the text variants of
-- week6.
use game_network.Prelude.{ℕ}
use game_network.Sockets.Calls.{
  stream, socket, bind, listen, accept, connect, talk, close, Program, ret, make_call, or_die,
  ◌>>=◌, ◌>>◌,
}
use game_network.Sockets.Streams.{any_at, local_at}

unfoldable pub practice_echo_server_main : Program ℕ
practice_echo_server_main = do
  sock ← make_call (socket stream)
  make_call (bind sock (any_at 5000))
  make_call (listen sock 5)
  csock ← make_call (accept sock)
  make_call (talk csock)
  make_call (close csock)
  make_call (close sock)
  ret 0

unfoldable pub practice_echo_client_main : Program ℕ
practice_echo_client_main = do
  sock ← make_call (socket stream)
  make_call (connect sock (local_at 5000))
  make_call (talk sock)
  make_call (close sock)
  ret 0

unfoldable pub practice_command_server_main : Program ℕ
unfolding or_die
practice_command_server_main = do
  sock ← or_die (socket stream)
  or_die (bind sock (any_at 5000))
  or_die (listen sock 5)
  csock ← or_die (accept sock)
  or_die (talk csock)
  make_call (close csock)
  make_call (close sock)
  ret 0

unfoldable pub practice_command_client_main : Program ℕ
unfolding or_die
practice_command_client_main = do
  sock ← or_die (socket stream)
  or_die (connect sock (local_at 5000))
  or_die (talk sock)
  make_call (close sock)
  ret 0

-- week6/var_server.c
unfoldable pub text_server_main : Program ℕ
unfolding or_die
text_server_main = do
  serv_sock ← or_die (socket stream)
  or_die (bind serv_sock (any_at 5000))
  or_die (listen serv_sock 5)
  clnt_sock ← or_die (accept serv_sock)
  make_call (talk clnt_sock)
  make_call (close clnt_sock)
  make_call (close serv_sock)
  ret 0

-- week6/var_client.c
unfoldable pub text_client_main : Program ℕ
unfolding or_die
text_client_main = do
  sock ← or_die (socket stream)
  or_die (connect sock (local_at 5000))
  make_call (talk sock)
  make_call (close sock)
  ret 0
