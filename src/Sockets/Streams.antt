-- ===== src/Sockets/Streams.antt =====
-- The mains of the stream programs of weeks 2 to 7: the calls that prepare a connection and end it.
-- Where the source makes no test of a call, neither does the program here.
use game_network.Prelude.{ℕ, zero, suc, ℤ, ◌==ℤ◌, minus_one, if◌then◌else◌, codes}
use game_network.Sockets.Calls.{
  stream, SockAddrIn, socket, bind, listen, accept, connect, talk, close, Program, ret, loop,
  make_call, or_die, ◌>>=◌, ◌>>◌,
}
use game_network.Sockets.Address.{htons, inet_addr, any_address}

abbrev pub any_at : ℕ → SockAddrIn
unfolding htons
any_at port = record { host = any_address; port = htons port }

abbrev pub local_at : ℕ → SockAddrIn
unfolding htons inet_addr
local_at port = record { host = inet_addr (codes "127.0.0.1"); port = htons port }

-- week2
unfoldable pub echo_server_main : Program ℕ
echo_server_main = do
  sock ← make_call (socket stream)
  make_call (bind sock (any_at 5000))
  make_call (listen sock 5)
  csock ← make_call (accept sock)
  make_call (talk csock)
  make_call (close csock)
  make_call (close sock)
  ret 0

unfoldable pub echo_client_main : Program ℕ
echo_client_main = do
  sock ← make_call (socket stream)
  make_call (connect sock (local_at 5000))
  make_call (talk sock)
  make_call (close sock)
  ret 0

-- week3: `talk` gives -1 when its `recv` or `send` fails, which `printError` handles like the
-- others.
unfoldable pub command_server_main : Program ℕ
unfolding or_die
command_server_main = do
  sock ← or_die (socket stream)
  or_die (bind sock (any_at 5000))
  or_die (listen sock 5)
  csock ← or_die (accept sock)
  or_die (talk csock)
  make_call (close csock)
  make_call (close sock)
  ret 0

unfoldable pub command_client_main : Program ℕ
unfolding or_die
command_client_main = do
  sock ← or_die (socket stream)
  or_die (connect sock (local_at 5000))
  or_die (talk sock)
  make_call (close sock)
  ret 0

-- The loop of week5's server, as many rounds as `rounds`: a failed `accept` is logged and skipped.
unfoldable pub file_rounds : ℕ → ℤ → Program ℕ
file_rounds zero server_sock = loop
file_rounds (suc rounds) server_sock = make_call (accept server_sock) >>= λ client_sock.
    let rest = file_rounds rounds server_sock in
    if client_sock ==ℤ minus_one
    then rest
    else (make_call (talk client_sock) >> make_call (close client_sock) >> rest)

unfoldable pub file_server_main : ℕ → Program ℕ
unfolding or_die file_rounds
file_server_main rounds = do
  server_sock ← or_die (socket stream)
  or_die (bind server_sock (any_at 5000))
  or_die (listen server_sock 5)
  file_rounds rounds server_sock

-- `talk` gives -1 when an upload's `send` fails: the socket is closed all the same, and 1 returned.
unfoldable pub file_client_main : Program ℕ
unfolding or_die
file_client_main = do
  sock ← or_die (socket stream)
  or_die (connect sock (local_at 5000))
  r ← make_call (talk sock)
  make_call (close sock)
  ret (if r ==ℤ minus_one then 1 else 0)

unfoldable pub drawing_server_main : Program ℕ
unfolding or_die
drawing_server_main = do
  serv_sock ← or_die (socket stream)
  or_die (bind serv_sock (any_at 5000))
  or_die (listen serv_sock 5)
  clnt_sock ← or_die (accept serv_sock)
  make_call (talk clnt_sock)
  make_call (close clnt_sock)
  make_call (close serv_sock)
  ret 0

unfoldable pub drawing_client_main : Program ℕ
unfolding or_die
drawing_client_main = do
  sock ← or_die (socket stream)
  or_die (connect sock (local_at 5000))
  make_call (talk sock)
  make_call (close sock)
  ret 0

-- week7, before the accepting loop, which Chat.Threads has.
unfoldable pub chat_server_setup : Program ℕ
unfolding or_die
chat_server_setup = do
  serv_sock ← or_die (socket stream)
  or_die (bind serv_sock (any_at 5000))
  or_die (listen serv_sock 5)
  loop

unfoldable pub chat_client_main : Program ℕ
chat_client_main = make_call (socket stream) >>= λ sock.
    if sock ==ℤ minus_one
    then ret 1
    else (make_call (connect sock (local_at 5000)) >>= λ r.
        if r ==ℤ minus_one
        then make_call (close sock) >> ret 1
        else (make_call (talk sock) >> make_call (close sock) >> ret 0))
