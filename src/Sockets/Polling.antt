-- ===== src/Sockets/Polling.antt =====
-- The mains of the datagram programs of week9, the socket options of week10, and the programs of
-- week11 and week13 that poll several descriptors.
use game_network.Prelude.{zero, suc, ℕ, List, pos, ◌==ℤ◌, minus_one, if◌then◌else◌, not, ℤ}
use game_network.Sockets.Calls.{
  stream, datagram, startup, cleanup, socket, bind, listen, connect, setsockopt, getsockopt, accept,
  poll_create, poll_add, send_buffer, receive_buffer, reuse_address, keep_alive, talk, close,
  Program, ret, loop, make_call, or_die, or_exit, ◌>>=◌, ◌>>◌,
}
use game_network.Sockets.Address.{htons, inet_addr}
use game_network.Sockets.Streams.{any_at, local_at}

-- week9 on Linux: the server's loop has no end.
unfoldable pub datagram_server_main : Program ℕ
unfolding or_exit
datagram_server_main = do
  sockfd ← or_exit (socket datagram)
  or_exit (bind sockfd (any_at 5000))
  make_call (talk sockfd)
  loop

unfoldable pub datagram_client_main : Program ℕ
unfolding or_exit
datagram_client_main = do
  sockfd ← or_exit (socket datagram)
  make_call (talk sockfd)
  make_call (close sockfd)
  ret 0

-- week9 on Windows: INVALID_SOCKET and SOCKET_ERROR are -1.
unfoldable pub winsock_server_main : Program ℕ
winsock_server_main = make_call startup >>= λ e.
    if not (e ==ℤ pos 0)
    then ret 1
    else (make_call (socket datagram) >>= λ sockfd.
        if sockfd ==ℤ minus_one
        then ret 1
        else (make_call (bind sockfd (any_at 5000)) >>= λ r.
            if r ==ℤ minus_one
            then ret 1
            else (make_call (talk sockfd)
                >> make_call (close sockfd)
                >> make_call cleanup
                >> ret 0)))

unfoldable pub winsock_client_main : Program ℕ
winsock_client_main = do
  make_call startup
  sockfd ← make_call (socket datagram)
  make_call (talk sockfd)
  make_call (close sockfd)
  make_call cleanup
  ret 0

-- week10
unfoldable pub get_buf_main : Program ℕ
unfolding or_die
get_buf_main = do
  sock ← or_die (socket stream)
  or_die (getsockopt sock send_buffer)
  or_die (getsockopt sock receive_buffer)
  make_call (close sock)
  ret 0

unfoldable pub reuseaddr_main : Program ℕ
unfolding or_die
reuseaddr_main = do
  serv_sock ← or_die (socket stream)
  or_die (setsockopt serv_sock reuse_address 1)
  or_die (bind serv_sock (any_at 8080))
  make_call (close serv_sock)
  ret 0

unfoldable pub final_sockopt_main : Program ℕ
unfolding or_die
final_sockopt_main = do
  serv_sock ← or_die (socket stream)
  make_call (setsockopt serv_sock reuse_address 1)
  make_call (setsockopt serv_sock send_buffer 5120)
  make_call (setsockopt serv_sock receive_buffer 5120)
  make_call (setsockopt serv_sock keep_alive 1)
  or_die (bind serv_sock (any_at 9000))
  make_call (close serv_sock)
  ret 0

-- week11, the server before its event loop, which Broadcast.Server has.
unfoldable pub epoll_server_setup : Program ℕ
epoll_server_setup = do
  server_socket ← make_call (socket stream)
  make_call (bind server_socket (any_at 9090))
  make_call (listen server_socket 5)
  epfd ← make_call poll_create
  make_call (poll_add epfd server_socket)
  loop

-- The loop ends when the server's end is closed, and `epfd` is never closed.
unfoldable pub epoll_client_main : Program ℕ
epoll_client_main = do
  client_socket ← make_call (socket stream)
  make_call (connect client_socket (local_at 9090))
  epfd ← make_call poll_create
  make_call (poll_add epfd (pos 0))
  make_call (poll_add epfd client_socket)
  make_call (talk client_socket)
  make_call (close client_socket)
  ret 0

unfoldable pub select_client_main : Program ℕ
select_client_main = do
  client_socket ← make_call (socket stream)
  make_call (connect client_socket (local_at 9090))
  make_call (talk client_socket)
  make_call (close client_socket)
  ret 0

-- `address` is what `htonl` gives for the pointer to the text "127.0.0.1".
unfoldable pub practice_select_client_main : List ℕ → Program ℕ
unfolding htons
practice_select_client_main address = do
  client_socket ← make_call (socket stream)
  make_call (connect client_socket (record { host = address; port = htons 9090 }))
  make_call (talk client_socket)
  loop

-- week13 on Linux, before the event loop, which Game.Server has. Both sockets are bound to one port.
unfoldable pub game_server_setup : Program ℕ
game_server_setup = do
  tcp_sock ← make_call (socket stream)
  udp_sock ← make_call (socket datagram)
  make_call (bind tcp_sock (any_at 8000))
  make_call (listen tcp_sock 5)
  make_call (bind udp_sock (any_at 8000))
  epfd ← make_call poll_create
  make_call (poll_add epfd tcp_sock)
  make_call (poll_add epfd udp_sock)
  loop

-- The conversations on both sockets alternate; one `talk` stands for each socket's.
unfoldable pub game_client_main : Program ℕ
unfolding inet_addr htons
game_client_main = do
  tcp_fd ← make_call (socket stream)
  make_call (connect tcp_fd (local_at 8000))
  udp_fd ← make_call (socket datagram)
  make_call (talk tcp_fd)
  make_call (talk udp_fd)
  make_call (close tcp_fd)
  make_call (close udp_fd)
  ret 0

-- week13 on Windows, with as many rounds of its loop as `rounds`: a handle that is NULL is -1. A
-- posted receive is the first call of a conversation, which the worker goes on with.
unfoldable pub windows_rounds : ℕ → ℤ → ℤ → Program ℕ
windows_rounds zero tcp_listen iocp = loop
windows_rounds (suc rounds) tcp_listen iocp = do
  client ← make_call (accept tcp_listen)
  make_call (poll_add iocp client)
  make_call (talk client)
  windows_rounds rounds tcp_listen iocp

unfoldable pub windows_game_server_main : ℕ → Program ℕ
unfolding windows_rounds
windows_game_server_main rounds = do
  make_call startup
  iocp ← make_call poll_create
  tcp_listen ← make_call (socket stream)
  udp_sock ← make_call (socket datagram)
  make_call (bind tcp_listen (any_at 8000))
  make_call (listen tcp_listen 5)
  make_call (bind udp_sock (any_at 8000))
  make_call (poll_add iocp udp_sock)
  make_call (talk udp_sock)
  windows_rounds rounds tcp_listen iocp
