-- ===== src/Broadcast/Server.antt =====
-- week11/epoll_server.c: the array of client sockets, and the loop of `main`. What `accept` returns,
-- and what waits for `read`, is part of the event. The registration of the server socket is left
-- out.
use game_network.Prelude.{
  ℕ, suc, ◌-◌, if◌then◌else◌, leb, not, none, some, Option, List, [], ◌∷◌, ◌++◌, get_elem?, modify,
  take, first_index, ℤ, pos, ◌==ℤ◌,
}

abbrev pub array_size : ℕ
array_size = 100

pub record Server : Type 0 where
  pub server_socket : ℤ
  pub client_sockets : List ℤ  -- 100 cells
  pub client_count : ℕ

pub record Event : Type 0 where
  pub current_fd : ℤ  -- ep_events[i].data.fd
  pub client_socket : ℤ  -- result of accept
  pub message : Option (List ℕ)  -- what waits to be read, none for an error of read

-- `write_all` is a write of (size_t)-1 bytes.
pub data Effect : Type 0 where
  epoll_add epoll_del close : ℤ → Effect
  write : ℤ → List ℕ → Effect
  write_all : ℤ → Effect

-- The cell `i`, 0 where the array has none.
abbrev pub cell : List ℤ → ℕ → ℤ
cell socks i = elim (get_elem? socks i) [ none ↦ pos 0 | some fd ↦ fd ]

abbrev pub start : ℤ → List ℤ → Server
start server_socket garbage = record {
  server_socket = server_socket;
  client_sockets = take array_size garbage;
  client_count = 0;
}

abbrev pub clients : Server → List ℤ
clients s = take s.client_count s.client_sockets

-- `client_sockets[client_count++] = client_socket`; `none` is a write behind the array.
unfoldable pub add_client : ℤ → Server → Option Server
add_client sock s =
    if leb array_size s.client_count
    then none
    else some (record s {
      client_sockets = modify s.client_count (λ _. sock) s.client_sockets;
      client_count = suc s.client_count;
    })

-- The loop behind `close`: the last client moves into the gap.
unfoldable pub remove_client : ℤ → Server → Server
remove_client fd s = elim (first_index (λ sock. sock ==ℤ fd) (clients s)) [
  | none ↦ s
  | some j ↦
      let last = s.client_count - 1 in
      record s {
        client_sockets = modify j (λ _. cell s.client_sockets last) s.client_sockets;
        client_count = last;
      }
]

abbrev pub write_to : Option (List ℕ) → ℤ → Effect
write_to none sock = write_all sock
write_to (some bytes) sock = write sock bytes

-- The loop of the other branch, over the cells in use.
unfoldable pub broadcast : ℤ → Option (List ℕ) → List ℤ → List Effect
broadcast fd message [] = []
broadcast fd message (sock ∷ socks) =
    let rest = broadcast fd message socks in
    if not (sock ==ℤ fd) then write_to message sock ∷ rest else rest

abbrev pub buffer_size : ℕ
buffer_size = 1024

-- `read(..., message_buffer, 1024)`: of what waits, the first 1024 bytes. What is left brings the
-- event again.
abbrev pub read_buffer : Option (List ℕ) → Option (List ℕ)
read_buffer none = none
read_buffer (some bytes) = some (take buffer_size bytes)

-- Behind `read`: the end of a connection, or a message.
unfoldable pub handle_read : ℤ → Option (List ℕ) → Server → Server × List Effect
handle_read fd none s = (s, broadcast fd none (clients s))
handle_read fd (some []) s = (remove_client fd s, epoll_del fd ∷ close fd ∷ [])
handle_read fd (some (b ∷ bytes)) s = (s, broadcast fd (some (b ∷ bytes)) (clients s))

-- A descriptor that is not the server's.
unfoldable pub read_client : ℤ → Option (List ℕ) → Server → Server × List Effect
unfolding handle_read
read_client fd waiting s = handle_read fd (read_buffer waiting) s

abbrev pub accepted : ℤ → Option Server → Option (Server × List Effect)
accepted sock none = none
accepted sock (some s) = some (s, epoll_add sock ∷ [])

-- The body of the loop over the events.
unfoldable pub turn : Server → Event → Option (Server × List Effect)
turn s e =
    if e.current_fd ==ℤ s.server_socket
    then accepted e.client_socket (add_client e.client_socket s)
    else some (read_client e.current_fd e.message s)

abbrev pub behind : List Effect → Option (Server × List Effect) → Option (Server × List Effect)
behind out none = none
behind out (some (s, more)) = some (s, out ++ more)

abbrev pub next_turn :
    (Server → Option (Server × List Effect))
    → Option (Server × List Effect)
    → Option (Server × List Effect)
next_turn next none = none
next_turn next (some (s, out)) = behind out (next s)

-- The loops of `main` over the events, one batch after another.
unfoldable pub serve : List Event → Server → Option (Server × List Effect)
serve [] s = some (s, [])
serve (e ∷ es) s = next_turn (serve es) (turn s e)
