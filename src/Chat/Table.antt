-- ===== src/Chat/Table.antt =====
-- week7/server.c, lines 8 to 13, 49 to 56, 62 to 64, 104 to 114 and 122 to 128: the array of client
-- sockets with its count, and the sections that hold `mutx`. A socket is a number: `main` passes on
-- no negative result of `accept`.
use game_network.Prelude.{
  ℕ, zero, suc, ◌-◌, ◌==◌, if◌then◌else◌, leb, none, some, Option, List, get_elem?, modify, take,
  map, first_index,
}

abbrev pub max_client : ℕ
max_client = 100

pub record Table : Type 0 where
  pub client_count : ℕ
  pub client_socks : List ℕ  -- MAX_CLIENT cells

-- The cell `i`, 0 where the array has none.
abbrev pub cell : List ℕ → ℕ → ℕ
cell socks i = elim (get_elem? socks i) [ none ↦ 0 | some fd ↦ fd ]

abbrev pub write_cell : ℕ → ℕ → List ℕ → List ℕ
write_cell i fd socks = modify i (λ _. fd) socks

-- `client_socks[client_count++] = clnt_sock`
abbrev pub append_client : ℕ → Table → Table
append_client fd t = record {
  client_count = suc t.client_count;
  client_socks = write_cell t.client_count fd t.client_socks;
}

-- The section of `main` that registers a client; `none` where the table is full.
unfoldable pub register : ℕ → Table → Option Table
register fd t = if leb max_client t.client_count then none else some (append_client fd t)

-- `client_count--`, when `malloc` or `pthread_create` has failed.
unfoldable pub roll_back : Table → Table
roll_back t = record t { client_count = t.client_count - 1 }

-- `for (j = i; j < client_count - 1; j++)` with the rounds that are left.
unfoldable pub shift : ℕ → ℕ → List ℕ → List ℕ
shift zero j socks = socks
shift (suc rounds) j socks = shift rounds (suc j) (write_cell j (cell socks (suc j)) socks)

-- The section at the end of `handle_clnt`.
unfoldable pub remove : ℕ → Table → Table
remove fd t = elim (first_index (λ sock. fd == sock) (take t.client_count t.client_socks)) [
  | none ↦ t
  | some i ↦ record {
    client_count = t.client_count - 1;
    client_socks = shift (t.client_count - 1 - i) i t.client_socks;
  }
]

-- `send_msg`: a write for each registered socket, the sender's among them.
unfoldable pub send_msg : List ℕ → Table → List (ℕ × List ℕ)
send_msg msg t = map (λ sock. (sock, msg)) (take t.client_count t.client_socks)

-- The clients that the table holds.
abbrev pub clients : Table → List ℕ
clients t = take t.client_count t.client_socks
