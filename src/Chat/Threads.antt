-- ===== src/Chat/Threads.antt =====
-- week7/server.c: `main` and the threads of `handle_clnt`, interleaved. A section under `mutx` is
-- one step; the calls outside it (`accept`, `malloc`, `pthread_create`, `read`, `close`) are steps
-- with every result that the source tests.
use game_network.Prelude.{ℕ, ◌≡◌, some, none, List, [], ◌∷◌, ◌++◌, replicate}
use mathlib.Core.List.{Mem}
use game_network.Chat.Table.{Table, register, roll_back, remove, max_client}

-- Where `main` stands, with its local `clnt_sock`.
pub data MainPc : Type 0 where
  accepting : MainPc
  registered : ℕ → MainPc  -- before `malloc` and `pthread_create`
  failed : ℕ → MainPc  -- behind `close(clnt_sock)`, before `client_count--`

-- A thread is known by its own socket: in `serving` it reads, in `leaving` it has taken the socket
-- out of the table and has not closed it yet.
pub record System : Type 0 where
  pub table : Table
  pub main : MainPc
  pub serving : List ℕ
  pub leaving : List ℕ

-- The socket that `main` works on.
abbrev pub pending : MainPc → List ℕ
pending accepting = []
pending (registered fd) = fd ∷ []
pending (failed fd) = fd ∷ []

-- The sockets that are not closed. `accept` returns a fresh one.
abbrev pub still_open : MainPc → List ℕ
still_open accepting = []
still_open (registered fd) = fd ∷ []
still_open (failed fd) = []

abbrev pub open_socks : System → List ℕ
open_socks s = still_open s.main ++ (s.serving ++ s.leaving)

pub data Step (s : System) : System → Type 0 where
  accept_full :
      (fd : ℕ)
      → s.main ≡ accepting
      → ¬ Mem fd (open_socks s)
      → register fd s.table ≡ none
      → Step s s
  accept :
      (fd : ℕ) (t : Table)
      → s.main ≡ accepting
      → ¬ Mem fd (open_socks s)
      → register fd s.table ≡ some t
      → Step s (record s { table = t; main = registered fd })
  spawn :
      (fd : ℕ)
      → s.main ≡ registered fd
      → Step s (record s { main = accepting; serving = fd ∷ s.serving })
  fail : (fd : ℕ) → s.main ≡ registered fd → Step s (record s { main = failed fd })
  undo :
      (fd : ℕ)
      → s.main ≡ failed fd
      → Step s (record s { table = roll_back s.table; main = accepting })
  message : (fd : ℕ) → Mem fd s.serving → Step s s
  leave :
      (fd : ℕ) (before after : List ℕ)
      → s.serving ≡ before ++ (fd ∷ after)
      → Step s (record s {
        table = remove fd s.table;
        serving = before ++ after;
        leaving = fd ∷ s.leaving;
      })
  hang_up :
      (fd : ℕ) (before after : List ℕ)
      → s.leaving ≡ before ++ (fd ∷ after)
      → Step s (record s { leaving = before ++ after })

abbrev pub init : System
init = record {
  table = record { client_count = 0; client_socks = replicate max_client 0 };
  main = accepting;
  serving = [];
  leaving = [];
}

pub data Reach : System → Type 0 where
  start : Reach init
  later : {s t : System} → Reach s → Step s t → Reach t
