-- ===== src/Summing/Threads.antt =====
-- week7/thread.c: main fills a struct for each of ten threads, creates the thread, and joins all of
-- them; a thread adds the two numbers of its struct. The steps of main and of the threads come in
-- any order.
use Prim.Native.Nat.{ℕ, ◌+◌, ◌<◌, suc}
use game_network.Prelude.{Option, some, ◌≡◌, ◌≢◌, ◌==◌, if◌then◌else◌}

pub record ArgSum : Type 0 where
  pub a : ℕ
  pub b : ℕ
  pub result : Option ℕ

abbrev pub thread_count : ℕ
thread_count = 10

-- A thread that is not created, one that has not run, and one that has returned.
pub data Thread : Type 0 where
  absent ready returned : Thread

-- Where main is: at the creation or the join of a thread, or behind its `return`.
pub data Main : Type 0 where
  creating joining left : ℕ → Main

pub record Process : Type 0 where
  pub args : ℕ → ArgSum
  pub threads : ℕ → Thread
  pub main : Main

unfoldable pub update : {A : Type 0} → (ℕ → A) → ℕ → A → ℕ → A
update f i x j = if i == j then x else f j

-- `data->result = data->a + data->b`
unfoldable pub thread_function : ArgSum → ArgSum
thread_function arg = record arg { result = some (arg.a + arg.b) }

-- `args[i].a = i + 1; args[i].b = i + 2;`
unfoldable pub fill_args : ℕ → ArgSum → ArgSum
fill_args i arg = record arg { a = i + 1; b = i + 2 }

-- With the return of main the process ends, and its threads with it.
pub data Step (s : Process) : Process → Type 0 where
  created :
      (i : ℕ)
      → s.main ≡ creating i
      → i < thread_count
      → Step s (record s {
        args = update s.args i (fill_args i (s.args i));
        threads = update s.threads i ready;
        main = creating (suc i);
      })
  not_created :
      (i : ℕ)
      → s.main ≡ creating i
      → i < thread_count
      → Step s (record s { args = update s.args i (fill_args i (s.args i)); main = left 1 })
  all_created : s.main ≡ creating thread_count → Step s (record s { main = joining 0 })
  ran :
      (i : ℕ)
      → s.threads i ≡ ready
      → ((n : ℕ) → s.main ≢ left n)
      → Step s (record s {
        args = update s.args i (thread_function (s.args i));
        threads = update s.threads i returned;
      })
  joined :
      (i : ℕ)
      → s.main ≡ joining i
      → i < thread_count
      → s.threads i ≡ returned
      → Step s (record s { main = joining (suc i) })
  finished : s.main ≡ joining thread_count → Step s (record s { main = left 0 })

-- Uninitialized memory holds any numbers.
abbrev pub at_start : (ℕ → ArgSum) → Process
at_start garbage = record { args = garbage; threads = λ i. absent; main = creating 0 }

pub data Reach (garbage : ℕ → ArgSum) : Process → Type 0 where
  start : Reach garbage (at_start garbage)
  later : {s t : Process} → Reach garbage s → Step s t → Reach garbage t
