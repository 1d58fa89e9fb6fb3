-- ===== src/Summing/Tests.antt =====
-- A whole run of week7/thread.c: each thread runs as soon as it is created.
use Prim.Native.Nat.{ℕ, zero, suc, ◌<◌, ◌≤◌}
use game_network.Prelude.{none, some, ◌≡◌, ◌==◌, refl, arith, Bool-cases, inl, inr, true, ◌⊎◌}
use game_network.Summing.Threads.{
  ArgSum, ready, returned, creating, joining, left, Process, update, thread_function, fill_args,
  created, all_created, ran, joined, finished, at_start, Reach, start, later, thread_count, Step,
}
use game_network.Summing.Ends.{Schedule, none_yet, then_step, ten_threads_finish}
use game_network.Summing.Results.{joined_results}

abbrev garbage : ℕ → ArgSum
garbage i = record { a = 7; b = i; result = none }

-- Threads 0 to k - 1 are created and have run.
abbrev all_run : ℕ → Process
unfolding update fill_args thread_function
all_run zero = at_start garbage
all_run (suc k) =
    let s = all_run k in
    let args = update s.args k (fill_args k (s.args k)) in
    record s {
      args = update args k (thread_function (args k));
      threads = update (update s.threads k ready) k returned;
      main = creating (suc k);
    }

all_run_main : (k : ℕ) → (all_run k).main ≡ creating k
unfolding all_run
all_run_main zero = refl
all_run_main (suc k) = refl

same_index : (k : ℕ) → (k == k) ≡ true
same_index k = ground arith

all_run-Reach : (k : ℕ) → k ≤ thread_count → Reach garbage (all_run k)
unfolding update all_run
all_run-Reach zero l = start
all_run-Reach (suc k) l =
    later (later (all_run-Reach k (omega arith)) (created k (all_run_main k) (omega arith)))
      (ran k (rw (update, same_index k)) λ n e. cc)

all_run_returned : (k i : ℕ) → i < k → (all_run k).threads i ≡ returned
unfolding update all_run
all_run_returned zero i l = absurd (omega arith)
all_run_returned (suc k) i l = elim (Bool-cases (k == i)) [
  | inl e ↦ rw (update, e)
  | inr e ↦ rw (update, e) (all_run_returned k i (ground arith))
]

-- Threads 0 to k - 1 are joined.
abbrev waited : ℕ → Process
waited k = record (all_run thread_count) { main = joining k }

waited-Reach : (k : ℕ) → k ≤ thread_count → Reach garbage (waited k)
waited-Reach zero l =
    later (all_run-Reach thread_count (omega arith)) (all_created (all_run_main thread_count))
waited-Reach (suc k) l =
    later (waited-Reach k (omega arith))
      (joined k refl (omega arith) (all_run_returned thread_count k (omega arith)))

joined_results_example : ((all_run thread_count).args 9).result ≡ some 21
unfolding all_run update fill_args thread_function
joined_results_example =
    joined_results garbage (record (all_run thread_count) { main = left 0 })
      (later (waited-Reach thread_count (omega arith)) (finished refl)) refl 9 (omega arith)

-- The first thread is created and runs.
first_two : Schedule (at_start garbage) 2 (all_run 1)
unfolding all_run
first_two = then_step (then_step none_yet (created 0 refl (omega arith))) (ran 0 refl λ n e. cc)

ten_threads_finish_example :
    (2 ≤ 32) × (((k : ℕ) × ((all_run 1).main ≡ left k)) ⊎ ((u : Process) × Step (all_run 1) u))
ten_threads_finish_example = ten_threads_finish garbage 2 (all_run 1) first_two
