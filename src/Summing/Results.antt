-- ===== src/Summing/Results.antt =====
-- What the threads of week7/thread.c leave behind, in whatever order they run.
use Prim.Native.Nat.{ℕ, ◌+◌, ◌<◌, suc}
use mathlib.Core.Path.{subst, sym}
use game_network.Prelude.{zero, suc, some, ◌≡◌, ◌==◌, refl, arith, Bool-cases, inl, inr, ==_iff}
use game_network.Summing.Threads.{
  ArgSum, Thread, absent, ready, returned, Main, creating, joining, left, Process, update,
  thread_function, fill_args, Step, created, not_created, all_created, ran, joined, finished, Reach,
  start, later, thread_count,
}

-- A thread that may run finds its two numbers, and one that has run has left their sum.
abbrev Kept : ℕ → ArgSum → Thread → Type 0
Kept i arg absent = Unit
Kept i arg ready = (arg.a ≡ i + 1) × (arg.b ≡ i + 2)
Kept i arg returned = arg.result ≡ some ((i + 1) + (i + 2))

-- How many threads main has joined.
abbrev joined_count : Main → ℕ
joined_count (creating i) = 0
joined_count (joining i) = i
joined_count (left zero) = thread_count
joined_count (left (suc n)) = 0

record Inv (s : Process) : Type 0 where
  kept : (i : ℕ) → Kept i (s.args i) (s.threads i)
  joins : (i : ℕ) → i < joined_count s.main → s.threads i ≡ returned

fill_args-Kept : (i : ℕ) (arg : ArgSum) (t : Thread) → Kept i arg t → Kept i (fill_args i arg) t
unfolding fill_args
fill_args-Kept i arg absent k = tt
fill_args-Kept i arg ready k = (refl, refl)
fill_args-Kept i arg returned k = k

thread_function-Kept :
    (i : ℕ) (arg : ArgSum) → Kept i arg ready → Kept i (thread_function arg) returned
unfolding thread_function
thread_function-Kept i arg (ea, eb) = rw (ea, eb)

-- One entry of both arrays is set.
update-Kept :
    (args : ℕ → ArgSum) (threads : ℕ → Thread) (i : ℕ) (arg : ArgSum) (t : Thread)
    → Kept i arg t
    → ((j : ℕ) → Kept j (args j) (threads j))
    → (j : ℕ) → Kept j (update args i arg j) (update threads i t j)
unfolding update
update-Kept args threads i arg t k ks j = elim (Bool-cases (i == j)) [
  | inl e ↦ rw (update, e) (subst (λ x. Kept x arg t) (omega (arith, (==_iff i j).0 e)) k)
  | inr e ↦ rw (update, e) (ks j)
]

-- The numbers of one struct are set, and its thread is not created.
args_only :
    (args : ℕ → ArgSum) (threads : ℕ → Thread) (i : ℕ)
    → ((j : ℕ) → Kept j (args j) (threads j))
    → (j : ℕ) → Kept j (update args i (fill_args i (args i)) j) (threads j)
unfolding update
args_only args threads i ks j = elim (Bool-cases (i == j)) [
  | inl e ↦
      rw (update, e)
        (subst (λ x. Kept x (fill_args i (args i)) (threads x)) (omega (arith, (==_iff i j).0 e))
          (fill_args-Kept i (args i) (threads i) (ks i)))
  | inr e ↦ rw (update, e) (ks j)
]

-- `joins` of an invariant, at a place of main that is known.
joins_at :
    {s : Process} (v : Inv s) (m : Main)
    → s.main ≡ m
    → (j : ℕ) → j < joined_count m
    → s.threads j ≡ returned
joins_at {s} v m e j l = v.joins j (subst (λ x. j < joined_count x) (sym e) l)

Step-Inv : {s t : Process} → Step s t → Inv s → Inv t
unfolding fill_args update
Step-Inv {s} (created i e l) v = record {
  kept = update-Kept s.args s.threads i _ ready (refl, refl) v.kept;
  joins = λ j l. absurd (omega arith);
}
Step-Inv {s} (not_created i e l) v = record {
  kept = args_only s.args s.threads i v.kept;
  joins = λ j l. absurd (omega arith);
}
Step-Inv (all_created e) v = record { kept = v.kept; joins = λ j l. absurd (omega arith) }
Step-Inv {s} (ran i r alive) v = record {
  kept =
      update-Kept s.args s.threads i _ returned
        (thread_function-Kept i (s.args i) (subst (Kept i (s.args i)) r (v.kept i))) v.kept;
  joins = λ j l. elim (Bool-cases (i == j)) [
    | inl e ↦ rw (update, e)
    | inr e ↦ rw (update, e) (v.joins j l)
  ];
}
Step-Inv {s} (joined i e l r) v = record {
  kept = v.kept;
  joins = λ j l. elim (Bool-cases (i == j)) [
    | inl q ↦ subst (λ x. s.threads x ≡ returned) (omega (arith, (==_iff i j).0 q)) r
    | inr q ↦ joins_at v (joining i) e j (ground arith)
  ];
}
Step-Inv (finished e) v = record {
  kept = v.kept;
  joins = λ j l. joins_at v (joining thread_count) e j l;
}

Reach-Inv : {garbage : ℕ → ArgSum} {s : Process} → Reach garbage s → Inv s
Reach-Inv start = record { kept = λ i. tt; joins = λ j l. absurd (omega arith) }
Reach-Inv (later r step) = Step-Inv step (Reach-Inv r)

-- In every state that main and its threads reach in any order, from any contents of the array, if
-- main has returned 0, then the result of each struct i of the ten is (i + 1) + (i + 2).
pub joined_results :
    (garbage : ℕ → ArgSum) (s : Process)
    → Reach garbage s
    → s.main ≡ left 0
    → (i : ℕ) → i < thread_count
    → (s.args i).result ≡ some ((i + 1) + (i + 2))
joined_results garbage s r e i l =
    let v = Reach-Inv r in subst (Kept i (s.args i)) (joins_at v (left 0) e i l) (v.kept i)
