-- ===== src/Summing/Ends.antt =====
-- How long week7/thread.c can run, and where it can stop.
use Prim.Native.Nat.{ℕ, ◌+◌, ◌-◌, ◌*◌, ◌<◌, ◌≤◌}
use mathlib.Core.Path.{subst, sym}
use game_network.Prelude.{
  zero, suc, ◌≡◌, ◌⊎◌, ◌≢◌, ◌==◌, refl, arith, ap, ◌∙◌, Bool-cases, ltb, ltb→lt, inl, inr, ==_iff,
  false,
}
use game_network.Summing.Threads.{
  ArgSum, Thread, absent, ready, returned, Main, creating, joining, left, Process, update, Step,
  created, not_created, all_created, ran, joined, finished, at_start, thread_count,
}

-- `n` steps, one behind the other.
pub data Schedule (s : Process) : ℕ → Process → Type 0 where
  none_yet : Schedule s 0 s
  then_step : {n : ℕ} {t u : Process} → Schedule s n t → Step t u → Schedule s (suc n) u

abbrev is_ready : Thread → ℕ
is_ready ready = 1
is_ready _ = 0

unfoldable count_ready : ℕ → (ℕ → Thread) → ℕ
count_ready zero threads = 0
count_ready (suc n) threads = is_ready (threads n) + count_ready n threads

-- Steps that main has to go, and one for the run of each thread that it still has to create.
abbrev main_left : Main → ℕ
main_left (creating i) = 2 * (thread_count - i) + 12
main_left (joining i) = (thread_count - i) + 1
main_left (left n) = 0

abbrev steps_left : Process → ℕ
unfolding count_ready
steps_left s = main_left s.main + count_ready thread_count s.threads

count_ready_outside :
    (n i : ℕ) (threads : ℕ → Thread) (t : Thread)
    → n ≤ i
    → count_ready n (update threads i t) ≡ count_ready n threads
unfolding count_ready update
count_ready_outside zero i threads t h = refl
count_ready_outside (suc n) i threads t h =
    let e : (i == n) ≡ false = ground arith in
    rw (count_ready, update, e)
      (ap (λ k. is_ready (threads n) + k) (count_ready_outside n i threads t (omega arith)))

count_ready-update :
    (n i : ℕ) (threads : ℕ → Thread) (t : Thread)
    → i < n
    → count_ready n (update threads i t) + is_ready (threads i) ≡ count_ready n threads + is_ready t
unfolding count_ready update
count_ready-update zero i threads t h = absurd (omega arith)
count_ready-update (suc n) i threads t h = elim (Bool-cases (i == n)) [
  | inl e ↦
      let here : update threads i t n ≡ t = rw (update, e) in
      let same : i ≡ n = (==_iff i n).0 e in
      omega (
        arith,
        ap is_ready here,
        ap (λ x. is_ready (threads x)) same,
        count_ready_outside n i threads t (omega arith),
      )
  | inr e ↦
      let here : update threads i t n ≡ threads n = rw (update, e) in
      omega (arith, ap is_ready here, count_ready-update n i threads t (ground arith))
]

-- How many threads main has created, and up to where its loops go.
abbrev created_count : Main → ℕ
created_count (creating i) = i
created_count (joining i) = thread_count
created_count (left n) = 0

abbrev loop_index : Main → ℕ
loop_index (creating i) = i
loop_index (joining i) = i
loop_index (left n) = 0

record InLoops (s : Process) : Type 0 where
  index : loop_index s.main ≤ thread_count
  made : (j : ℕ) → j < created_count s.main → s.threads j ≢ absent
  outside : (j : ℕ) → thread_count ≤ j → s.threads j ≡ absent

-- A thread that is ready is one of the ten.
ready_below : {s : Process} (v : InLoops s) (i : ℕ) → s.threads i ≡ ready → i < thread_count
ready_below {s} v i r = elim (Bool-cases (ltb i thread_count)) [
  | inl e ↦ ltb→lt i thread_count e
  | inr e ↦ let z = v.outside i (ground arith) in absurd cc
]

Step-steps_left : {s t : Process} → Step s t → InLoops s → steps_left t < steps_left s
unfolding steps_left
Step-steps_left {s} (created i e l) v =
    omega (arith, ap main_left e, count_ready-update thread_count i s.threads ready l)
Step-steps_left {s} (not_created i e l) v = omega (arith, ap main_left e)
Step-steps_left {s} (all_created e) v = omega (arith, ap main_left e)
Step-steps_left {s} (ran i r alive) v =
    omega (
      arith,
      ap is_ready r,
      count_ready-update thread_count i s.threads returned (ready_below v i r),
    )
Step-steps_left {s} (joined i e l r) v = omega (arith, ap main_left e)
Step-steps_left {s} (finished e) v = omega (arith, ap main_left e)

-- A thread is set that is one of the ten.
set_outside :
    (threads : ℕ → Thread) (i : ℕ) (t : Thread)
    → i < thread_count
    → ((j : ℕ) → thread_count ≤ j → threads j ≡ absent)
    → (j : ℕ) → thread_count ≤ j
    → update threads i t j ≡ absent
unfolding update
set_outside threads i t h out j l =
    let e : (i == j) ≡ false = ground arith in rw (update, e) (out j l)

-- It is not absent afterwards, and the others are as before.
set_made :
    (threads : ℕ → Thread) (i : ℕ) (t : Thread) (j : ℕ)
    → t ≢ absent
    → (i ≢ j → threads j ≢ absent)
    → update threads i t j ≢ absent
unfolding update
set_made threads i t j there others = elim (Bool-cases (i == j)) [
  | inl e ↦ rw (update, e) there
  | inr e ↦ rw (update, e) (others (ground arith))
]

Step-InLoops : {s t : Process} → Step s t → InLoops s → InLoops t
Step-InLoops {s} (created i e l) v = record {
  index = l;
  made = λ j h.
      set_made s.threads i ready j (λ z. cc) λ n. v.made j (ground (arith, ap created_count e));
  outside = set_outside s.threads i ready l v.outside;
}
Step-InLoops (not_created i e l) v = record {
  index = omega arith;
  made = λ j h. absurd (omega arith);
  outside = v.outside;
}
Step-InLoops (all_created e) v = record {
  index = omega arith;
  made = λ j h. v.made j (omega (arith, ap created_count e));
  outside = v.outside;
}
Step-InLoops {s} (ran i r alive) v = record {
  index = v.index;
  made = λ j h. set_made s.threads i returned j (λ z. cc) λ n. v.made j h;
  outside = set_outside s.threads i returned (ready_below v i r) v.outside;
}
Step-InLoops (joined i e l r) v = record {
  index = l;
  made = λ j h. v.made j (omega (arith, ap created_count e));
  outside = v.outside;
}
Step-InLoops (finished e) v = record {
  index = omega arith;
  made = λ j h. absurd (omega arith);
  outside = v.outside;
}

at_start-InLoops : (garbage : ℕ → ArgSum) → InLoops (at_start garbage)
at_start-InLoops garbage = record {
  index = omega arith;
  made = λ j h. absurd (omega arith);
  outside = λ j h. refl;
}

Schedule-InLoops :
    {s t : Process} {n : ℕ}
    → Schedule s n t
    → InLoops s
    → InLoops t × (n + steps_left t ≤ steps_left s)
Schedule-InLoops none_yet v = (v, omega arith)
Schedule-InLoops (then_step before step) v =
    let (w, h) = Schedule-InLoops before v in
    (Step-InLoops step w, omega (arith, h, Step-steps_left step w))

-- Where main is not at its end, it or the thread that it waits for can go on.
goes_on :
    {s : Process} (v : InLoops s) (m : Main)
    → s.main ≡ m
    → ((k : ℕ) × (s.main ≡ left k)) ⊎ ((t : Process) × Step s t)
goes_on {s} v (creating i) e = elim (Bool-cases (ltb i thread_count)) [
  | inl h ↦ inr (_, created i e (ltb→lt i thread_count h))
  | inr h ↦
      let last : i ≡ thread_count = ground (arith, ap loop_index e, v.index) in
      inr (_, all_created (e ∙ ap creating last))
]
goes_on {s} v (joining i) e = elim (Bool-cases (ltb i thread_count)) [
  | inl h ↦ inr (waits_for (s.threads i) refl (ltb→lt i thread_count h))
  | inr h ↦
      let last : i ≡ thread_count = ground (arith, ap loop_index e, v.index) in
      inr (_, finished (e ∙ ap joining last))
]
  where
    waits_for : (t : Thread) → s.threads i ≡ t → i < thread_count → (t : Process) × Step s t
    waits_for absent r l = absurd (v.made i (subst (λ m. i < created_count m) (sym e) l) r)
    waits_for ready r l = (_, ran i r λ n q. cc)
    waits_for returned r l = (_, joined i e l r)
goes_on v (left k) e = inl (k, e)

-- However main and its threads take turns, from any contents of the array, at most 32 steps are
-- made, and where they stand main has returned or a further step can be made: the program ends, and
-- never stops in a join.
pub ten_threads_finish :
    (garbage : ℕ → ArgSum) (n : ℕ) (t : Process)
    → Schedule (at_start garbage) n t
    → (n ≤ 32) × (((k : ℕ) × (t.main ≡ left k)) ⊎ ((u : Process) × Step t u))
unfolding steps_left
ten_threads_finish garbage n t steps =
    let (v, h) = Schedule-InLoops steps (at_start-InLoops garbage) in
    let all : steps_left (at_start garbage) ≡ 32 = refl in
    (omega (arith, h, all), goes_on v t.main refl)
