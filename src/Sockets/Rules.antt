-- ===== src/Sockets/Rules.antt =====
-- What is to be shown of every run of a program, taken apart along the program's calls.
use game_network.Prelude.{
  ℕ, zero, suc, Bool, true, false, ◌||◌, List, [], ◌∷◌, ℤ, pos, negsuc, arith, ◌==ℤ◌, minus_one,
  if◌then◌else◌, ◌≡◌, refl, Bool-cases, inl, inr,
}
use game_network.Sockets.Calls.{
  SystemCall, Program, ret, exit, loop, call, make_call, or_die, or_exit, below_zero, ◌>>=◌,
}
use game_network.Sockets.Monitor.{
  Open, in_order, answers, open_after, is_failure, Verdict, out_of_order, not_an_answer, waiting,
  ended, run, looping,
}

-- A way to judge runs, which a run that has not come to an end yet passes.
pub record Judgement : Type 1 where
  pub Passes : Verdict → Type 0
  pub not_answered : Passes not_an_answer
  pub waits : Passes waiting

module _ (J : Judgement) where
  -- All runs of the program from here on pass.
  pub record Safe (os : List Open) (fails : Bool) (p : Program ℕ) : Type 0 where
    pub passes : (rs : List ℤ) → J.Passes (run os fails p rs)

  pub Safe-call :
      (os : List Open) (fails : Bool) (c : SystemCall) (k : ℤ → Program ℕ)
      → in_order os c ≡ true
      → ((r : ℤ) → answers os c r ≡ true → Safe (open_after os c r) (is_failure c r || fails) (k r))
      → Safe os fails (call c k)
  unfolding run
  Safe-call os fails c k ok h = record { passes = each }
    where
      each : (rs : List ℤ) → J.Passes (run os fails (call c k) rs)
      each [] = rw (run, ok) J.waits
      each (r ∷ rs) =
          rw (run, ok)
            (elim (Bool-cases (answers os c r)) [
              | inl e ↦ rw e ((h r e).passes rs)
              | inr e ↦ rw e J.not_answered
            ])

  -- A way to make a call, `or_die` or `ask`, with which only the successful answers are left to
  -- show.
  abbrev pub Rule : (SystemCall → Program ℤ) → Type 0
  Rule make =
      (os : List Open) (fails : Bool) (c : SystemCall) (g : ℤ → Program ℕ)
      → in_order os c ≡ true
      → ((n : ℕ) → answers os c (negsuc (suc n)) ≡ false)
      → ((n : ℕ)
          → answers os c (pos n) ≡ true
          → Safe (open_after os c (pos n)) (is_failure c (pos n) || fails) (g (pos n)))
      → Safe os fails (make c >>= g)

  -- An answer that is not a success is -1.
  pub Safe-by_answer :
      (os : List Open) (fails : Bool) (c : SystemCall) (k : ℤ → Program ℕ)
      → in_order os c ≡ true
      → ((n : ℕ) → answers os c (negsuc (suc n)) ≡ false)
      → Safe (open_after os c minus_one) true (k minus_one)
      → ((n : ℕ)
          → answers os c (pos n) ≡ true
          → Safe (open_after os c (pos n)) (is_failure c (pos n) || fails) (k (pos n)))
      → Safe os fails (call c k)
  unfolding is_failure
  Safe-by_answer os fails c k ok one bad good = Safe-call os fails c k ok each
    where
      each :
          (r : ℤ) → answers os c r ≡ true → Safe (open_after os c r) (is_failure c r || fails) (k r)
      each (pos n) e = good n e
      each (negsuc zero) e = bad
      each (negsuc (suc n)) e = absurd (ground (arith, one n))

  pub or_die-Rule : ((os : List Open) → J.Passes (ended 1 os true)) → Rule or_die
  unfolding or_die run
  or_die-Rule dies os fails c g ok one h =
      Safe-by_answer os fails c (λ r. (if r ==ℤ minus_one then exit 1 else ret r) >>= g) ok one
        (record { passes = λ rs. dies _ }) h

  pub or_exit-Rule : ((os : List Open) → J.Passes (ended 1 os true)) → Rule or_exit
  unfolding or_exit run
  or_exit-Rule dies os fails c g ok one h =
      Safe-by_answer os fails c (λ r. (if below_zero r then exit 1 else ret r) >>= g) ok one
        (record { passes = λ rs. dies _ }) h

  -- After a failed call anything may come, where the judgement allows it.
  Safe_failed :
      ((n : ℕ) (os : List Open) → J.Passes (ended n os true))
      → ((c : SystemCall) → J.Passes (out_of_order c true))
      → ((os : List Open) → J.Passes (looping os))
      → (os : List Open) (p : Program ℕ) (fails : Bool) → fails ≡ true
      → Safe os fails p
  unfolding run
  Safe_failed ends orders loops os (ret n) fails e = record { passes = λ rs. rw e (ends n os) }
  Safe_failed ends orders loops os (exit n) fails e = record { passes = λ rs. rw e (ends n os) }
  Safe_failed ends orders loops os loop fails e = record { passes = λ rs. loops os }
  Safe_failed ends orders loops os (call c k) fails e = elim (Bool-cases (in_order os c)) [
    | inl ok ↦ Safe-call os fails c k ok λ r a.
        Safe_failed ends orders loops (open_after os c r) (k r) (is_failure c r || fails)
          (ground arith)
    | inr off ↦ record { passes = λ rs. rw (run, off, e) (orders c) }
  ]

  pub make_call-Rule :
      ((n : ℕ) (os : List Open) → J.Passes (ended n os true))
      → ((c : SystemCall) → J.Passes (out_of_order c true))
      → ((os : List Open) → J.Passes (looping os))
      → Rule make_call
  make_call-Rule ends orders loops os fails c g ok one h =
      Safe-by_answer os fails c g ok one
        (Safe_failed ends orders loops (open_after os c minus_one) (g minus_one) true refl) h
