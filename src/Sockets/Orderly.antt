-- ===== src/Sockets/Orderly.antt =====
-- What a program keeps to that looks at no result, and its calls on descriptors behind the newest.
use game_network.Prelude.{
  ℕ, Bool, true, false, List, ◌∷◌, ℤ, pos, arith, ◌==ℤ◌, ==ℤ_iff, ◌≡◌, refl, Bool-cases,
  Option-cases, inl, inr, ◌∙◌,
}
use game_network.Sockets.Calls.{
  Kind, stream, poll, bind, listen, accept, poll_create, poll_add, talk, close, Program, ret, loop,
  make_call, SockAddrIn, ◌>>=◌,
}
use game_network.Sockets.Monitor.{
  unbound, bound_stream, listens, is_poll, talks, Stage, made, bound, listening, joined, Open,
  lookup, is_open, advance, shut, holds, in_order, answers, open_after, is_failure, Verdict,
  out_of_order, not_an_answer, waiting, looping, ended, run,
}
use game_network.Sockets.Rules.{Judgement, Safe, Safe-call, Rule, make_call-Rule}
use game_network.Sockets.Heads.{at_stage, holds-head, advance-head}

-- A call is out of order only when a call has failed before.
abbrev pub Orderly : Verdict → Type 0
Orderly (out_of_order c fails) = fails ≡ true
Orderly not_an_answer = Unit
Orderly waiting = Unit
Orderly (looping os) = Unit
Orderly (ended n os fails) = Unit

abbrev pub orderly : Judgement
orderly = record { Passes = Orderly; not_answered = tt; waits = tt }

pub quiet : Rule orderly make_call
quiet = make_call-Rule orderly (λ n os. tt) (λ c. refl) (λ os. tt)

pub stays : (os : List Open) (fails : Bool) → Safe orderly os fails loop
unfolding run
stays os fails = record { passes = λ rs. tt }

pub ends : (os : List Open) (fails : Bool) (n : ℕ) → Safe orderly os fails (ret n)
unfolding run
ends os fails n = record { passes = λ rs. tt }

pub holds-next :
    (p : Kind → Stage → Bool) (o : Open) (os : List Open) (d : ℤ)
    → (o.fd ==ℤ d) ≡ false
    → holds p d (o ∷ os) ≡ holds p d os
unfolding holds lookup
holds-next p o os d e = rw (holds, lookup, e)

pub advance-next :
    (s : Stage) (o : Open) (os : List Open) (d : ℤ)
    → (o.fd ==ℤ d) ≡ false
    → advance d s (o ∷ os) ≡ o ∷ advance d s os
unfolding advance
advance-next s o os d e = rw (advance, e)

pub shut-next :
    (o : Open) (os : List Open) (d : ℤ) → (o.fd ==ℤ d) ≡ false → shut d (o ∷ os) ≡ o ∷ shut d os
unfolding shut
shut-next o os d e = rw (shut, e)

-- What is open stays open when something is opened.
pub is_open-later :
    (o : Open) (os : List Open) (d : ℤ) → is_open d os ≡ true → is_open d (o ∷ os) ≡ true
unfolding is_open lookup
is_open-later o os d h = elim (Bool-cases (o.fd ==ℤ d)) [
  | inl e ↦ rw (is_open, lookup, e)
  | inr e ↦ rw (is_open, lookup, e) h
]

holds-is_open :
    (p : Kind → Stage → Bool) (os : List Open) (d : ℤ) → holds p d os ≡ true → is_open d os ≡ true
unfolding holds is_open
holds-is_open p os d h = elim (Option-cases (lookup d os)) [
  | inl e ↦ let z : holds p d os ≡ false = rw (holds, e) in absurd cc
  | inr (o, e) ↦ rw (is_open, e)
]

-- A new descriptor is another one than those that are open.
pub fresh_apart :
    (os : List Open) (o : Open) (d : ℤ)
    → is_open o.fd os ≡ false
    → is_open d os ≡ true
    → (o.fd ==ℤ d) ≡ false
fresh_apart os o d new old = elim (Bool-cases (o.fd ==ℤ d)) [
  | inl e ↦ let same = (==ℤ_iff o.fd d).0 e in absurd cc
  | inr e ↦ e
]

pub holds-later :
    (p : Kind → Stage → Bool) (o : Open) (os : List Open) (d : ℤ)
    → is_open o.fd os ≡ false
    → holds p d os ≡ true
    → holds p d (o ∷ os) ≡ true
holds-later p o os d new h =
    holds-next p o os d (fresh_apart os o d new (holds-is_open p os d h)) ∙ h

-- The calls.
pub creates_poll :
    {os : List Open} {fails : Bool} (g : ℤ → Program ℕ)
    → ((n : ℕ)
        → is_open (pos n) os ≡ false
        → Safe orderly (at_stage (pos n) poll made ∷ os) fails (g (pos n)))
    → Safe orderly os fails (make_call poll_create >>= g)
unfolding in_order answers open_after is_failure
creates_poll {os} {fails} g h =
    quiet os fails poll_create g refl (λ n. refl) λ n e. h n (ground arith)

pub adds :
    {os : List Open} {fails : Bool} (g : ℤ → Program ℕ) (e d : ℤ)
    → holds is_poll e os ≡ true
    → is_open d os ≡ true
    → ((n : ℕ) → Safe orderly os fails (g (pos n)))
    → Safe orderly os fails (make_call (poll_add e d) >>= g)
unfolding in_order answers open_after is_failure
adds {os} {fails} g e d p o h = quiet os fails (poll_add e d) g (rw p o) (λ n. refl) λ n a. h n

pub accepts_on :
    {os : List Open} {fails : Bool} (g : ℤ → Program ℕ) (d : ℤ)
    → holds listens d os ≡ true
    → ((n : ℕ)
        → is_open (pos n) os ≡ false
        → Safe orderly (at_stage (pos n) stream joined ∷ os) fails (g (pos n)))
    → Safe orderly os fails (make_call (accept d) >>= g)
unfolding in_order answers open_after is_failure
accepts_on {os} {fails} g d l h =
    quiet os fails (accept d) g l (λ n. refl) λ n e. h n (ground arith)

pub talks_with :
    {os : List Open} {fails : Bool} (g : ℤ → Program ℕ) (d : ℤ)
    → holds talks d os ≡ true
    → ((r : ℤ) (fails : Bool) → Safe orderly os fails (g r))
    → Safe orderly os fails (make_call (talk d) >>= g)
unfolding in_order answers open_after
talks_with {os} {fails} g d t h = Safe-call orderly os fails (talk d) g t λ r e. h r _

pub closes_one :
    {os : List Open} {fails : Bool} (g : ℤ → Program ℕ) (d : ℤ)
    → is_open d os ≡ true
    → ((r : ℤ) (fails : Bool) → Safe orderly (shut d os) fails (g r))
    → Safe orderly os fails (make_call (close d) >>= g)
unfolding in_order answers open_after
closes_one {os} {fails} g d o h = Safe-call orderly os fails (close d) g o λ r e. h r _

-- `bind` and `listen` on the socket behind another one.
pub binds_behind :
    {os : List Open} {fails : Bool} (g : ℤ → Program ℕ) (o : Open) (d : ℤ) (a : SockAddrIn)
    → (o.fd ==ℤ d) ≡ false
    → ((n : ℕ) → Safe orderly (o ∷ at_stage d stream bound ∷ os) fails (g (pos n)))
    → Safe orderly (o ∷ at_stage d stream made ∷ os) fails (make_call (bind d a) >>= g)
unfolding in_order answers open_after is_failure
binds_behind {os} {fails} g o d a apart h =
    let s = at_stage d stream made in
    quiet (o ∷ s ∷ os) fails (bind d a) g
      (holds-next unbound o (s ∷ os) d apart ∙ holds-head unbound s os refl) (λ n. refl)
      λ n e. rw (advance-next bound o (s ∷ os) d apart, advance-head bound s os) (h n)

pub listens_behind :
    {os : List Open} {fails : Bool} (g : ℤ → Program ℕ) (o : Open) (d : ℤ) (backlog : ℕ)
    → (o.fd ==ℤ d) ≡ false
    → ((n : ℕ) → Safe orderly (o ∷ at_stage d stream listening ∷ os) fails (g (pos n)))
    → Safe orderly (o ∷ at_stage d stream bound ∷ os) fails (make_call (listen d backlog) >>= g)
unfolding in_order answers open_after is_failure
listens_behind {os} {fails} g o d b apart h =
    let s = at_stage d stream bound in
    quiet (o ∷ s ∷ os) fails (listen d b) g
      (holds-next bound_stream o (s ∷ os) d apart ∙ holds-head bound_stream s os refl) (λ n. refl)
      λ n e. rw (advance-next listening o (s ∷ os) d apart, advance-head listening s os) (h n)
