-- ===== src/Sockets/Tidy.antt =====
-- What a program that tests its calls keeps to, and the ends that such programs share.
use game_network.Prelude.{
  ℕ, zero, suc, Bool, true, false, ◌||◌, List, ◌∷◌, ℤ, pos, negsuc, minus_one, ◌==ℤ◌, ◌≡◌, refl,
  if◌then◌else◌, arith,
}
use game_network.Sockets.Calls.{
  talk, close, Program, make_call, or_die, or_exit, ◌>>=◌, loop, ret, ◌>>◌, exit,
}
use game_network.Sockets.Monitor.{
  Open, at_start, is_failure, Verdict, out_of_order, not_an_answer, waiting, looping, ended, run,
  in_order, answers, open_after, talks,
}
use game_network.Sockets.Rules.{Judgement, Safe, Safe-call, Rule, or_die-Rule, or_exit-Rule}
use game_network.Sockets.Heads.{holds-head, closes}

-- No call is out of order. At the end with status 0 nothing is left open, and the status is 1 only
-- after a failed call; in an endless loop only one descriptor is left open.
abbrev pub Tidy : Verdict → Type 0
Tidy (out_of_order c fails) = ⊥
Tidy not_an_answer = Unit
Tidy waiting = Unit
Tidy (looping os) = (o : Open) × (os ≡ o ∷ at_start)
Tidy (ended zero os fails) = os ≡ at_start
Tidy (ended (suc zero) os fails) = fails ≡ true
Tidy (ended (suc (suc n)) os fails) = ⊥

abbrev pub tidy : Judgement
tidy = record { Passes = Tidy; not_answered = tt; waits = tt }

pub die : Rule tidy or_die
die = or_die-Rule tidy λ os. refl

pub quit : Rule tidy or_exit
quit = or_exit-Rule tidy λ os. refl

pub looping_safe : (o : Open) (fails : Bool) → Safe tidy (o ∷ at_start) fails loop
unfolding run
looping_safe o fails = record { passes = λ rs. (o, refl) }

pub returns : (fails : Bool) → Safe tidy at_start fails (ret 0)
unfolding run
returns fails = record { passes = λ rs. refl }

pub leaves : (os : List Open) (fails : Bool) → fails ≡ true → Safe tidy os fails (ret 1)
unfolding run
leaves os fails e = record { passes = λ rs. e }

pub other_than_minus_one : (n : ℕ) → (negsuc (suc n) ==ℤ minus_one) ≡ false
other_than_minus_one n = ground arith

pub or_true : (b : Bool) → (b || true) ≡ true
or_true b = ground arith

-- A conversation that may end the program.
pub talk_or_die :
    {os : List Open} {fails : Bool} (g : ℤ → Program ℕ) (o : Open)
    → talks o.kind o.stage ≡ true
    → ((r : ℤ) (fails : Bool) → Safe tidy (o ∷ os) fails (g r))
    → Safe tidy (o ∷ os) fails (or_die (talk o.fd) >>= g)
unfolding or_die in_order answers open_after is_failure run
talk_or_die {os} {fails} g o t h =
    Safe-call tidy (o ∷ os) fails (talk o.fd)
      (λ r. (if r ==ℤ minus_one then exit 1 else ret r) >>= g) (holds-head talks o os t) each
  where
    each :
        (r : ℤ)
        → answers (o ∷ os) (talk o.fd) r ≡ true
        → Safe tidy
            (open_after (o ∷ os) (talk o.fd) r)
            (is_failure (talk o.fd) r || fails)
            ((if r ==ℤ minus_one then exit 1 else ret r) >>= g)
    each (pos n) e = h (pos n) _
    each (negsuc zero) e = record { passes = λ rs. refl }
    each (negsuc (suc n)) e = rw (other_than_minus_one n) (h (negsuc (suc n)) true)

-- The end of most programs: the socket is closed and 0 returned.
pub close_return :
    (fails : Bool) (o : Open) → Safe tidy (o ∷ at_start) fails (make_call (close o.fd) >> ret 0)
close_return fails o = closes tidy o λ r. returns _

-- The end of a server with one connection.
pub close_both :
    (fails : Bool) (o p : Open)
    → Safe tidy
        (o ∷ p ∷ at_start)
        fails
        (make_call (close o.fd) >> (make_call (close p.fd) >> ret 0))
close_both fails o p = closes tidy o λ r. close_return _ p
