-- ===== src/Sockets/Monitor.antt =====
-- What the system holds for a process, which call is in order when, and a run of a program against
-- a list of answers.
use game_network.Prelude.{
  ℕ, zero, suc, Bool, true, false, ◌&&◌, not, ◌||◌, List, [], ◌∷◌, Option, none, some, ℤ, pos,
  negsuc, ◌==ℤ◌, if◌then◌else◌, ◌==◌,
}
use game_network.Sockets.Calls.{
  Kind, stream, datagram, poll, input, SystemCall, startup, cleanup, socket, bind, listen, accept,
  connect, setsockopt, getsockopt, poll_create, poll_add, talk, close, Program, ret, exit, loop,
  call,
}

-- A descriptor is made, bound to an address, listening, or joined to a peer.
pub data Stage : Type 0 where
  made bound listening joined : Stage

pub record Open : Type 0 where
  pub fd : ℤ
  pub kind : Kind
  pub stage : Stage

-- At the start only standard input is open.
abbrev pub at_start : List Open
at_start = (record { fd = pos 0; kind = input; stage = made }) ∷ []

unfoldable pub lookup : ℤ → List Open → Option Open
lookup d [] = none
lookup d (o ∷ os) = if o.fd ==ℤ d then some o else lookup d os

unfoldable pub is_open : ℤ → List Open → Bool
unfolding lookup
is_open d os = elim (lookup d os) [ none ↦ false | some o ↦ true ]

unfoldable pub advance : ℤ → Stage → List Open → List Open
advance d s [] = []
advance d s (o ∷ os) = if o.fd ==ℤ d then (record o { stage = s }) ∷ os else o ∷ advance d s os

unfoldable pub shut : ℤ → List Open → List Open
shut d [] = []
shut d (o ∷ os) = if o.fd ==ℤ d then os else o ∷ shut d os

-- A test of an open descriptor, which fails on one that is not.
unfoldable pub holds : (Kind → Stage → Bool) → ℤ → List Open → Bool
unfolding lookup
holds p d os = elim (lookup d os) [ none ↦ false | some o ↦ p o.kind o.stage ]

abbrev pub unbound : Kind → Stage → Bool
unbound stream made = true
unbound datagram made = true
unbound _ _ = false

abbrev pub bound_stream : Kind → Stage → Bool
bound_stream stream bound = true
bound_stream _ _ = false

abbrev pub listens : Kind → Stage → Bool
listens stream listening = true
listens _ _ = false

abbrev pub new_stream : Kind → Stage → Bool
new_stream stream made = true
new_stream _ _ = false

abbrev pub is_socket : Kind → Stage → Bool
is_socket stream _ = true
is_socket datagram _ = true
is_socket _ _ = false

abbrev pub is_poll : Kind → Stage → Bool
is_poll poll _ = true
is_poll _ _ = false

-- A stream talks to its peer, a datagram socket to any address.
abbrev pub talks : Kind → Stage → Bool
talks stream joined = true
talks datagram _ = true
talks _ _ = false

-- The call is in order: its descriptors are open, and at the stage that the call asks for.
unfoldable pub in_order : List Open → SystemCall → Bool
unfolding holds is_open
in_order os startup = true
in_order os cleanup = true
in_order os (socket k) = true
in_order os (bind d a) = holds unbound d os
in_order os (listen d n) = holds bound_stream d os
in_order os (accept d) = holds listens d os
in_order os (connect d a) = holds new_stream d os
in_order os (setsockopt d o n) = holds is_socket d os
in_order os (getsockopt d o) = holds is_socket d os
in_order os poll_create = true
in_order os (poll_add e d) = holds is_poll e os && is_open d os
in_order os (talk d) = holds talks d os
in_order os (close d) = is_open d os

-- A successful answer's new descriptor is not open, and a failure is -1. What ends a conversation
-- is the program's own number.
unfoldable pub answers : List Open → SystemCall → ℤ → Bool
unfolding is_open
answers os (talk d) r = true
answers os (socket k) (pos n) = not (is_open (pos n) os)
answers os (accept d) (pos n) = not (is_open (pos n) os)
answers os poll_create (pos n) = not (is_open (pos n) os)
answers os c (pos n) = true
answers os c (negsuc zero) = true
answers os c (negsuc (suc n)) = false

-- A failed call changes nothing, but `close`, after which Linux has given the descriptor up.
unfoldable pub open_after : List Open → SystemCall → ℤ → List Open
unfolding advance shut
open_after os (socket k) (pos n) = (record { fd = pos n; kind = k; stage = made }) ∷ os
open_after os (bind d a) (pos n) = advance d bound os
open_after os (listen d b) (pos n) = advance d listening os
open_after os (accept d) (pos n) = (record { fd = pos n; kind = stream; stage = joined }) ∷ os
open_after os (connect d a) (pos n) = advance d joined os
open_after os poll_create (pos n) = (record { fd = pos n; kind = poll; stage = made }) ∷ os
open_after os (close d) r = shut d os
open_after os c r = os

-- The answer tells of an error: WSAStartup gives its code, the others -1.
unfoldable pub is_failure : SystemCall → ℤ → Bool
is_failure c (negsuc n) = true
is_failure c (pos n) = elim c [ startup ↦ not (n == 0) | _ ↦ false ]

-- How far a run came: a call out of order (and whether a call had failed before it), an answer that
-- the system does not give, no more answers, a loop that is not followed (with what is open), or
-- the end of the process with its status, what was still open, and whether a call had failed.
pub data Verdict : Type 0 where
  out_of_order : SystemCall → Bool → Verdict
  not_an_answer waiting : Verdict
  looping : List Open → Verdict
  ended : ℕ → List Open → Bool → Verdict

unfoldable pub run : List Open → Bool → Program ℕ → List ℤ → Verdict
unfolding in_order answers open_after is_failure
run os fails (ret n) rs = ended n os fails
run os fails (exit n) rs = ended n os fails
run os fails loop rs = looping os
run os fails (call c k) rs = elim (in_order os c) [
  | false ↦ out_of_order c fails
  | true ↦ elim rs [
    | [] ↦ waiting
    | r ∷ rest ↦ elim (answers os c r) [
      | false ↦ not_an_answer
      | true ↦ run (open_after os c r) (is_failure c r || fails) (k r) rest
    ]
  ]
]
