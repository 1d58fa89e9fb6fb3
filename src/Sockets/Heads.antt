-- ===== src/Sockets/Heads.antt =====
-- The calls of a program on the descriptor that it made last, which stands at the head of the list.
use game_network.Prelude.{ℕ, Bool, true, false, ◌||◌, List, ◌∷◌, ℤ, pos, arith, ==ℤ_refl, ◌≡◌, refl}
use game_network.Sockets.Calls.{
  Kind, stream, SystemCall, socket, bind, listen, accept, connect, setsockopt, getsockopt, talk,
  close, Program, make_call, SockAddrIn, SockOpt, ◌>>=◌,
}
use game_network.Sockets.Rules.{Judgement, Safe, Safe-call, Rule}
use game_network.Sockets.Monitor.{
  unbound, bound_stream, listens, new_stream, is_socket, talks, Stage, made, bound, listening,
  joined, Open, lookup, is_open, advance, shut, holds, in_order, answers, open_after, is_failure,
}

-- The kind and stage of the descriptor at the head are what a test of that descriptor finds.
pub holds-head :
    (p : Kind → Stage → Bool) (o : Open) (os : List Open)
    → p o.kind o.stage ≡ true
    → holds p o.fd (o ∷ os) ≡ true
unfolding holds lookup
holds-head p o os h = rw (holds, lookup, ==ℤ_refl o.fd) h

pub advance-head :
    (s : Stage) (o : Open) (os : List Open)
    → advance o.fd s (o ∷ os) ≡ (record o { stage = s }) ∷ os
unfolding advance
advance-head s o os = rw (==ℤ_refl o.fd)

shut-head : (o : Open) (os : List Open) → shut o.fd (o ∷ os) ≡ os
unfolding shut
shut-head o os = rw (==ℤ_refl o.fd)

pub is_open-head : (o : Open) (os : List Open) → is_open o.fd (o ∷ os) ≡ true
unfolding is_open lookup
is_open-head o os = rw (is_open, lookup, ==ℤ_refl o.fd)

abbrev pub at_stage : ℤ → Kind → Stage → Open
at_stage d k s = record { fd = d; kind = k; stage = s }

module _ (J : Judgement) (make : SystemCall → Program ℤ) (rule : Rule J make) where
  -- The calls of a program on the descriptor that it has made last.
  pub opens :
      {os : List Open} {fails : Bool} (g : ℤ → Program ℕ) (k : Kind)
      → ((n : ℕ)
          → is_open (pos n) os ≡ false
          → Safe J (at_stage (pos n) k made ∷ os) fails (g (pos n)))
      → Safe J os fails (make (socket k) >>= g)
  unfolding in_order answers open_after is_failure
  opens {os} {fails} g k h = rule os fails (socket k) g refl (λ n. refl) λ n e. h n (ground arith)

  pub binds :
      {os : List Open} {fails : Bool} (g : ℤ → Program ℕ) {d : ℤ} (k : Kind) (a : SockAddrIn)
      → unbound k made ≡ true
      → ((n : ℕ) → Safe J (at_stage d k bound ∷ os) fails (g (pos n)))
      → Safe J (at_stage d k made ∷ os) fails (make (bind d a) >>= g)
  unfolding in_order answers open_after is_failure
  binds {os} {fails} g {d} k a u h =
      rule (at_stage d k made ∷ os) fails (bind d a) g (holds-head unbound (at_stage d k made) os u)
        (λ n. refl) λ n e. rw (advance-head bound (at_stage d k made) os) (h n)

  pub listens_on :
      {os : List Open} {fails : Bool} (g : ℤ → Program ℕ) {d : ℤ} (backlog : ℕ)
      → ((n : ℕ) → Safe J (at_stage d stream listening ∷ os) fails (g (pos n)))
      → Safe J (at_stage d stream bound ∷ os) fails (make (listen d backlog) >>= g)
  unfolding in_order answers open_after is_failure
  listens_on {os} {fails} g {d} b h =
      rule (at_stage d stream bound ∷ os) fails (listen d b) g
        (holds-head bound_stream (at_stage d stream bound) os refl) (λ n. refl)
        λ n e. rw (advance-head listening (at_stage d stream bound) os) (h n)

  pub accepts :
      {os : List Open} {fails : Bool} (g : ℤ → Program ℕ) {d : ℤ}
      → ((n : ℕ)
          → Safe J
              (at_stage (pos n) stream joined ∷ at_stage d stream listening ∷ os)
              fails
              (g (pos n)))
      → Safe J (at_stage d stream listening ∷ os) fails (make (accept d) >>= g)
  unfolding in_order answers open_after is_failure
  accepts {os} {fails} g {d} h =
      rule (at_stage d stream listening ∷ os) fails (accept d) g
        (holds-head listens (at_stage d stream listening) os refl) (λ n. refl) λ n e. h n

  pub connects :
      {os : List Open} {fails : Bool} (g : ℤ → Program ℕ) {d : ℤ} (a : SockAddrIn)
      → ((n : ℕ) → Safe J (at_stage d stream joined ∷ os) fails (g (pos n)))
      → Safe J (at_stage d stream made ∷ os) fails (make (connect d a) >>= g)
  unfolding in_order answers open_after is_failure
  connects {os} {fails} g {d} a h =
      rule (at_stage d stream made ∷ os) fails (connect d a) g
        (holds-head new_stream (at_stage d stream made) os refl) (λ n. refl)
        λ n e. rw (advance-head joined (at_stage d stream made) os) (h n)

  pub sets_option :
      {os : List Open} {fails : Bool} (g : ℤ → Program ℕ) (o : Open) (opt : SockOpt) (value : ℕ)
      → is_socket o.kind o.stage ≡ true
      → ((n : ℕ) → Safe J (o ∷ os) fails (g (pos n)))
      → Safe J (o ∷ os) fails (make (setsockopt o.fd opt value) >>= g)
  unfolding in_order answers open_after is_failure
  sets_option {os} {fails} g o opt value t h =
      rule (o ∷ os) fails (setsockopt o.fd opt value) g (holds-head is_socket o os t) (λ n. refl)
        λ n e. h n

  pub gets_option :
      {os : List Open} {fails : Bool} (g : ℤ → Program ℕ) (o : Open) (opt : SockOpt)
      → is_socket o.kind o.stage ≡ true
      → ((n : ℕ) → Safe J (o ∷ os) fails (g (pos n)))
      → Safe J (o ∷ os) fails (make (getsockopt o.fd opt) >>= g)
  unfolding in_order answers open_after is_failure
  gets_option {os} {fails} g o opt t h =
      rule (o ∷ os) fails (getsockopt o.fd opt) g (holds-head is_socket o os t) (λ n. refl)
        λ n e. h n

-- Calls whose result the program does not look at, or tests later on.
module _ (J : Judgement) where
  pub talks_on :
      {os : List Open} {fails : Bool} {g : ℤ → Program ℕ} (o : Open)
      → talks o.kind o.stage ≡ true
      → ((r : ℤ) → Safe J (o ∷ os) (is_failure (talk o.fd) r || fails) (g r))
      → Safe J (o ∷ os) fails (make_call (talk o.fd) >>= g)
  unfolding in_order answers open_after
  talks_on {os} {fails} {g} o t h =
      Safe-call J (o ∷ os) fails (talk o.fd) g (holds-head talks o os t) λ r e. h r

  pub closes :
      {os : List Open} {fails : Bool} {g : ℤ → Program ℕ} (o : Open)
      → ((r : ℤ) → Safe J os (is_failure (close o.fd) r || fails) (g r))
      → Safe J (o ∷ os) fails (make_call (close o.fd) >>= g)
  unfolding in_order answers open_after
  closes {os} {fails} {g} o h =
      Safe-call J (o ∷ os) fails (close o.fd) g (is_open-head o os) λ r e. rw (shut-head o os) (h r)

  -- An option that the program does without when it cannot be set.
  pub tries_option :
      {os : List Open} {fails : Bool} {g : ℤ → Program ℕ} (o : Open) (opt : SockOpt) (value : ℕ)
      → is_socket o.kind o.stage ≡ true
      → ((r : ℤ) (fails : Bool) → Safe J (o ∷ os) fails (g r))
      → Safe J (o ∷ os) fails (make_call (setsockopt o.fd opt value) >>= g)
  unfolding in_order answers open_after
  tries_option {os} {fails} {g} o opt value t h =
      Safe-call J (o ∷ os) fails (setsockopt o.fd opt value) g (holds-head is_socket o os t)
        λ r e. h r _
