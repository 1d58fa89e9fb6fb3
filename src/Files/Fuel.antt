-- ===== src/Files/Fuel.antt =====
-- The fuel of `handle_client`: every call takes from the stream, and none gives back.
use game_network.Prelude.{
  min, ℕ, zero, suc, ◌-◌, ◌≤◌, ◌<◌, ◌≡◌, refl, ◌∙◌, ◌==◌, Bool, Option, none, some, List, [], ◌∷◌,
  arith, length, newline, Bool-cases, Option-cases, ℤ, inl, pos, until, inr, negsuc, take, min,
  drop, sym, length-drop,
}
use game_network.Files.Line.{buf_size, recv_line}
use game_network.Files.Commands.{Disk, file_path}
use game_network.Files.Upload.{
  Received, receive, finish, store_file, read_size, cmd_uplode, done, broken, overrun, no_fuel,
  store_chunk, receive_round, to_read, atol,
}
use game_network.Files.Session.{
  Command, list, quit, unknown, get, load, Round, handle_command, handle_line, handle_loop, command,
}

recv_line_rest : (room : ℕ) (stream : List ℕ) → length (recv_line room stream).1 ≤ length stream
unfolding recv_line
recv_line_rest zero stream = omega arith
recv_line_rest (suc room) [] = omega arith
recv_line_rest (suc room) (c ∷ stream) = elim (Bool-cases (c == newline)) [
  | inl e ↦ rw e (omega arith)
  | inr e ↦ rw e (omega (arith, recv_line_rest room stream))
]

pub recv_line_takes :
    (room : ℕ) (c : ℕ) (stream : List ℕ)
    → length (recv_line (suc room) (c ∷ stream)).1 ≤ length stream
unfolding recv_line
recv_line_takes room c stream = elim (Bool-cases (c == newline)) [
  | inl e ↦ rw e (omega arith)
  | inr e ↦ rw e (recv_line_rest room stream)
]

-- A loop that leaves no more than it was given.
abbrev Shrinks : (ℕ → List ℕ → Received) → Type 0
Shrinks next = (left : ℕ) (stream : List ℕ) → length (next left stream).2 ≤ length stream

store_chunk-Shrinks :
    (next : ℕ → List ℕ → Received) (left : ℕ) (chunk rest : List ℕ)
    → Shrinks next
    → length (store_chunk next left (chunk, rest)).2 ≤ length rest
unfolding store_chunk
store_chunk-Shrinks next left [] rest h = omega arith
store_chunk-Shrinks next left (b ∷ bs) rest h = h (left - length (b ∷ bs)) rest

receive_round-Shrinks :
    (next : ℕ → List ℕ → Received) (size : ℕ) → Shrinks next → Shrinks (receive_round next size)
unfolding receive_round
receive_round-Shrinks next size h left stream = elim (Option-cases (to_read left)) [
  | inl e ↦ rw (receive_round, e) (omega arith)
  | inr (count, e) ↦
      rw (receive_round, e)
        (omega (
          arith,
          store_chunk-Shrinks next left (take (min count (suc size)) stream)
              (drop (min count (suc size)) stream) h,
          length-drop (min count (suc size)) stream,
        ))
]

receive-Shrinks : (fuel : ℕ) (sizes : ℕ → ℕ) → Shrinks (receive fuel sizes)
unfolding receive
receive-Shrinks zero sizes left stream = elim (Bool-cases (left == 0)) [
  | inl e ↦ rw (receive, e) (omega arith)
  | inr e ↦ rw (receive, e) (omega arith)
]
receive-Shrinks (suc fuel) sizes left stream = elim (Bool-cases (left == 0)) [
  | inl e ↦ rw (receive, e) (omega arith)
  | inr e ↦
      rw (receive, e)
        (receive_round-Shrinks (receive fuel sizes) (sizes fuel) (receive-Shrinks fuel sizes) left
          stream)
]

finish_rest : (got : Received) → (finish got).rest ≡ got.2
finish_rest (done, written, rest) = refl
finish_rest (broken, written, rest) = refl
finish_rest (overrun, written, rest) = refl
finish_rest (no_fuel, written, rest) = refl

module _ (loop : ℕ → List ℕ → Received) (h : Shrinks loop) where
  store_file_rest :
      (size : ℤ) (rest : List ℕ) → length (store_file loop size rest).rest ≤ length rest
  unfolding store_file
  store_file_rest (pos zero) rest = omega arith
  store_file_rest (pos (suc n)) rest = rw (finish_rest (loop (suc n) rest)) (h (suc n) rest)
  store_file_rest (negsuc n) rest = omega arith

  read_size_rest :
      (line : Option (List ℕ)) (rest : List ℕ)
      → length (read_size loop line rest).rest ≤ length rest
  unfolding read_size
  read_size_rest none rest = omega arith
  read_size_rest (some []) rest = omega arith
  read_size_rest (some (b ∷ bs)) rest = store_file_rest (atol (until 0 (b ∷ bs))) rest

cmd_uplode_rest :
    (disk : Disk) (sent : Bool) (fuel : ℕ) (sizes : ℕ → ℕ) (name stream : List ℕ)
    → length (cmd_uplode disk sent fuel sizes name stream).rest ≤ length stream
unfolding cmd_uplode
cmd_uplode_rest disk sent fuel sizes name stream =
    elim (Bool-cases (disk.writable (file_path name))) [
      | inr e ↦ rw (cmd_uplode, e) (omega arith)
      | inl e ↦ elim (Bool-cases sent) [
        | inr s ↦ rw (cmd_uplode, e, s) (omega arith)
        | inl s ↦
            rw (cmd_uplode, e, s)
              (omega (
                arith,
                read_size_rest (receive fuel sizes) (receive-Shrinks fuel sizes)
                    (recv_line 127 stream).0 (recv_line 127 stream).1,
                recv_line_rest 127 stream,
              ))
      ]
    ]

-- Two continuations that agree on what is left of the stream.
abbrev Agree : ℕ → (List ℕ → List (List ℕ)) → (List ℕ → List (List ℕ)) → Type 0
Agree n f g = (rest : List ℕ) → length rest ≤ n → f rest ≡ g rest

module _ (next other : List ℕ → List (List ℕ)) (round : Round) where
  handle_command-Agree :
      (c : Command) (rest : List ℕ)
      → Agree (length rest) next other
      → handle_command next round c rest ≡ handle_command other round c rest
  unfolding handle_command
  handle_command-Agree list rest h = rw (h rest (omega arith))
  handle_command-Agree quit rest h = refl
  handle_command-Agree unknown rest h = rw (h rest (omega arith))
  handle_command-Agree (get name) rest h = rw (h rest (omega arith))
  handle_command-Agree (load name) rest h =
      let up = cmd_uplode round.disk round.ready_sent (suc (length rest)) round.sizes name rest in
      rw (
        h up.rest
          (cmd_uplode_rest round.disk round.ready_sent (suc (length rest)) round.sizes name rest))

  handle_line-Agree :
      (line : Option (List ℕ)) (rest : List ℕ)
      → Agree (length rest) next other
      → handle_line next round line rest ≡ handle_line other round line rest
  unfolding handle_line
  handle_line-Agree none rest h = refl
  handle_line-Agree (some []) rest h = refl
  handle_line-Agree (some (b ∷ bs)) rest h =
      handle_command-Agree (command (until 0 (b ∷ bs))) rest h

handle_loop-suc :
    (fuel : ℕ) (rounds : ℕ → Round) (stream : List ℕ)
    → handle_loop (suc fuel) rounds stream
      ≡ handle_line
          (handle_loop fuel (λ k. rounds (suc k)))
          (rounds 0)
          (recv_line (buf_size - 1) stream).0
          (recv_line (buf_size - 1) stream).1
unfolding handle_loop
handle_loop-suc fuel rounds stream = refl

handle_loop_nil : (fuel : ℕ) (rounds : ℕ → Round) → handle_loop (suc fuel) rounds [] ≡ []
unfolding handle_loop recv_line handle_line
handle_loop_nil fuel rounds = refl

-- The loop of handle_client gives the same answers with any fuel that is more than the number of
-- bytes of the stream.
pub handle_loop_enough :
    (fuel more : ℕ) (rounds : ℕ → Round) (stream : List ℕ)
    → length stream < fuel
    → length stream < more
    → handle_loop fuel rounds stream ≡ handle_loop more rounds stream
handle_loop_enough zero more rounds stream h g = absurd (omega arith)
handle_loop_enough (suc fuel) zero rounds stream h g = absurd (omega arith)
handle_loop_enough (suc fuel) (suc more) rounds [] h g =
    handle_loop_nil fuel rounds ∙ sym (handle_loop_nil more rounds)
handle_loop_enough (suc fuel) (suc more) rounds (c ∷ stream) h g =
    let takes = recv_line_takes (buf_size - 2) c stream in
    handle_loop-suc fuel rounds (c ∷ stream)
    ∙ handle_line-Agree (handle_loop fuel (λ k. rounds (suc k)))
        (handle_loop more (λ k. rounds (suc k))) (rounds 0)
        (recv_line (buf_size - 1) (c ∷ stream)).0 (recv_line (buf_size - 1) (c ∷ stream)).1
        (λ rest le.
          handle_loop_enough fuel more (λ k. rounds (suc k)) rest (omega arith) (omega arith))
    ∙ sym (handle_loop-suc more rounds (c ∷ stream))
