-- ===== src/Files/Receive.antt =====
-- What the loop of `cmd_uplode` stores, however the kernel cuts the stream.
use game_network.Prelude.{
  ℕ, zero, suc, ◌+◌, ◌-◌, ◌%◌, ◌≤◌, ◌<◌, ◌≡◌, refl, ap, true, false, ◌==◌, ltb, if◌then◌else◌, some,
  List, [], ◌∷◌, ◌++◌, arith, length, length-take, length-drop, take, drop, take-split, drop-drop,
  min, inl, inr, take_nil, take-append-drop, drop_nil, ◌≢◌, Option-cases,
}
use game_network.Files.Line.{buf_size}
use game_network.Files.Upload.{
  to_read, done, broken, overrun, no_fuel, Received, store_chunk, receive_round, receive,
}

smaller : (left : ℕ) → (if ltb left buf_size then left else buf_size) ≡ min left buf_size
smaller left = ground arith

to_read_small : (left : ℕ) → left < 2147483648 → to_read left ≡ some (min left buf_size)
unfolding to_read
to_read_small left h =
    let e : left % 4294967296 ≡ left = omega arith in
    let t : ltb left 2147483648 ≡ true = ground arith in rw e (rw t (ap some (smaller left)))

receive_zero :
    (fuel : ℕ) (sizes : ℕ → ℕ) (stream : List ℕ) → receive fuel sizes 0 stream ≡ (done, [], stream)
unfolding receive
receive_zero zero sizes stream = refl
receive_zero (suc fuel) sizes stream = refl

-- What a round adds to what the later ones write.
abbrev behind : List ℕ → Received → Received
behind chunk (outcome, written, rest) = (outcome, chunk ++ written, rest)

store_chunk-behind :
    (next : ℕ → List ℕ → Received) (left : ℕ) (chunk rest : List ℕ)
    → 0 < length chunk
    → store_chunk next left (chunk, rest) ≡ behind chunk (next (left - length chunk) rest)
unfolding store_chunk
store_chunk-behind next left [] rest h = absurd (omega arith)
store_chunk-behind next left (b ∷ bs) rest h = refl

-- A round with bytes there takes the same number of bytes off the stream and off the count.
receive_round_some :
    (next : ℕ → List ℕ → Received) (size left b : ℕ) (stream : List ℕ)
    → left < 2147483648
    → 0 < left
    → (n : ℕ) × (0 < n)
      × (n ≤ left)
      × (receive_round next size left (b ∷ stream)
          ≡ behind
              (take n (b ∷ stream))
              (next (left - length (take n (b ∷ stream))) (drop n (b ∷ stream))))
unfolding receive_round store_chunk
receive_round_some next size left b stream small more =
    let n = min (min left buf_size) (suc size) in
    (
      n,
      omega arith,
      omega arith,
      rw (receive_round, to_read_small left small)
          (store_chunk-behind next left (take n (b ∷ stream)) (drop n (b ∷ stream))
            (omega (arith, length-take n (b ∷ stream)))),
    )

receive_round_none :
    (next : ℕ → List ℕ → Received) (size left : ℕ)
    → left < 2147483648
    → receive_round next size left [] ≡ (broken, [], [])
unfolding receive_round store_chunk
receive_round_none next size left small =
    rw (receive_round, to_read_small left small)
      (rw (
        take_nil (min (min left buf_size) (suc size)),
        drop_nil (min (min left buf_size) (suc size)),
      ))

receive_round_negative :
    (next : ℕ → List ℕ → Received) (size left : ℕ) (stream : List ℕ)
    → 2147483648 ≤ left % 4294967296
    → receive_round next size left stream ≡ (overrun, [], stream)
unfolding receive_round to_read
receive_round_negative next size left stream h =
    let t : ltb (left % 4294967296) 2147483648 ≡ false = ground arith in
    rw (receive_round, to_read, t)

receive-suc :
    (fuel : ℕ) (sizes : ℕ → ℕ) (left : ℕ) (stream : List ℕ)
    → receive (suc fuel) sizes (suc left) stream
      ≡ receive_round (receive fuel sizes) (sizes fuel) (suc left) stream
unfolding receive
receive-suc fuel sizes left stream =
    let t : (suc left == 0) ≡ false = ground arith in rw (receive, t)

-- Enough bytes: the loop stores just those that were announced.
pub receive_enough :
    (fuel : ℕ) (sizes : ℕ → ℕ) (left : ℕ) (stream : List ℕ)
    → left < 2147483648
    → left ≤ length stream
    → left ≤ fuel
    → receive fuel sizes left stream ≡ (done, take left stream, drop left stream)
receive_enough fuel sizes zero stream small there h = receive_zero fuel sizes stream
receive_enough zero sizes (suc left) stream small there h = absurd (omega arith)
receive_enough (suc fuel) sizes (suc left) [] small there h = absurd (omega arith)
receive_enough (suc fuel) sizes (suc left) (b ∷ stream) small there h =
    let (n, pos, le, round) =
      receive_round_some (receive fuel sizes) (sizes fuel) (suc left) b stream small
        (omega arith) in
    let len : length (take n (b ∷ stream)) ≡ n = omega (arith, length-take n (b ∷ stream)) in
    let e : n + (suc left - n) ≡ suc left = omega arith in
    rw (receive-suc, round, len)
      (rw
        (receive_enough fuel sizes (suc left - n) (drop n (b ∷ stream)) (omega arith)
          (omega (arith, length-drop n (b ∷ stream))) (omega arith))
        (rw (take-split n (suc left - n) (b ∷ stream), drop-drop n (suc left - n) (b ∷ stream), e)))

-- Too few: the loop stores all of them and reports the failure.
pub receive_short :
    (fuel : ℕ) (sizes : ℕ → ℕ) (left : ℕ) (stream : List ℕ)
    → left < 2147483648
    → length stream < left
    → left ≤ fuel
    → receive fuel sizes left stream ≡ (broken, stream, [])
receive_short fuel sizes zero stream small there h = absurd (omega arith)
receive_short zero sizes (suc left) stream small there h = absurd (omega arith)
receive_short (suc fuel) sizes (suc left) [] small there h =
    rw receive-suc (receive_round_none (receive fuel sizes) (sizes fuel) (suc left) small)
receive_short (suc fuel) sizes (suc left) (b ∷ stream) small there h =
    let (n, pos, le, round) =
      receive_round_some (receive fuel sizes) (sizes fuel) (suc left) b stream small
        (omega arith) in
    let len = length-take n (b ∷ stream) in
    let len_drop = length-drop n (b ∷ stream) in
    rw (receive-suc, round)
      (rw
        (receive_short fuel sizes (suc left - length (take n (b ∷ stream))) (drop n (b ∷ stream))
          (omega arith) (ground arith) (ground arith))
        (ap (λ xs. (broken, xs, [])) (take-append-drop n (b ∷ stream))))

-- With a count of bytes left whose low 32 bits are a negative int, and fuel, the loop of cmd_uplode
-- passes that int to recv as the length.
receive_overrun :
    (fuel : ℕ) (sizes : ℕ → ℕ) (left : ℕ) (stream : List ℕ)
    → 2147483648 ≤ left % 4294967296
    → 0 < fuel
    → receive fuel sizes left stream ≡ (overrun, [], stream)
receive_overrun zero sizes left stream h more = absurd (omega arith)
receive_overrun (suc fuel) sizes zero stream h more = absurd (omega arith)
receive_overrun (suc fuel) sizes (suc left) stream h more =
    rw receive-suc (receive_round_negative (receive fuel sizes) (sizes fuel) (suc left) stream h)

store_chunk_outcome :
    (next : ℕ → List ℕ → Received) (left : ℕ) (chunk rest : List ℕ)
    → (0 < length chunk → (next (left - length chunk) rest).0 ≢ no_fuel)
    → (store_chunk next left (chunk, rest)).0 ≢ no_fuel
unfolding store_chunk
store_chunk_outcome next left [] rest h = λ e. cc
store_chunk_outcome next left (b ∷ bs) rest h = h (omega arith)

receive_round_outcome :
    (next : ℕ → List ℕ → Received) (size left : ℕ) (stream : List ℕ)
    → ((k : ℕ) (rest : List ℕ) → length rest < length stream → (next k rest).0 ≢ no_fuel)
    → (receive_round next size left stream).0 ≢ no_fuel
unfolding receive_round
receive_round_outcome next size left stream h = elim (Option-cases (to_read left)) [
  | inl e ↦ rw (receive_round, e) (λ e. cc)
  | inr (count, e) ↦
      rw (receive_round, e)
        (store_chunk_outcome next left (take (min count (suc size)) stream)
          (drop (min count (suc size)) stream)
          (λ more.
            h (left - length (take (min count (suc size)) stream))
              (drop (min count (suc size)) stream)
              (omega (
                arith,
                length-take (min count (suc size)) stream,
                length-drop (min count (suc size)) stream,
              ))))
]

-- With more fuel than the stream has bytes the loop of cmd_uplode ends, whatever size was announced
-- and whatever sizes recv returns.
receive_ends :
    (fuel : ℕ) (sizes : ℕ → ℕ) (left : ℕ) (stream : List ℕ)
    → length stream < fuel
    → (receive fuel sizes left stream).0 ≢ no_fuel
receive_ends zero sizes left stream h = absurd (omega arith)
receive_ends (suc fuel) sizes zero stream h = rw (receive_zero (suc fuel) sizes stream) (λ e. cc)
receive_ends (suc fuel) sizes (suc left) stream h = rw receive-suc (
    receive_round_outcome (receive fuel sizes) (sizes fuel) (suc left) stream
      (λ k rest less. receive_ends fuel sizes k rest (omega arith)))
