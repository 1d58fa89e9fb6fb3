-- ===== src/Files/Line.antt =====
-- week5/Icommon.h, lines 14 to 58: lines over a stream socket. A stream is the list of the bytes
-- that the peer sends before it closes the connection.
use mathlib.Core.Option
use game_network.Prelude.{
  ℕ, ◌-◌, append_assoc, true, zero, suc, ◌+◌, ◌≤◌, ◌<◌, ◌≡◌, refl, ap, ◌==◌, leb, if◌then◌else◌,
  Option, none, some, List, [], ◌∷◌, ◌++◌, arith, length, length-append, take, Lacks, newline,
  Bool-cases, inl, inr, ◌-◌, append_assoc,
}

abbrev pub buf_size : ℕ
buf_size = 4096

-- The buffer after `snprintf(buf, size, "%s\n", line)`, up to its NUL and with it.
abbrev pub line_buffer : ℕ → List ℕ → List ℕ
line_buffer size line = take (size - 1) (line ++ newline ∷ []) ++ 0 ∷ []

-- What `send_line` hands to `send`: `len` bytes of the buffer, where `len` is the length that
-- `snprintf` returns, before truncation. `none` is a read past the end of the buffer.
unfoldable pub send_line_in : ℕ → List ℕ → Option (List ℕ)
send_line_in size line =
    let len = length line + 1 in
    if leb len size then some (take len (line_buffer size line)) else none

abbrev pub send_line : List ℕ → Option (List ℕ)
send_line = send_line_in buf_size

-- A line as read, and the rest of the stream; the first is `none` for the result -1. `room` is
-- `size - 1 - i`, the bytes that the buffer can still take.
unfoldable pub recv_line : ℕ → List ℕ → Option (List ℕ) × List ℕ
recv_line zero stream = (some [], stream)
recv_line (suc room) [] = (none, [])
recv_line (suc room) (c ∷ stream) =
    let (line, rest) = recv_line room stream in
    if c == newline then (some [], stream) else (Option.map (◌∷◌ c) line, rest)

take-append_self : (xs ys : List ℕ) → take (length xs) (xs ++ ys) ≡ xs
take-append_self [] ys = refl
take-append_self (x ∷ xs) ys = ap (◌∷◌ x) (take-append_self xs ys)

take_enough : (n : ℕ) (xs : List ℕ) → length xs ≤ n → take n xs ≡ xs
take_enough zero [] h = refl
take_enough zero (x ∷ xs) h = absurd (omega arith)
take_enough (suc n) [] h = refl
take_enough (suc n) (x ∷ xs) h = ap (◌∷◌ x) (take_enough n xs (omega arith))

module _ (size : ℕ) (line : List ℕ) where
  send_line_in_fits : length line + 1 < size → send_line_in size line ≡ some (line ++ newline ∷ [])
  unfolding send_line_in
  send_line_in_fits h =
      let whole : take (size - 1) (line ++ newline ∷ []) ≡ line ++ newline ∷ [] =
        take_enough (size - 1) (line ++ newline ∷ [])
          (omega (arith, length-append line (newline ∷ []))) in
      let len : length line + 1 ≡ length (line ++ newline ∷ []) =
        omega (arith, length-append line (newline ∷ [])) in
      let test : leb (length line + 1) size ≡ true = ground arith in
      rw test (rw whole (rw len (ap some (take-append_self (line ++ newline ∷ []) (0 ∷ [])))))

  send_line_in_full : length line + 1 ≡ size → send_line_in size line ≡ some (line ++ 0 ∷ [])
  unfolding send_line_in
  send_line_in_full h =
      let cut : take (size - 1) (line ++ newline ∷ []) ≡ line =
        let same : size - 1 ≡ length line = omega arith in
        rw same (take-append_self line (newline ∷ [])) in
      let test : leb (length line + 1) size ≡ true = ground arith in
      rw test (
        rw cut (
          ap some (
            take_enough (length line + 1) (line ++ 0 ∷ [])
              (omega (arith, length-append line (0 ∷ []))))))

  send_line_in_over : size ≤ length line → send_line_in size line ≡ none
  unfolding send_line_in
  send_line_in_over h = ground arith

-- A line of at most 4094 bytes goes out whole, with its newline.
pub send_line_fits :
    (line : List ℕ) → length line < buf_size - 1 → send_line line ≡ some (line ++ newline ∷ [])
send_line_fits line h = send_line_in_fits buf_size line (omega arith)

-- A line without a newline that the buffer can hold is read up to its newline.
pub recv_line_fits :
    (room : ℕ) (line rest : List ℕ)
    → length line < room
    → Lacks newline line
    → recv_line room (line ++ (newline ∷ rest)) ≡ (some line, rest)
unfolding recv_line
recv_line_fits zero line rest h n = absurd (omega arith)
recv_line_fits (suc room) [] rest h n = refl
recv_line_fits (suc room) (c ∷ line) rest h n =
    rw (n.0, recv_line_fits room line rest (omega arith) n.1)

-- What goes out as a line of less than 4095 bytes without a newline comes in as that line, and the
-- stream goes on behind it.
recv_line-send_line :
    (line rest : List ℕ)
    → length line < buf_size - 1
    → Lacks newline line
    → (sent : List ℕ) × (send_line line ≡ some sent)
      × (recv_line (buf_size - 1) (sent ++ rest) ≡ (some line, rest))
recv_line-send_line line rest h n = (
  line ++ newline ∷ [],
  send_line_fits line h,
  rw (append_assoc line (newline ∷ []) rest) (recv_line_fits (buf_size - 1) line rest h n),
)

-- send_line of a line of 4095 bytes sends a NUL in the place of the newline, and with a longer line
-- reads past the end of its buffer.
send_line_long :
    (line : List ℕ)
    → buf_size - 1 ≤ length line
    → send_line line ≡ (if length line == buf_size - 1 then some (line ++ 0 ∷ []) else none)
send_line_long line h = elim (Bool-cases (length line == buf_size - 1)) [
  | inl e ↦ rw e (send_line_in_full buf_size line (ground (arith, e)))
  | inr e ↦ rw e (send_line_in_over buf_size line (ground (arith, e)))
]
