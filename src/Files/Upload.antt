-- ===== src/Files/Upload.antt =====
-- week5/Iserver.c, lines 122 to 178: `cmd_uplode`. How many bytes a `recv` of the loop returns is
-- the kernel's choice, here a number for each round.
use game_network.Prelude.{
  ℕ, zero, suc, ◌-◌, ◌%◌, ◌==◌, leb, ltb, if◌then◌else◌, Bool, not, ◌&&◌, ◌||◌, Option, none, some,
  List, [], ◌∷◌, ◌++◌, length, take, drop, min, ℤ, pos, negsuc, read_digits, until, codes,
}
use game_network.Files.Line.{buf_size, recv_line}
use game_network.Files.Commands.{Disk, file_path}

abbrev pub is_space : ℕ → Bool
is_space b = b == 32 || leb 9 b && leb b 13

unfoldable pub skip_space : List ℕ → List ℕ
skip_space [] = []
skip_space (b ∷ bs) = if is_space b then skip_space bs else b ∷ bs

abbrev negate : ℕ → ℤ
negate zero = pos 0
negate (suc n) = negsuc n

unfoldable pub signed : List ℕ → ℤ
signed [] = pos 0
signed (b ∷ bs) =
    if b == b'-'
    then negate (read_digits 0 bs)
    else if b == b'+'
    then pos (read_digits 0 bs)
    else pos (read_digits 0 (b ∷ bs))

-- `atol`, for numbers that a `long` can hold.
unfoldable pub atol : List ℕ → ℤ
atol text = signed (skip_space text)

-- `(int)(file_size - total_received)` and the smaller of it and BUF_SIZE. `none` is a negative
-- `int`, which `recv` takes for an enormous size.
unfoldable pub to_read : ℕ → Option ℕ
to_read left =
    let remain = left % 4294967296 in
    if ltb remain 2147483648 then some (if ltb remain buf_size then remain else buf_size) else none

-- At least one byte if there is one, and at most `count`.
abbrev pub recv_some : ℕ → ℕ → List ℕ → List ℕ × List ℕ
recv_some count size stream =
    (take (min count (suc size)) stream, drop (min count (suc size)) stream)

pub data Outcome : Type 0 where
  done broken overrun no_fuel : Outcome

-- How the loop ended, what it wrote, and the rest of the stream.
abbrev pub Received : Type 0
Received = Outcome × List ℕ × List ℕ

unfoldable pub store_chunk : (ℕ → List ℕ → Received) → ℕ → List ℕ × List ℕ → Received
store_chunk next left ([], rest) = (broken, [], rest)
store_chunk next left (b ∷ bs, rest) =
    let (outcome, written, last) = next (left - length (b ∷ bs)) rest in
    (outcome, (b ∷ bs) ++ written, last)

unfoldable pub receive_round : (ℕ → List ℕ → Received) → ℕ → ℕ → List ℕ → Received
receive_round next size left stream = elim (to_read left) [
  | none ↦ (overrun, [], stream)
  | some count ↦ store_chunk next left (recv_some count size stream)
]

-- The loop, with the bytes that are left to receive. A round takes one at least.
unfoldable pub receive : ℕ → (ℕ → ℕ) → ℕ → List ℕ → Received
receive zero sizes left stream = if left == 0 then (done, [], stream) else (no_fuel, [], stream)
receive (suc fuel) sizes left stream =
    let round = receive_round (receive fuel sizes) (sizes fuel) left stream in
    if left == 0 then (done, [], stream) else round

-- The lines that the server answers, what the file holds then, if it was opened, and the rest of
-- the stream.
pub record Upload : Type 0 where
  pub replies : List (List ℕ)
  pub file : Option (List ℕ)
  pub rest : List ℕ

abbrev pub ready : List ℕ
ready = codes "READY"

abbrev pub upload_done : List ℕ
upload_done = codes "UPLOAD DONE"

abbrev pub failed : List ℕ
failed = codes "FAILED"

abbrev pub finish : Received → Upload
finish (done, written, rest) = record {
  replies = ready ∷ upload_done ∷ [];
  file = some written;
  rest = rest;
}
finish (outcome, written, rest) = record { replies = ready ∷ []; file = some written; rest = rest }

-- Behind `atol`.
unfoldable pub store_file : (ℕ → List ℕ → Received) → ℤ → List ℕ → Upload
store_file loop (pos zero) rest = record {
  replies = ready ∷ failed ∷ [];
  file = some [];
  rest = rest;
}
store_file loop (pos (suc n)) rest = finish (loop (suc n) rest)
store_file loop (negsuc n) rest = record {
  replies = ready ∷ failed ∷ [];
  file = some [];
  rest = rest;
}

-- Behind `recv_line(sock, size_buf, ...) <= 0`.
unfoldable pub read_size : (ℕ → List ℕ → Received) → Option (List ℕ) → List ℕ → Upload
read_size loop none rest = record { replies = ready ∷ []; file = some []; rest = rest }
read_size loop (some []) rest = record { replies = ready ∷ []; file = some []; rest = rest }
read_size loop (some (b ∷ bs)) rest = store_file loop (atol (until 0 (b ∷ bs))) rest

-- `sent` is false where the send of READY fails: then nothing has gone out.
unfoldable pub cmd_uplode : Disk → Bool → ℕ → (ℕ → ℕ) → List ℕ → List ℕ → Upload
cmd_uplode disk sent fuel sizes filename stream =
    if not (disk.writable (file_path filename))
    then record { replies = failed ∷ []; file = none; rest = stream }
    else if not sent
    then record { replies = []; file = some []; rest = stream }
    else let (line, rest) = recv_line 127 stream in read_size (receive fuel sizes) line rest
