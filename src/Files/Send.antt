-- ===== src/Files/Send.antt =====
-- week5/Iclient.c, lines 116 to 147: what the client sends for a file that it uploads, and what
-- `cmd_uplode` makes of it.
use mathlib.Core.Option
use game_network.Prelude.{
  digit_not, print_decimal-Lacks, read_digits_printed, ℕ, zero, suc, ◌≤◌, ◌<◌, ◌≡◌, refl, ap, ◌∙◌,
  true, Option, some, List, [], ◌∷◌, ◌++◌, arith, length, take, drop, print_decimal, length-drop,
  is_digit, length-print_decimal, read_digits, take-append-drop, false, ◌==◌, Lacks, All-mono, All,
  print_decimal_digits, pos, until_all, newline, append_assoc, length-append,
}
use game_network.Files.Line.{buf_size, send_line, send_line_fits, recv_line_fits}
use game_network.Files.Commands.{Disk, file_path}
use game_network.Files.Receive.{receive_enough, receive_short}
use game_network.Files.Upload.{
  ready, upload_done, cmd_uplode, finish, atol, read_size, skip_space, store_file, signed, Received,
  is_space, receive, done,
}

-- The loop over `fread`, whose chunks go out as they are. Each takes a byte, so the length of the
-- file is fuel enough.
unfoldable pub send_chunks : ℕ → List ℕ → List ℕ
send_chunks zero bytes = []
send_chunks (suc fuel) [] = []
send_chunks (suc fuel) (b ∷ bytes) =
    take buf_size (b ∷ bytes) ++ send_chunks fuel (drop buf_size (b ∷ bytes))

-- The size as a line, and the file behind it.
unfoldable pub send_file : List ℕ → Option (List ℕ)
send_file file =
    Option.map (λ sent. sent ++ send_chunks (length file) file)
      (send_line (print_decimal (length file)))

pub send_chunks_all : (fuel : ℕ) (file : List ℕ) → length file ≤ fuel → send_chunks fuel file ≡ file
unfolding send_chunks
send_chunks_all zero [] h = refl
send_chunks_all zero (b ∷ bytes) h = absurd (omega arith)
send_chunks_all (suc fuel) [] h = refl
send_chunks_all (suc fuel) (b ∷ bytes) h =
    rw
      (send_chunks_all fuel (drop buf_size (b ∷ bytes))
        (omega (arith, length-drop buf_size (b ∷ bytes))))
      (take-append-drop buf_size (b ∷ bytes))

-- The size line is digits, and no more than ten.
pub print_decimal_short : (n : ℕ) → n < 2147483648 → length (print_decimal n) ≤ 10
print_decimal_short n h = length-print_decimal 9 n (omega arith)

not_sign :
    (b : ℕ)
    → is_digit b ≡ true
    → (is_space b ≡ false) × ((b == b'-') ≡ false) × ((b == b'+') ≡ false)
not_sign b d = (ground arith, ground arith, ground arith)

atol_digits :
    (text : List ℕ) → All (λ b. is_digit b ≡ true) text → atol text ≡ pos (read_digits 0 text)
unfolding atol skip_space signed read_digits
atol_digits [] h = refl
atol_digits (b ∷ bs) h = let (s, m, p) = not_sign b h.0 in rw (atol, s) (rw (signed, m, p))

read_size_digits :
    (loop : ℕ → List ℕ → Received) (text rest : List ℕ)
    → All (λ b. is_digit b ≡ true) text
    → (n : ℕ) → read_digits 0 text ≡ suc n
    → read_size loop (some text) rest ≡ finish (loop (suc n) rest)
unfolding read_size store_file read_digits
read_size_digits loop [] rest h n e = absurd (omega (arith, e))
read_size_digits loop (b ∷ bs) rest h n e =
    let plain : Lacks 0 (b ∷ bs) =
      All-mono {P = λ c. is_digit c ≡ true} (b ∷ bs) (λ c d. digit_not 0 c d refl) h in
    rw (read_size, until_all 0 (b ∷ bs) plain) (rw (atol_digits (b ∷ bs) h) (rw e refl))

-- `cmd_uplode` in a run that reaches the loop.
cmd_uplode_loop :
    (disk : Disk) (fuel : ℕ) (sizes : ℕ → ℕ) (name stream : List ℕ) (n : ℕ)
    → disk.writable (file_path name) ≡ true
    → 0 < n
    → n < 2147483648
    → cmd_uplode disk true fuel sizes name (print_decimal n ++ (newline ∷ stream))
      ≡ finish (receive fuel sizes n stream)
unfolding cmd_uplode
cmd_uplode_loop disk fuel sizes name stream zero w more small = absurd (omega arith)
cmd_uplode_loop disk fuel sizes name stream (suc n) w more small =
    rw
      (
        w,
        recv_line_fits 127 (print_decimal (suc n)) stream
            (omega (arith, print_decimal_short (suc n) small))
            (print_decimal-Lacks newline (suc n) refl),
      )
      (read_size_digits (receive fuel sizes) (print_decimal (suc n)) stream
        (print_decimal_digits (suc n)) n (read_digits_printed (suc n)))

whole :
    (text file rest : List ℕ)
    → ((text ++ (newline ∷ [])) ++ file) ++ rest ≡ text ++ (newline ∷ (file ++ rest))
whole text file rest =
    append_assoc (text ++ (newline ∷ [])) file rest
    ∙ append_assoc text (newline ∷ []) (file ++ rest)

take-drop_append :
    (xs ys : List ℕ)
    → ◌≡◌ {A = List ℕ × List ℕ} (take (length xs) (xs ++ ys), drop (length xs) (xs ++ ys)) (xs, ys)
take-drop_append [] ys = refl
take-drop_append (x ∷ xs) ys = ap (λ p. (x ∷ p.0, p.1)) (take-drop_append xs ys)

-- The announcement and the file.
abbrev pub file_message : List ℕ → List ℕ
file_message file = (print_decimal (length file) ++ (newline ∷ [])) ++ file

pub send_file_small :
    (file : List ℕ) → length file < 2147483648 → send_file file ≡ some (file_message file)
unfolding send_file
send_file_small file small = rw (
  send_line_fits (print_decimal (length file))
      (omega (arith, print_decimal_short (length file) small)),
  send_chunks_all (length file) file (omega arith),
)

pub cmd_uplode-file_message :
    (disk : Disk) (fuel : ℕ) (sizes : ℕ → ℕ) (name file rest : List ℕ)
    → disk.writable (file_path name) ≡ true
    → 0 < length file
    → length file < 2147483648
    → length file ≤ fuel
    → cmd_uplode disk true fuel sizes name (file_message file ++ rest)
      ≡ record { replies = ready ∷ upload_done ∷ []; file = some file; rest = rest }
cmd_uplode-file_message disk fuel sizes name file rest w more small h =
    ap (cmd_uplode disk true fuel sizes name) (whole (print_decimal (length file)) file rest)
    ∙ cmd_uplode_loop disk fuel sizes name (file ++ rest) (length file) w more small
    ∙ ap finish (
        receive_enough fuel sizes (length file) (file ++ rest) small
          (omega (arith, length-append file rest)) h)
    ∙ ap (λ got. finish (done, got.0, got.1)) (take-drop_append file rest)

-- A file of less than 2 GiB that is not empty arrives whole, however the kernel cuts the stream.
-- The server answers READY and UPLOAD DONE, and the stream goes on behind the file.
pub cmd_uplode-send_file :
    (disk : Disk) (fuel : ℕ) (sizes : ℕ → ℕ) (name file rest : List ℕ)
    → disk.writable (file_path name) ≡ true
    → 0 < length file
    → length file < 2147483648
    → length file ≤ fuel
    → (sent : List ℕ) × (send_file file ≡ some sent)
      × (cmd_uplode disk true fuel sizes name (sent ++ rest)
          ≡ record { replies = ready ∷ upload_done ∷ []; file = some file; rest = rest })
cmd_uplode-send_file disk fuel sizes name file rest w more small h = (
  file_message file,
  send_file_small file small,
  cmd_uplode-file_message disk fuel sizes name file rest w more small h,
)

-- When the announced size is smaller than 2 GiB and the connection closes before that many bytes
-- have come, cmd_uplode, with a file that it can open and fuel of at least the size, leaves the
-- part that came in the place of the file and answers nothing behind READY.
pub cmd_uplode_cut :
    (disk : Disk) (fuel : ℕ) (sizes : ℕ → ℕ) (name part : List ℕ) (n : ℕ)
    → disk.writable (file_path name) ≡ true
    → length part < n
    → n < 2147483648
    → n ≤ fuel
    → cmd_uplode disk true fuel sizes name (print_decimal n ++ (newline ∷ part))
      ≡ record { replies = ready ∷ []; file = some part; rest = [] }
cmd_uplode_cut disk fuel sizes name part n w more small h =
    cmd_uplode_loop disk fuel sizes name part n w (omega arith) small
    ∙ ap finish (receive_short fuel sizes n part small more h)
