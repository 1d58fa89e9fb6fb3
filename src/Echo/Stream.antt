-- ===== src/Echo/Stream.antt =====
-- week2/server.c, lines 24 to 30, and week2/client.c, lines 17 to 28: the loops, over what the
-- reads and fgets return, none for -1 and for NULL. The programs of week2_Prac are the same.
use game_network.Prelude.{
  ℕ, if◌then◌else◌, ltb, Option, none, some, List, [], ◌∷◌, length, until, codes, same_text,
}

abbrev pub buf_size : ℕ
buf_size = 1024

-- How a loop ended. `fault` is a terminator that is written behind the buffer, `waiting` a read
-- that does not return, `running` a loop that has had all that is given.
pub data End : Type 0 where
  closed quitted fault waiting running : End

pub record Run : Type 0 where
  pub sends : List (List ℕ)
  pub shows : List (List ℕ)
  pub end : End

abbrev pub stop : End → Run
stop end = record { sends = []; shows = []; end = end }

abbrev pub send_first : List ℕ → Run → Run
send_first bytes run = record { sends = bytes ∷ run.sends; shows = run.shows; end = run.end }

abbrev pub show_first : List ℕ → Run → Run
show_first text run = record { sends = run.sends; shows = text ∷ run.shows; end = run.end }

-- `buf[str_len] = 0`, and what follows it.
abbrev pub terminated : List ℕ → Run → Run
terminated bytes after = if ltb (length bytes) buf_size then after else stop fault

-- Over the string that the buffer holds. When `read` returns -1 the terminator goes in front of the
-- buffer, which is taken to touch nothing that the program reads: the old string is shown again,
-- and the `write` of (size_t)-1 bytes sends nothing.
unfoldable pub echo_server : List ℕ → List (Option (List ℕ)) → Run
echo_server buf [] = stop running
echo_server buf (none ∷ reads) = show_first buf (echo_server buf reads)
echo_server buf (some [] ∷ reads) = stop closed
echo_server buf (some (b ∷ bs) ∷ reads) =
    terminated (b ∷ bs)
      (show_first (until 0 (b ∷ bs)) (send_first (b ∷ bs) (echo_server (until 0 (b ∷ bs)) reads)))

-- `fgets`, which is not tested: the string in the buffer stays at the end of the input.
abbrev pub filled : Option (List ℕ) → List ℕ → List ℕ
filled none buf = buf
filled (some line) buf = until 0 line

-- Behind the write of the string in the buffer. When `read` returns -1 that string is shown.
unfoldable pub read_answer :
    (List ℕ → List (Option (List ℕ)) → Run) → List ℕ → List (Option (List ℕ)) → Run
read_answer next buf [] = stop waiting
read_answer next buf (none ∷ reads) = show_first buf (next buf reads)
read_answer next buf (some bytes ∷ reads) =
    terminated bytes (show_first (until 0 bytes) (next (until 0 bytes) reads))

unfoldable pub echo_client : List (Option (List ℕ)) → List ℕ → List (Option (List ℕ)) → Run
echo_client [] buf reads = stop running
echo_client (typed ∷ more) buf reads =
    let text = filled typed buf in
    let after = send_first text (read_answer (echo_client more) text reads) in
    if same_text text (codes "q\n") then stop quitted else after
