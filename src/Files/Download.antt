-- ===== src/Files/Download.antt =====
-- week5/Iclient.c, lines 70 to 74: what the client stores of the server's answer to `get`.
use game_network.Prelude.{
  ℕ, zero, suc, ◌-◌, if◌then◌else◌, Option, none, some, List, [], ◌∷◌, ◌++◌, until, newline,
  same_text,
}
use game_network.Files.Line.{buf_size, recv_line}
use game_network.Files.Commands.{start_line, end_line}

-- What the loop does with a line: leave it out, end, or write its text to the file.
pub data Reply : Type 0 where
  skip stop : Reply
  write : List ℕ → Reply

unfoldable pub reply_text : List ℕ → Reply
reply_text text =
    if same_text text start_line then skip else if same_text text end_line then stop else write text

-- `recv_line(...) > 0` and the tests of the loop's body.
unfoldable pub reply : Option (List ℕ) → Reply
reply none = stop
reply (some []) = stop
reply (some (b ∷ bs)) = reply_text (until 0 (b ∷ bs))

-- The body behind `recv_line`, with the later rounds as a function.
unfoldable pub after_line : (List ℕ → List ℕ × List ℕ) → Reply → List ℕ → List ℕ × List ℕ
after_line next skip rest = next rest
after_line next stop rest = ([], rest)
after_line next (write text) rest = let (more, last) = next rest in (text ++ (newline ∷ more), last)

-- The content of the file, and the rest of the stream. A round that is not the last takes a byte at
-- least, so the length of the stream is fuel enough.
unfoldable pub download : ℕ → List ℕ → List ℕ × List ℕ
download zero stream = ([], stream)
download (suc fuel) stream =
    let (line, rest) = recv_line (buf_size - 1) stream in
    after_line (download fuel) (reply line) rest
