-- ===== src/Files/Client.antt =====
-- week5/Iclient.c, lines 18 to 166: the loop of `main`, as what it does to the outside, for what
-- the user types and the stream that the server sends.

use game_network.Prelude.{
  ℕ, zero, suc, ◌*◌, ◌-◌, if◌then◌else◌, Bool, true, false, Option, none, some, List, [], ◌∷◌, ◌++◌,
  length, drop, take, until, codes, same_text, has_prefix, print_decimal,
}
use game_network.Files.Line.{buf_size, send_line, recv_line}
use game_network.Files.Commands.{strip, end_line}
use game_network.Files.Download.{download}
use game_network.Files.Upload.{ready}
use game_network.Files.Send.{send_chunks}

-- What a round of the loop meets outside, besides the stream.
pub record Prompt : Type 0 where
  pub input : Option (List ℕ)  -- the line that fgets reads, none at the end of the input
  pub sends : Bool  -- whether the send of the command succeeds
  pub opens : Bool  -- whether the file for a download can be written
  pub local : Option (List ℕ)  -- the file that `load` names
  pub sized : Bool  -- whether fseek and ftell succeed on it
  pub size_sent : Bool  -- whether the send of its size succeeds
  pub cut : Option ℕ  -- the chunk of it whose send fails

-- A line shown to the user, bytes sent to the server, a file written.
pub data Act : Type 0 where
  show : List ℕ → Act
  sent : List ℕ → Act
  stored : List ℕ → List ℕ → Act

-- How the loop ended. `stream_over` is a prompt for which no line comes: the server has closed the
-- connection, or the client waits for it. `fault` is a read past the end of a buffer.
pub data Ended : Type 0 where
  stream_over no_input quitted send_failed not_ready aborted fault running : Ended

abbrev pub ClientRun : Type 0
ClientRun = List Act × Ended

abbrev pub act : Act → ClientRun → ClientRun
act a (acts, ended) = (a ∷ acts, ended)

-- Lines 36 to 79 and 156: the tests on the line.
pub data Ask : Type 0 where
  ask_quit ask_list ask_other : Ask
  ask_get ask_load : List ℕ → Ask

unfoldable pub ask : List ℕ → Ask
ask input =
    if same_text input (codes "quit")
    then ask_quit
    else if same_text input (codes "list")
    then ask_list
    else if has_prefix input (codes "get ")
    then ask_get (drop 4 input)
    else if has_prefix input (codes "load ")
    then ask_load (drop 5 input)
    else ask_other

abbrev pub sent_or : Bool → List ℕ → ClientRun → ClientRun
sent_or true bytes after = act (sent bytes) after
sent_or false bytes after = ([], send_failed)

-- `if (send_line(sock, line) == -1) ... break;` and what follows otherwise.
unfoldable pub send_then : List ℕ → Bool → ClientRun → ClientRun
send_then line ok after = elim (send_line line) [
  | none ↦ ([], fault)
  | some bytes ↦ sent_or ok bytes after
]

-- A line of the listing: end the loop, or go on behind it.
unfoldable pub listing_line :
    (List ℕ → List (List ℕ) × List ℕ) → Option (List ℕ) → List ℕ → List (List ℕ) × List ℕ
listing_line next none rest = ([], rest)
listing_line next (some []) rest = ([], rest)
listing_line next (some (b ∷ bs)) rest =
    let text = until 0 (b ∷ bs) in
    let (lines, last) = next rest in
    if same_text text end_line then (text ∷ [], rest) else (text ∷ lines, last)

-- The loop that shows a listing: its lines, and the rest of the stream. A round that is not the
-- last takes a byte, so the length of the stream is fuel enough.
unfoldable pub listing : ℕ → List ℕ → List (List ℕ) × List ℕ
listing zero stream = ([], stream)
listing (suc fuel) stream =
    let (line, rest) = recv_line (buf_size - 1) stream in listing_line (listing fuel) line rest

abbrev pub show_all : List (List ℕ) → ClientRun → ClientRun
show_all [] after = after
show_all (line ∷ lines) after = act (show line) (show_all lines after)

-- `if (recv_line(...) > 0) printf("%s\n", buf);`
unfoldable pub show_line : (List ℕ → ClientRun) → Option (List ℕ) × List ℕ → ClientRun
show_line next (none, rest) = next rest
show_line next (some [], rest) = next rest
show_line next (some (b ∷ bs), rest) = act (show (until 0 (b ∷ bs))) (next rest)

abbrev pub recv_show : (List ℕ → ClientRun) → List ℕ → ClientRun
recv_show next stream = show_line next (recv_line (buf_size - 1) stream)

unfoldable pub after_list : (List ℕ → ClientRun) → List ℕ → ClientRun
after_list next stream =
    let (lines, rest) = listing (suc (length stream)) stream in show_all lines (next rest)

-- The name of the file for a download, cut to the buffer.
abbrev pub download_name : List ℕ → List ℕ
download_name name = take (buf_size - 1) (codes "downloaded_" ++ name)

unfoldable pub after_get : (List ℕ → ClientRun) → Bool → List ℕ → List ℕ → ClientRun
after_get next opens name stream =
    let (content, rest) = download (suc (length stream)) stream in
    if opens then act (stored (download_name name) content) (next rest) else next stream

-- The loop over `fread`: all chunks, or those before the one whose send fails.
unfoldable pub send_data : (List ℕ → ClientRun) → Option ℕ → List ℕ → List ℕ → ClientRun
send_data next none file rest = act (sent (send_chunks (length file) file)) (recv_show next rest)
send_data next (some k) file rest = (sent (take (k * buf_size) file) ∷ [], aborted)

-- Behind the line that should be READY.
unfoldable pub send_upload : (List ℕ → ClientRun) → Prompt → List ℕ → List ℕ → ClientRun
send_upload next p file rest =
    let upload =
      send_then (print_decimal (length file)) p.size_sent (send_data next p.cut file rest) in
    if p.sized then upload else next rest

unfoldable pub at_ready :
    (List ℕ → ClientRun) → Prompt → List ℕ → Option (List ℕ) × List ℕ → ClientRun
at_ready next p file (none, rest) = ([], not_ready)
at_ready next p file (some [], rest) = ([], not_ready)
at_ready next p file (some (b ∷ bs), rest) =
    let upload = send_upload next p file rest in
    if same_text (until 0 (b ∷ bs)) ready then upload else next rest

unfoldable pub after_load :
    (List ℕ → ClientRun) → Prompt → List ℕ → Option (List ℕ) → List ℕ → ClientRun
after_load next p input none stream = next stream
after_load next p input (some file) stream =
    send_then input p.sends (at_ready next p file (recv_line (buf_size - 1) stream))

-- The branches of the loop. A failed send of `quit` is only logged.
unfoldable pub perform : (List ℕ → ClientRun) → Prompt → List ℕ → Ask → List ℕ → ClientRun
perform next p input ask_quit stream = elim (send_line input) [
  | none ↦ ([], fault)
  | some bytes ↦ if p.sends then (sent bytes ∷ [], quitted) else ([], quitted)
]
perform next p input ask_list stream = send_then input p.sends (after_list next stream)
perform next p input (ask_get name) stream =
    send_then input p.sends (after_get next p.opens name stream)
perform next p input (ask_load name) stream = after_load next p input p.local stream
perform next p input ask_other stream = send_then input p.sends (recv_show next stream)

unfoldable pub with_input : (List ℕ → ClientRun) → Prompt → Option (List ℕ) → List ℕ → ClientRun
with_input next p none stream = ([], no_input)
with_input next p (some bytes) stream = perform next p (strip bytes) (ask (strip bytes)) stream

-- Behind the `recv_line` at the head of the loop.
unfoldable pub at_prompt : (List ℕ → ClientRun) → Prompt → Option (List ℕ) × List ℕ → ClientRun
at_prompt next p (none, rest) = ([], stream_over)
at_prompt next p (some [], rest) = ([], stream_over)
at_prompt next p (some (b ∷ bs), rest) =
    act (show (until 0 (b ∷ bs))) (with_input next p p.input rest)

-- The loop, over the rounds that come.
unfoldable pub client : List Prompt → List ℕ → ClientRun
client [] stream = ([], running)
client (p ∷ ps) stream = at_prompt (client ps) p (recv_line (buf_size - 1) stream)
