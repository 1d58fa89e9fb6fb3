-- ===== src/Chat/Client.antt =====
-- week7/client.c: the two threads of the chat client, over what fgets and read return, none for
-- NULL and for -1.
use game_network.Prelude.{
  ℕ, ◌+◌, ◌-◌, if◌then◌else◌, Option, none, some, List, [], ◌∷◌, ◌++◌, take, until, newline, codes,
  same_text,
}

abbrev pub name_size : ℕ
name_size = 30

abbrev pub buf_size : ℕ
buf_size = 1024

-- The size of `name_msg` in `send_msg`.
abbrev pub name_msg_size : ℕ
name_msg_size = name_size + buf_size + 2

-- `fgets(name, NAME_SIZE, stdin)` and the cut of the newline; the default stays where no line
-- comes.
unfoldable pub read_name : Option (List ℕ) → List ℕ
read_name none = codes "[Default]"
read_name (some line) = until newline (until 0 line)

-- `snprintf(name_msg, sizeof(name_msg), "[%s] %s", name, msg)`, as the string that it leaves.
unfoldable pub name_msg : List ℕ → List ℕ → List ℕ
name_msg name msg = take (name_msg_size - 1) (b'[' ∷ (name ++ (b']' ∷ b' ' ∷ msg)))

-- How the sending thread ended: the process exits, the input is over, or not yet.
pub data SenderEnd : Type 0 where
  exited input_over typing : SenderEnd

abbrev pub SenderRun : Type 0
SenderRun = List (List ℕ) × SenderEnd

abbrev pub write_first : List ℕ → SenderRun → SenderRun
write_first bytes (writes, end) = (bytes ∷ writes, end)

-- `send_msg`
unfoldable pub sender : List ℕ → List (Option (List ℕ)) → SenderRun
sender name [] = ([], typing)
sender name (none ∷ lines) = ([], input_over)
sender name (some line ∷ lines) =
    let msg = until 0 line in
    let after = write_first (name_msg name msg) (sender name lines) in
    if same_text msg (codes "q\n") then ([], exited) else after

-- What a message puts on the screen: it starts the line again, and the prompt follows.
abbrev pub shown : List ℕ → List ℕ
shown text = 13 ∷ (text ++ codes "Input message: ")

-- `recv_msg`
unfoldable pub receiver : List (Option (List ℕ)) → List (List ℕ)
receiver [] = []
receiver (none ∷ reads) = []
receiver (some [] ∷ reads) = []
receiver (some (b ∷ bs) ∷ reads) = shown (until 0 (b ∷ bs)) ∷ receiver reads
