-- ===== src/Files/Commands.antt =====
-- week5/Iserver.c, lines 80 to 120: the commands that only send. A command is the list of the lines
-- that it sends; `send_lines` sends them.
use mathlib.Core.Option
use game_network.Prelude.{
  ℕ, zero, suc, ◌-◌, ◌==◌, if◌then◌else◌, Bool, Option, none, some, List, [], ◌∷◌, ◌++◌, map, until,
  newline, codes, length, take,
}
use game_network.Files.Line.{buf_size, send_line}

-- The sends of several lines, one behind the other; `none` is a fault of one of them.
unfoldable pub send_lines : List (List ℕ) → Option (List ℕ)
send_lines [] = some []
send_lines (line ∷ lines) =
    Option.bind (send_line line) (λ sent. Option.map (λ more. sent ++ more) (send_lines lines))

-- `struct dirent`
pub record Entry : Type 0 where
  pub is_reg : Bool
  pub d_name : List ℕ

-- What the server finds on its disk: the directory `./Files`, and files by their path.
pub record Disk : Type 0 where
  pub files_dir : Option (List Entry)
  pub content : List ℕ → Option (List ℕ)
  pub writable : List ℕ → Bool

abbrev pub end_line : List ℕ
end_line = codes "END =========="

abbrev pub start_line : List ℕ
start_line = codes "START"

abbrev pub command_list : List ℕ
command_list = codes "COMMANDS: list, get <filename>, load <filename>, quit"

-- The loop over `readdir`.
unfoldable pub regular_names : List Entry → List (List ℕ)
regular_names [] = []
regular_names (e ∷ es) = let rest = regular_names es in if e.is_reg then e.d_name ∷ rest else rest

unfoldable pub cmd_list : Disk → List (List ℕ)
cmd_list disk = elim disk.files_dir [
  | none ↦ codes "Failed to open directory" ∷ []
  | some entries ↦ codes "Files:" ∷ (regular_names entries ++ (end_line ∷ []))
]

-- `snprintf(filepath, sizeof(filepath), "./Files/%s", filename)`
abbrev pub file_path : List ℕ → List ℕ
file_path filename = take (buf_size - 1) (codes "./Files/" ++ filename)

-- `fgets(buf, room + 1, fp)`: the bytes read, and those left in the file.
unfoldable pub fgets : ℕ → List ℕ → List ℕ × List ℕ
fgets zero bytes = ([], bytes)
fgets (suc room) [] = ([], [])
fgets (suc room) (b ∷ bytes) =
    let (chunk, rest) = fgets room bytes in
    if b == newline then (b ∷ [], bytes) else (b ∷ chunk, rest)

-- The loop over `fgets`, which ends at the end of the file. Each call takes a byte, so the length
-- of the file is fuel enough.
unfoldable pub file_chunks : ℕ → List ℕ → List (List ℕ)
file_chunks zero bytes = []
file_chunks (suc fuel) [] = []
file_chunks (suc fuel) (b ∷ bytes) =
    let (chunk, rest) = fgets (buf_size - 1) (b ∷ bytes) in chunk ∷ file_chunks fuel rest

-- The string in the buffer, after `buf[strcspn(buf, "\n")] = '\0'`.
abbrev pub strip : List ℕ → List ℕ
strip chunk = until newline (until 0 chunk)

unfoldable pub cmd_get : Disk → List ℕ → List (List ℕ)
cmd_get disk filename = elim (disk.content (file_path filename)) [
  | none ↦ codes "File not found" ∷ []
  | some bytes ↦ start_line ∷ (map strip (file_chunks (length bytes) bytes) ++ (end_line ∷ []))
]
