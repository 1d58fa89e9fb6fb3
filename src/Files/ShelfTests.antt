-- ===== src/Files/ShelfTests.antt =====
-- An upload of two lines under the name `a`, and its download on a later connection.
use game_network.Files.Upload.{cmd_uplode, read_size}
use game_network.Files.Line.{recv_line}
use game_network.Files.Session.{command}
use game_network.Prelude.{
  ℕ, ◌≡◌, refl, true, none, some, List, [], ◌∷◌, ◌++◌, arith, newline, codes, lacks, same_text, All,
  if◌then◌else◌, same_text_iff, ◌≢◌, Option, Bool-cases, inl, inr, until, has_prefix, print_decimal,
  false, drop,
}
use game_network.Files.Commands.{Disk, file_path}
use game_network.Files.Stream.{IsStored, literal-IsLine, unlines}
use game_network.Files.Client.{Prompt, client, quitted}
use game_network.Files.Exchange.{Types}
use game_network.Files.Disks.{
  Choice, Connection, serve_clients, disk_behind, round_end, line_end, command_end, kept_on_disk,
}
use game_network.Files.Left.{upload_acts, download_acts}
use game_network.Files.Spares.{command_saves, line_saves, saves}
use game_network.Files.Shelf.{connection, streams, all_saves, uploaded_download}

-- A file system of files by path, which are all writable.
-- The file of a path: `./` in front of a name leads to the same one.
abbrev file_at : List ℕ → List ℕ
file_at path =
    if has_prefix path (codes "./Files/./") then codes "./Files/" ++ drop 10 path else path

abbrev write_file : Disk → List ℕ → List ℕ → Disk
write_file disk path bytes = record disk {
  content = λ q. if same_text (file_at q) (file_at path) then some bytes else disk.content q;
}

abbrev no_files : Disk
no_files = record { files_dir = some []; content = λ q. none; writable = λ q. true }

same_text_refl : (s : List ℕ) → same_text s s ≡ true
same_text_refl s = (same_text_iff s s).1 refl

write_file_reads :
    (d : Disk) (path bytes : List ℕ) → (write_file d path bytes).content path ≡ some bytes
write_file_reads d path bytes = rw (same_text_refl (file_at path))

abbrev two_lines : List (List ℕ)
two_lines = codes "hp 100" ∷ codes "x 3" ∷ []

two_lines-IsStored : All IsStored two_lines
unfolding lacks same_text
two_lines-IsStored = (
  record {
    line = literal-IsLine _ (omega arith) refl refl;
    filled = omega arith;
    not_start = refl;
    not_end = refl;
  },
  (
    record {
      line = literal-IsLine _ (omega arith) refl refl;
      filled = omega arith;
      not_start = refl;
      not_end = refl;
    },
    tt,
  ),
)

abbrev typing : List ℕ → Prompt
typing line = record {
  input = some (line ++ (newline ∷ []));
  sends = true;
  opens = true;
  local = some (unlines two_lines);
  sized = true;
  size_sent = true;
  cut = none;
}

abbrev any_sizes : ℕ → Choice
any_sizes k = record { ready_sent = true; sizes = λ j. 3 }

typed_load : Types (typing (codes "load " ++ codes "a")) (codes "load " ++ codes "a")
unfolding lacks
typed_load = record {
  typed = refl;
  ok = literal-IsLine _ (omega arith) refl refl;
  filled = omega arith;
}

typed_get : Types (typing (codes "get " ++ codes "a")) (codes "get " ++ codes "a")
unfolding lacks
typed_get = record {
  typed = refl;
  ok = literal-IsLine _ (omega arith) refl refl;
  filled = omega arith;
}

typed_quit : Types (typing (codes "quit")) (codes "quit")
unfolding lacks
typed_quit = record {
  typed = refl;
  ok = literal-IsLine _ (omega arith) refl refl;
  filled = omega arith;
}

write_file_keeps :
    (d : Disk) (path bytes other : List ℕ)
    → file_at other ≢ file_at path
    → (write_file d path bytes).content other ≡ d.content other
write_file_keeps d path bytes other h =
    elim (Bool-cases (same_text (file_at other) (file_at path))) [
      | inl e ↦ absurd (h ((same_text_iff (file_at other) (file_at path)).0 e))
      | inr e ↦ rw e
    ]

-- Behind a failed accept, a client breaks off its load of another file.
abbrev another : List (Option Connection)
another =
    none ∷ some (record { choices = any_sizes; stream = codes "load b" ++ (newline ∷ []) }) ∷ []

abbrev uploaded : Disk
uploaded = write_file no_files (file_path (codes "a")) (unlines two_lines)

another-spares :
    All
      (λ path. file_at path ≢ file_at (file_path (codes "a")))
      (all_saves write_file uploaded another)
unfolding all_saves saves line_saves command_saves command round_end line_end command_end
    kept_on_disk disk_behind recv_line until same_text has_prefix print_decimal cmd_uplode read_size
another-spares = ((λ e. let t : false ≡ true = (same_text_iff _ _).1 e in cc), tt)

uploaded_download_example :
    (up : List ℕ) × (down : List ℕ) × (streams write_file no_files (
        (none ∷ [])
        ++ (some (connection any_sizes (upload_acts (codes "a") (unlines two_lines)))
            ∷ (another
                ++ (some (connection any_sizes (download_acts (codes "a") (unlines two_lines)))
                    ∷ []))))
      ≡ streams write_file no_files (none ∷ [])
        ++ (some up ∷ (streams write_file uploaded another ++ (some down ∷ []))))
    × (client (typing (codes "load " ++ codes "a") ∷ typing (codes "quit") ∷ []) up
        ≡ (upload_acts (codes "a") (unlines two_lines), quitted))
    × (client (typing (codes "get " ++ codes "a") ∷ typing (codes "quit") ∷ []) down
        ≡ (download_acts (codes "a") (unlines two_lines), quitted))
unfolding serve_clients
uploaded_download_example =
    uploaded_download write_file file_at no_files (codes "a") two_lines
      (typing (codes "load " ++ codes "a")) (typing (codes "quit"))
      (typing (codes "get " ++ codes "a")) (typing (codes "quit")) any_sizes any_sizes (none ∷ [])
      another write_file_reads write_file_keeps two_lines-IsStored (omega arith) (omega arith) refl
      refl another-spares typed_load
      (record { found = refl; command_sent = refl; sized = refl; size_sent = refl; uncut = refl })
      typed_quit refl typed_get refl refl typed_quit refl
