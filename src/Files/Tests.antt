-- ===== src/Files/Tests.antt =====
-- A directory with a text file, and the theorems on the file server applied to it.

use game_network.Prelude.{
  ℕ, suc, ◌≡◌, refl, true, none, some, List, [], ◌∷◌, ◌++◌, arith, length, newline, codes,
  print_decimal, lacks, same_text, has_prefix,
}
use game_network.Files.Commands.{Disk, send_lines, cmd_get, command_list}
use game_network.Files.Download.{download}
use game_network.Files.Stream.{IsLine, IsStored, literal-IsLine, unlines}
use game_network.Files.Transfer.{download_blank_line}
use game_network.Files.Upload.{ready, upload_done, cmd_uplode}
use game_network.Files.Send.{send_file, cmd_uplode_cut}
use game_network.Files.Session.{Round, command, handle_client, handle_loop}
use game_network.Files.Fuel.{handle_loop_enough}
use game_network.Files.Conversation.{IsPlain, later, handle_client_upload}

abbrev first_line : List ℕ
first_line = codes "hp 100"

abbrev other_line : List ℕ
other_line = codes "x 3"

-- Every name but `gone` opens, as a file of two lines with `between` between them.
abbrev disk_with : List (List ℕ) → Disk
disk_with between = record {
  files_dir = some [];
  content = λ path. some (unlines ((first_line ∷ []) ++ (between ++ (other_line ∷ []))));
  writable = λ path. true;
}

abbrev no_files : Disk
no_files = record { files_dir = none; content = λ path. none; writable = λ path. true }

first-IsStored : IsStored first_line
unfolding lacks same_text
first-IsStored = record {
  line = literal-IsLine first_line (omega arith) refl refl;
  filled = omega arith;
  not_start = refl;
  not_end = refl;
}

other-IsStored : IsStored other_line
unfolding lacks same_text
other-IsStored = record {
  line = literal-IsLine other_line (omega arith) refl refl;
  filled = omega arith;
  not_start = refl;
  not_end = refl;
}

download_blank_line_example :
    (sent : List ℕ) × (send_lines (cmd_get (disk_with ([] ∷ [])) (codes "a")) ≡ some sent)
    × (download 3 (sent ++ (7 ∷ [])) ≡ (
      unlines (first_line ∷ []),
      unlines (other_line ∷ []) ++ (codes "END ==========" ++ (newline ∷ 7 ∷ [])),
    ))
download_blank_line_example =
    download_blank_line (disk_with ([] ∷ [])) (codes "a") (first_line ∷ []) (other_line ∷ [])
      (7 ∷ []) 3 refl (first-IsStored, tt) (other-IsStored.line, tt) (omega arith)

abbrev one_byte : ℕ → ℕ
one_byte round = 0

cmd_uplode_cut_example :
    cmd_uplode no_files true 9 one_byte (codes "a") (print_decimal 9 ++ (newline ∷ first_line))
    ≡ record { replies = ready ∷ []; file = some first_line; rest = [] }
cmd_uplode_cut_example =
    cmd_uplode_cut no_files 9 one_byte (codes "a") first_line 9 refl (omega arith) (omega arith)
      (omega arith)

abbrev round : ℕ → Round
round k = record { disk = disk_with []; ready_sent = true; sizes = one_byte }

get-IsPlain : IsPlain (codes "get a")
unfolding command same_text has_prefix lacks
get-IsPlain = record {
  line_ok = literal-IsLine _ (omega arith) refl refl;
  filled = omega arith;
  plain = refl;
}

list-IsPlain : IsPlain (codes "list")
unfolding command same_text has_prefix lacks
list-IsPlain = record {
  line_ok = literal-IsLine _ (omega arith) refl refl;
  filled = omega arith;
  plain = refl;
}

load-IsLine : IsLine (codes "load " ++ codes "a")
unfolding lacks
load-IsLine = literal-IsLine _ (omega arith) refl refl

handle_client_upload_example :
    (sent : List ℕ) × (send_file first_line ≡ some sent)
    × ((cmd_uplode
          (disk_with [])
          true
          (suc (length (sent ++ [])))
          one_byte
          (codes "a")
          (sent ++ [])).file
        ≡ some first_line)
    × (handle_client round ((codes "load " ++ codes "a") ++ (newline ∷ (sent ++ [])))
        ≡ command_list ∷ ready ∷ upload_done ∷ handle_client (later round) [])
handle_client_upload_example =
    handle_client_upload round (codes "a") first_line [] load-IsLine refl refl (omega arith)
      (omega arith)

handle_loop_enough_example :
    handle_loop 9 round (codes "list" ++ (newline ∷ []))
    ≡ handle_loop 6 round (codes "list" ++ (newline ∷ []))
handle_loop_enough_example =
    handle_loop_enough 9 6 round (codes "list" ++ (newline ∷ [])) (omega arith) (omega arith)
