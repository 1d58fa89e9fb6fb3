-- ===== src/Files/TalkTests.antt =====
-- A session of the file client, and the theorems on it applied to that session.
use game_network.Files.Upload.{upload_done}
use game_network.Files.Uses.{lists, gets, loads, others, IsShown}
use game_network.Files.Talk.{Uses, then_uses, file_session, quits, load_missing_waits}
use game_network.Files.Exchange.{Types, sent_bytes}
use game_network.Files.Stream.{IsLine, unlines, literal-IsLine, IsStored}
use game_network.Files.Client.{Prompt, Act, ask, client, quitted, show, sent, stored, stream_over}
use game_network.Files.Session.{Round, handle_client}
use game_network.Files.Commands.{Disk, regular_names, send_lines, command_list, end_line}
use game_network.Prelude.{
  ℕ, ◌≡◌, refl, true, none, some, List, [], ◌∷◌, ◌++◌, arith, length, newline, codes, print_decimal,
  lacks, same_text, has_prefix, All, ◌<◌, Option, false,
}

abbrev server_disk : Disk
server_disk = record {
  files_dir = some (
      record { is_reg = true; d_name = codes "a" }
      ∷ record { is_reg = false; d_name = codes ".." }
      ∷ []);
  content = λ name. some (unlines (codes "hp 100" ∷ codes "x 3" ∷ []));
  writable = λ name. true;
}

abbrev server_round : ℕ → Round
server_round k = record { disk = server_disk; ready_sent = true; sizes = λ j. 1 }

-- A round in which the user types the line.
abbrev typing : Option (List ℕ) → List ℕ → Prompt
typing file line = record {
  input = some (line ++ (newline ∷ []));
  sends = true;
  opens = true;
  local = file;
  sized = true;
  size_sent = true;
  cut = none;
}

typed_line :
    (file : Option (List ℕ)) (line : List ℕ)
    → IsLine line
    → 0 < length line
    → Types (typing file line) line
typed_line file line h more = record { typed = refl; ok = h; filled = more }

list-IsLine : IsLine (codes "list")
unfolding lacks
list-IsLine = literal-IsLine _ (omega arith) refl refl

get-IsLine : IsLine (codes "get " ++ codes "a")
unfolding lacks
get-IsLine = literal-IsLine _ (omega arith) refl refl

load-IsLine : IsLine (codes "load " ++ codes "a")
unfolding lacks
load-IsLine = literal-IsLine _ (omega arith) refl refl

help-IsLine : IsLine (codes "help")
unfolding lacks
help-IsLine = literal-IsLine _ (omega arith) refl refl

quit-IsLine : IsLine (codes "quit")
unfolding lacks
quit-IsLine = literal-IsLine _ (omega arith) refl refl

a-IsShown : IsShown (codes "a")
unfolding lacks same_text
a-IsShown = record {
  line = literal-IsLine _ (omega arith) refl refl;
  filled = omega arith;
  not_end = refl;
}

abbrev prompts : List Prompt
prompts =
    typing (some (codes "hp 90")) (codes "list")
    ∷ typing (some (codes "hp 90")) (codes "get " ++ codes "a")
    ∷ typing (some (codes "hp 90")) (codes "load " ++ codes "a")
    ∷ typing (some (codes "hp 90")) (codes "help")
    ∷ typing (some (codes "hp 90")) (codes "quit")
    ∷ []

downloaded_lines : All IsStored (codes "hp 100" ∷ codes "x 3" ∷ [])
unfolding lacks same_text
downloaded_lines = (
  record {
    line = literal-IsLine _ (omega arith) refl refl;
    filled = omega arith;
    not_start = refl;
    not_end = refl;
  },
  (
    record {
      line = literal-IsLine _ (omega arith) refl refl;
      filled = omega arith;
      not_start = refl;
      not_end = refl;
    },
    tt,
  ),
)

abbrev acts : List Act
acts =
    show command_list
    ∷ sent (codes "list" ++ (newline ∷ []))
    ∷ show (codes "Files:")
    ∷ show (codes "a")
    ∷ show end_line
    ∷ show command_list
    ∷ sent (codes "get a" ++ (newline ∷ []))
    ∷ stored (codes "downloaded_a") (unlines (codes "hp 100" ∷ codes "x 3" ∷ []))
    ∷ show command_list
    ∷ sent (codes "load a" ++ (newline ∷ []))
    ∷ sent (codes "5" ++ (newline ∷ []))
    ∷ sent (codes "hp 90")
    ∷ show upload_done
    ∷ show command_list
    ∷ sent (codes "help" ++ (newline ∷ []))
    ∷ show (codes "Unknown command")
    ∷ show command_list
    ∷ sent (codes "quit" ++ (newline ∷ []))
    ∷ []

uses : Uses prompts server_round acts
unfolding regular_names ask same_text has_prefix print_decimal
uses =
    (then_uses
      (lists
        (record { is_reg = true; d_name = codes "a" }
          ∷ record { is_reg = false; d_name = codes ".." }
          ∷ [])
        (typed_line (some (codes "hp 90")) _ list-IsLine (omega arith)) refl refl (a-IsShown, tt))
      (then_uses
        (gets (codes "a") (codes "hp 100" ∷ codes "x 3" ∷ [])
          (typed_line (some (codes "hp 90")) _ get-IsLine (omega arith)) refl refl refl
          downloaded_lines)
        (then_uses
          (loads (codes "a") (codes "hp 90")
            (typed_line (some (codes "hp 90")) _ load-IsLine (omega arith))
            (record {
              found = refl;
              command_sent = refl;
              sized = refl;
              size_sent = refl;
              uncut = refl;
            })
            refl refl (omega arith) (omega arith))
          (then_uses
            (others (codes "help") (typed_line (some (codes "hp 90")) _ help-IsLine (omega arith))
              refl refl)
            (quits (typed_line (some (codes "hp 90")) _ quit-IsLine (omega arith)) refl)))))

file_session_example :
    (stream : List ℕ) × (send_lines (handle_client server_round (sent_bytes acts)) ≡ some stream)
    × (client prompts stream ≡ (acts, quitted))
file_session_example = file_session prompts server_round acts uses

load_missing_waits_example :
    (stream : List ℕ) × (send_lines
        (handle_client server_round (sent_bytes (show command_list ∷ [])))
      ≡ some stream)
    × (client
          (typing none (codes "load " ++ codes "a")
            ∷ typing (some (codes "hp 90")) (codes "list")
            ∷ [])
          stream
        ≡ (show command_list ∷ [], stream_over))
load_missing_waits_example =
    load_missing_waits (typing none (codes "load " ++ codes "a"))
      (typing (some (codes "hp 90")) (codes "list")) [] server_round (codes "a")
      (typed_line none (codes "load " ++ codes "a") load-IsLine (omega arith)) refl
