-- ===== src/Files/Conversation.antt =====
-- Conversations with `handle_client`, and what the client's uploads and downloads do in them.

use game_network.Prelude.{
  ℕ, suc, ◌-◌, ◌<◌, ◌≡◌, refl, ap, ◌∙◌, true, false, some, List, [], ◌∷◌, ◌++◌, append_assoc, arith,
  length, length-append, until_all, newline, codes, All, Bool, same_text, Option, sym, has_prefix,
  print_decimal,
}
use game_network.Files.Line.{buf_size, recv_line_fits}
use game_network.Files.Commands.{Disk, command_list, file_path, cmd_list, cmd_get}
use game_network.Files.Stream.{IsLine, unlines}
use game_network.Files.Upload.{ready, upload_done, cmd_uplode}
use game_network.Files.Send.{send_file, file_message, send_file_small, cmd_uplode-file_message}
use game_network.Files.Session.{
  Command, list, quit, unknown, get, load, command, Round, handle_command, handle_line, handle_loop,
  handle_client,
}
use game_network.Files.Fuel.{handle_loop_enough}

-- The rounds behind the first.
abbrev pub later : (ℕ → Round) → ℕ → Round
later rounds k = rounds (suc k)

handle_loop_line :
    (fuel : ℕ) (rounds : ℕ → Round) (line rest : List ℕ)
    → IsLine line
    → 0 < length line
    → handle_loop (suc fuel) rounds (line ++ (newline ∷ rest))
      ≡ handle_command (handle_loop fuel (later rounds)) (rounds 0) (command line) rest
unfolding handle_loop handle_line
handle_loop_line fuel rounds [] rest h more = absurd (omega arith)
handle_loop_line fuel rounds (b ∷ bs) rest h more =
    rw (recv_line_fits (buf_size - 1) (b ∷ bs) rest h.short h.no_newline)
      (rw (handle_line, until_all 0 (b ∷ bs) h.no_nul))

-- The lines that answer a command which reads nothing more of the stream.
abbrev pub answer : Disk → Command → List (List ℕ)
answer disk list = cmd_list disk
answer disk quit = []
answer disk unknown = codes "Unknown command" ∷ []
answer disk (get name) = cmd_get disk name
answer disk (load name) = []

-- A command whose line is all that the server reads of it.
abbrev pub is_plain : Command → Bool
is_plain quit = false
is_plain (load name) = false
is_plain list = true
is_plain unknown = true
is_plain (get name) = true

-- A line that is such a command.
pub record IsPlain (line : List ℕ) : Type 0 where
  pub line_ok : IsLine line
  pub filled : 0 < length line
  pub plain : is_plain (command line) ≡ true

handle_command_plain :
    (next : List ℕ → List (List ℕ)) (round : Round) (c : Command) (rest : List ℕ)
    → is_plain c ≡ true
    → handle_command next round c rest ≡ answer round.disk c ++ (command_list ∷ next rest)
unfolding handle_command
handle_command_plain next round list rest h = refl
handle_command_plain next round quit rest h = cc
handle_command_plain next round unknown rest h = refl
handle_command_plain next round (get name) rest h = refl
handle_command_plain next round (load name) rest h = cc

-- What follows the first line of a connection, with fuel for it.
pub handle_client_line :
    (rounds : ℕ → Round) (line rest : List ℕ)
    → IsLine line
    → 0 < length line
    → handle_client rounds (line ++ (newline ∷ rest))
      ≡ command_list
        ∷ handle_command
            (handle_loop (length (line ++ (newline ∷ rest))) (later rounds))
            (rounds 0)
            (command line)
            rest
unfolding handle_client
handle_client_line rounds line rest h more =
    ap (◌∷◌ command_list)
      (handle_loop_line (length (line ++ (newline ∷ rest))) rounds line rest h more)

handle_client_later :
    (fuel : ℕ) (rounds : ℕ → Round) (rest : List ℕ)
    → length rest < fuel
    → command_list ∷ handle_loop fuel rounds rest ≡ handle_client rounds rest
unfolding handle_client
handle_client_later fuel rounds rest h =
    ap (◌∷◌ command_list) (handle_loop_enough fuel (suc (length rest)) rounds rest h (omega arith))

pub handle_client_plain :
    (rounds : ℕ → Round) (line rest : List ℕ)
    → IsPlain line
    → handle_client rounds (line ++ (newline ∷ rest))
      ≡ command_list ∷ (answer (rounds 0).disk (command line) ++ handle_client (later rounds) rest)
handle_client_plain rounds line rest h =
    let fuel = length (line ++ (newline ∷ rest)) in
    handle_client_line rounds line rest h.line_ok h.filled
    ∙ ap (◌∷◌ command_list) (
        handle_command_plain (handle_loop fuel (later rounds)) (rounds 0) (command line) rest
          h.plain
        ∙ ap (◌++◌ (answer (rounds 0).disk (command line))) (
            handle_client_later fuel (later rounds) rest
              (omega (arith, length-append line (newline ∷ rest)))))

-- For each command, the list of commands and the answer.
abbrev pub transcript : (ℕ → Round) → List (List ℕ) → List (List ℕ)
transcript rounds [] = []
transcript rounds (line ∷ lines) =
    command_list ∷ (answer (rounds 0).disk (command line) ++ transcript (later rounds) lines)

abbrev pub after : List (List ℕ) → (ℕ → Round) → ℕ → Round
after [] rounds = rounds
after (line ∷ lines) rounds = after lines (later rounds)

-- Commands other than load and quit, one behind the other, each on a line that the protocol can
-- carry, are each answered behind a list of commands, from the disk as it is in that round, and the
-- stream is handled on behind them.
handle_client-unlines :
    (rounds : ℕ → Round) (lines : List (List ℕ)) (rest : List ℕ)
    → All IsPlain lines
    → handle_client rounds (unlines lines ++ rest)
      ≡ transcript rounds lines ++ handle_client (after lines rounds) rest
handle_client-unlines rounds [] rest h = refl
handle_client-unlines rounds (line ∷ lines) rest h =
    rw (append_assoc line (newline ∷ unlines lines) rest) (
      handle_client_plain rounds line (unlines lines ++ rest) h.0
      ∙ rw (handle_client-unlines (later rounds) lines rest h.1) (
          ap (◌∷◌ command_list) (
            sym (
              append_assoc (answer (rounds 0).disk (command line)) (transcript (later rounds) lines)
                (handle_client (after lines (later rounds)) rest)))))

pub command_load : (name : List ℕ) → command (codes "load " ++ name) ≡ load name
unfolding command same_text has_prefix
command_load name = refl

handle_command_load :
    (next : List ℕ → List (List ℕ)) (round : Round) (name rest last : List ℕ)
    (lines : List (List ℕ)) (kept : Option (List ℕ))
    → cmd_uplode round.disk round.ready_sent (suc (length rest)) round.sizes name rest
      ≡ record { replies = lines; file = kept; rest = last }
    → handle_command next round (load name) rest ≡ lines ++ (command_list ∷ next last)
unfolding handle_command
handle_command_load next round name rest last lines kept e =
    ap (λ up. up.replies ++ (command_list ∷ next up.rest)) e

-- The rounds of an upload on the server.
pub handle_client_file :
    (rounds : ℕ → Round) (name file rest : List ℕ)
    → IsLine (codes "load " ++ name)
    → (rounds 0).ready_sent ≡ true
    → (rounds 0).disk.writable (file_path name) ≡ true
    → 0 < length file
    → length file < 2147483648
    → handle_client rounds ((codes "load " ++ name) ++ (newline ∷ (file_message file ++ rest)))
      ≡ command_list ∷ ready ∷ upload_done ∷ handle_client (later rounds) rest
handle_client_file rounds name file rest h ok w more small =
    let fuel = length ((codes "load " ++ name) ++ (newline ∷ (file_message file ++ rest))) in
    let len = length-append (codes "load " ++ name) (newline ∷ (file_message file ++ rest)) in
    let len_rest = length-append (file_message file) rest in
    let len_file = length-append (print_decimal (length file) ++ (newline ∷ [])) file in
    let up =
      cmd_uplode-file_message (rounds 0).disk (suc (length (file_message file ++ rest)))
        (rounds 0).sizes name file rest w more small (omega arith) in
    handle_client_line rounds (codes "load " ++ name) (file_message file ++ rest) h (omega arith)
    ∙ ap (◌∷◌ command_list) (
        ap
          (λ c.
            handle_command (handle_loop fuel (later rounds)) (rounds 0) c
              (file_message file ++ rest))
          (command_load name)
        ∙ handle_command_load (handle_loop fuel (later rounds)) (rounds 0) name
            (file_message file ++ rest) rest (ready ∷ upload_done ∷ []) (some file) (rw ok up)
        ∙ ap (λ xs. ready ∷ upload_done ∷ xs)
            (handle_client_later fuel (later rounds) rest (omega arith)))

-- In a round whose send of READY succeeds and whose file the server can open for writing, a
-- client's `load` line, carried by the protocol, with the announcement and the bytes of a file that
-- is not empty and smaller than 2 GiB behind it: the server keeps the file byte for byte, however
-- the kernel cuts the stream, answers READY and UPLOAD DONE, and handles the bytes behind the file
-- as the rest of the connection.
pub handle_client_upload :
    (rounds : ℕ → Round) (name file rest : List ℕ)
    → IsLine (codes "load " ++ name)
    → (rounds 0).ready_sent ≡ true
    → (rounds 0).disk.writable (file_path name) ≡ true
    → 0 < length file
    → length file < 2147483648
    → (sent : List ℕ) × (send_file file ≡ some sent)
      × ((cmd_uplode
            (rounds 0).disk
            true
            (suc (length (sent ++ rest)))
            (rounds 0).sizes
            name
            (sent ++ rest)).file
          ≡ some file)
      × (handle_client rounds ((codes "load " ++ name) ++ (newline ∷ (sent ++ rest)))
          ≡ command_list ∷ ready ∷ upload_done ∷ handle_client (later rounds) rest)
handle_client_upload rounds name file rest h ok w more small = (
  file_message file,
  send_file_small file small,
  ap (λ u. u.file)
      (cmd_uplode-file_message (rounds 0).disk (suc (length (file_message file ++ rest)))
        (rounds 0).sizes name file rest w more small
        (omega (
          arith,
          length-append (file_message file) rest,
          length-append (print_decimal (length file) ++ (newline ∷ [])) file,
        ))),
  handle_client_file rounds name file rest h ok w more small,
)
