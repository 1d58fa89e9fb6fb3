-- ===== src/Files/Left.antt =====
-- What a client of the file server does that uploads or downloads one file, and the disk behind an
-- upload.
use game_network.Prelude.{
  ℕ, zero, suc, ◌<◌, ◌≡◌, refl, ap, ◌∙◌, true, some, List, [], ◌∷◌, ◌++◌, length, newline, codes,
  until, until_all, print_decimal, list_laws, length-append, arith, lacks, same_text, has_prefix,
}
use game_network.Files.Line.{recv_line}
use game_network.Files.Commands.{Disk, command_list, file_path}
use game_network.Files.Conversation.{command_load}
use game_network.Files.Stream.{literal-IsLine, IsLine}
use game_network.Files.Upload.{upload_done, cmd_uplode}
use game_network.Files.Send.{file_message, cmd_uplode-file_message}
use game_network.Files.Session.{command}
use game_network.Files.Client.{Act, show, sent, stored, download_name}
use game_network.Files.Exchange.{sent_bytes, recv_line-some}
use game_network.Files.Disks.{Choice, kept_on_disk, command_end, line_end, round_end, disk_behind}

abbrev pub quit_act : List Act
quit_act = show command_list ∷ sent (codes "quit" ++ (newline ∷ [])) ∷ []

-- What a client does that uploads one file, or downloads one, and quits.
abbrev pub upload_acts : List ℕ → List ℕ → List Act
upload_acts name file =
    show command_list
    ∷ sent ((codes "load " ++ name) ++ (newline ∷ []))
    ∷ sent (print_decimal (length file) ++ (newline ∷ []))
    ∷ sent file
    ∷ show upload_done
    ∷ quit_act

abbrev pub download_acts : List ℕ → List ℕ → List Act
download_acts name file =
    show command_list
    ∷ sent ((codes "get " ++ name) ++ (newline ∷ []))
    ∷ stored (download_name name) file
    ∷ quit_act

module _ (write : Disk → List ℕ → List ℕ → Disk) where
  line_end-some :
      (disk : Disk) (choice : Choice) (line rest : List ℕ)
      → IsLine line
      → 0 < length line
      → line_end write disk choice (some line, rest)
        ≡ command_end write disk choice (command line) rest
  unfolding line_end
  line_end-some disk choice [] rest h more = absurd (omega arith)
  line_end-some disk choice (b ∷ bs) rest h more = rw (until_all 0 (b ∷ bs) h.no_nul)

  round_end_line :
      (disk : Disk) (choice : Choice) (line rest : List ℕ)
      → IsLine line
      → 0 < length line
      → round_end write disk choice (line ++ (newline ∷ rest))
        ≡ command_end write disk choice (command line) rest
  unfolding round_end
  round_end_line disk choice line rest h more =
      ap (line_end write disk choice) (recv_line-some line rest h)
      ∙ line_end-some disk choice line rest h more

  round_end_load :
      (disk : Disk) (choice : Choice) (name file rest : List ℕ)
      → IsLine (codes "load " ++ name)
      → choice.ready_sent ≡ true
      → disk.writable (file_path name) ≡ true
      → 0 < length file
      → length file < 2147483648
      → round_end write disk choice
          ((codes "load " ++ name) ++ (newline ∷ (file_message file ++ rest)))
        ≡ some (write disk (file_path name) file, rest)
  unfolding command command_end kept_on_disk
  round_end_load disk choice name file rest h ok w more small =
      round_end_line disk choice (codes "load " ++ name) (file_message file ++ rest) h (omega arith)
      ∙ ap (λ c. command_end write disk choice c (file_message file ++ rest)) (command_load name)
      ∙ ap (λ u. some (kept_on_disk write disk (file_path name) u.file, u.rest))
          (ap
              (λ b.
                cmd_uplode disk b (suc (length (file_message file ++ rest))) choice.sizes name
                  (file_message file ++ rest))
              ok
            ∙ cmd_uplode-file_message disk (suc (length (file_message file ++ rest))) choice.sizes
                name file rest w more small
                (omega (
                  arith,
                  length-append (file_message file) rest,
                  length-append (print_decimal (length file) ++ (newline ∷ [])) file,
                )))

  quit-IsLine : IsLine (codes "quit")
  unfolding lacks
  quit-IsLine = literal-IsLine _ (omega arith) refl refl

  disk_behind_quit :
      (fuel : ℕ) (disk : Disk) (choices : ℕ → Choice)
      → disk_behind write fuel disk choices (codes "quit" ++ (newline ∷ [])) ≡ disk
  unfolding disk_behind round_end line_end command_end recv_line until command same_text has_prefix
  disk_behind_quit zero disk choices = refl
  disk_behind_quit (suc fuel) disk choices = refl

  pub disk_behind-suc :
      (fuel : ℕ) (disk after : Disk) (choices : ℕ → Choice) (stream rest : List ℕ)
      → round_end write disk (choices 0) stream ≡ some (after, rest)
      → disk_behind write (suc fuel) disk choices stream
        ≡ disk_behind write fuel after (λ n. choices (suc n)) rest
  unfolding disk_behind
  disk_behind-suc fuel disk after choices stream rest e = rw (disk_behind, e)

  pub disk_behind_upload :
      (fuel : ℕ) (disk : Disk) (choices : ℕ → Choice) (name file : List ℕ)
      → IsLine (codes "load " ++ name)
      → (choices 0).ready_sent ≡ true
      → disk.writable (file_path name) ≡ true
      → 0 < length file
      → length file < 2147483648
      → disk_behind write (suc fuel) disk choices (sent_bytes (upload_acts name file))
        ≡ write disk (file_path name) file
  unfolding disk_behind
  disk_behind_upload fuel disk choices name file h ok w more small =
      let quit_line = codes "quit" ++ (newline ∷ []) in
      let stream = (codes "load " ++ name) ++ (newline ∷ (file_message file ++ quit_line)) in
      let together : sent_bytes (upload_acts name file) ≡ stream = simp list_laws in
      ap (disk_behind write (suc fuel) disk choices) together
      ∙ disk_behind-suc fuel disk (write disk (file_path name) file) choices stream quit_line
          (round_end_load disk (choices 0) name file quit_line h ok w more small)
      ∙ disk_behind_quit fuel (write disk (file_path name) file) (λ n. choices (suc n))
