-- ===== src/Files/Transfer.antt =====
-- From the server's `get` to the client's file.
use game_network.Prelude.{
  ℕ, suc, ◌+◌, ◌-◌, ◌≤◌, ◌≡◌, refl, ◌∙◌, none, some, List, [], ◌∷◌, ◌++◌, append_assoc, append-nil,
  arith, All, length, newline, same_text, codes, All-append, lacks, All-mono,
}
use game_network.Files.Commands.{
  Disk, send_lines, cmd_get, file_path, start_line, end_line, command_list,
}
use game_network.Files.Download.{download}
use game_network.Files.Stream.{
  IsLine, IsStored, cmd_get_sent, download_blank, download_end, download_lines, download_start,
  literal-IsLine, send_lines-unlines, unlines, unlines-append,
}

blank-IsLine : IsLine []
unfolding lacks
blank-IsLine = literal-IsLine [] (omega arith) refl refl

-- The client on an answer whose stored lines are followed by `more`.
download_answer :
    (k : ℕ) (ls : List (List ℕ)) (more : List ℕ)
    → All IsStored ls
    → download (suc (length ls + k)) (start_line ++ (newline ∷ (unlines ls ++ more)))
      ≡ (unlines ls ++ (download k more).0, (download k more).1)
download_answer k ls more h =
    download_start (length ls + k) (unlines ls ++ more) ∙ download_lines k ls more h

answer_end :
    (ls : List (List ℕ)) (rest : List ℕ)
    → unlines (ls ++ (end_line ∷ [])) ++ rest ≡ unlines ls ++ (end_line ++ (newline ∷ rest))
answer_end ls rest =
    rw (unlines-append ls (end_line ∷ []))
      (append_assoc (unlines ls) (end_line ++ (newline ∷ [])) rest)

answer_blank :
    (pre post : List (List ℕ)) (rest : List ℕ)
    → unlines ((pre ++ ([] ∷ post)) ++ (end_line ∷ [])) ++ rest
      ≡ unlines pre ++ (newline ∷ (unlines post ++ (end_line ++ (newline ∷ rest))))
answer_blank pre post rest =
    answer_end (pre ++ ([] ∷ post)) rest
    ∙ rw (unlines-append pre ([] ∷ post))
        (append_assoc (unlines pre) (newline ∷ unlines post) (end_line ++ (newline ∷ rest)))

-- The fuel behind START and the stored lines.
fuel_left : (n fuel : ℕ) → n + 2 ≤ fuel → fuel ≡ suc (n + suc (fuel - (n + 2)))
fuel_left n fuel h = omega arith

pub stored-IsLine : (ls : List (List ℕ)) → All IsStored ls → All IsLine ls
stored-IsLine ls h = All-mono {P = IsStored} ls (λ l s. s.line) h

abbrev message : List (List ℕ)
message = codes "File not found" ∷ command_list ∷ []

message-IsStored : All IsStored message
unfolding lacks same_text
message-IsStored = (
  record {
    line = literal-IsLine _ (omega arith) refl refl;
    filled = omega arith;
    not_start = refl;
    not_end = refl;
  },
  (
    record {
      line = literal-IsLine _ (omega arith) refl refl;
      filled = omega arith;
      not_start = refl;
      not_end = refl;
    },
    tt,
  ),
)

cmd_get_missing :
    (disk : Disk) (name : List ℕ)
    → disk.content (file_path name) ≡ none
    → cmd_get disk name ++ (command_list ∷ []) ≡ message
unfolding cmd_get
cmd_get_missing disk name e = rw (e, cmd_get)

two_more : (fuel : ℕ) → suc (suc fuel) ≡ 2 + fuel
two_more fuel = omega arith

-- The client's loop on the lines that answer a `get`, with fuel for them.
pub download_framed :
    (ls : List (List ℕ)) (rest : List ℕ) (fuel : ℕ)
    → All IsStored ls
    → length ls + 2 ≤ fuel
    → download fuel (unlines (start_line ∷ (ls ++ (end_line ∷ []))) ++ rest) ≡ (unlines ls, rest)
download_framed ls rest fuel h enough =
    let left = fuel - (length ls + 2) in
    rw (fuel_left (length ls) fuel enough) (
      rw (answer_end ls rest) (
        download_answer (suc left) ls (end_line ++ (newline ∷ rest)) h
        ∙ rw (download_end left rest) (rw (append-nil (unlines ls)))))

-- A text file whose lines are not empty, shorter than 4095 bytes, without NUL and none of START and
-- END arrives at the client as it is on the server's disk, and the client's loop ends with the
-- stream at the server's next line; the number of lines and two is fuel enough.
download-cmd_get :
    (disk : Disk) (name : List ℕ) (ls : List (List ℕ)) (rest : List ℕ) (fuel : ℕ)
    → disk.content (file_path name) ≡ some (unlines ls)
    → All IsStored ls
    → length ls + 2 ≤ fuel
    → (sent : List ℕ) × (send_lines (cmd_get disk name) ≡ some sent)
      × (download fuel (sent ++ rest) ≡ (unlines ls, rest))
download-cmd_get disk name ls rest fuel e h enough = (
  unlines (start_line ∷ (ls ++ (end_line ∷ []))),
  cmd_get_sent disk name ls e (stored-IsLine ls h),
  download_framed ls rest fuel h enough,
)

-- A file with an empty line, behind lines that the client stores and in front of lines that the
-- protocol can carry: the client's loop ends at it with the lines before it in the file, and the
-- lines behind it and the server's END stay in the stream.
pub download_blank_line :
    (disk : Disk) (name : List ℕ) (pre post : List (List ℕ)) (rest : List ℕ) (fuel : ℕ)
    → disk.content (file_path name) ≡ some (unlines (pre ++ ([] ∷ post)))
    → All IsStored pre
    → All IsLine post
    → length pre + 2 ≤ fuel
    → (sent : List ℕ) × (send_lines (cmd_get disk name) ≡ some sent)
      × (download fuel (sent ++ rest)
          ≡ (unlines pre, unlines post ++ (end_line ++ (newline ∷ rest))))
download_blank_line disk name pre post rest fuel e h g enough = (
  unlines (start_line ∷ ((pre ++ ([] ∷ post)) ++ (end_line ∷ []))),
  cmd_get_sent disk name (pre ++ ([] ∷ post)) e
      (All-append IsLine pre ([] ∷ post) (stored-IsLine pre h) (blank-IsLine, g)),
  rw (fuel_left (length pre) fuel enough) (
      rw (answer_blank pre post rest) (
        download_answer (suc left) pre (newline ∷ behind) h
        ∙ rw (download_blank left behind) (rw (append-nil (unlines pre))))),
)
  where
    left : ℕ
    left = fuel - (length pre + 2)

    behind : List ℕ
    behind = unlines post ++ (end_line ++ (newline ∷ rest))

-- When the file is missing on the server, the client's loop stores the server's message and its
-- list of commands in the file, and goes on reading.
download_missing :
    (disk : Disk) (name rest : List ℕ) (fuel : ℕ)
    → disk.content (file_path name) ≡ none
    → (sent : List ℕ) × (send_lines (cmd_get disk name ++ (command_list ∷ [])) ≡ some sent)
      × (download (suc (suc fuel)) (sent ++ rest)
          ≡ (sent ++ (download fuel rest).0, (download fuel rest).1))
download_missing disk name rest fuel e = (
  unlines message,
  rw (cmd_get_missing disk name e)
      (send_lines-unlines message (stored-IsLine message message-IsStored)),
  rw (two_more fuel) (download_lines fuel message rest message-IsStored),
)
