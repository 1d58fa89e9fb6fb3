-- ===== src/Echo/Builds.antt =====
-- The Linux and the Windows build of the datagram echo of week9, against each other.
use game_network.Echo.Datagram.{
  linux_server, linux_client, windows_client, windows_server, linux_answer, windows_answer,
  typed_reads, linux_rounds,
}
use game_network.Prelude.{
  zero, suc, ℕ, ◌<◌, ◌≡◌, refl, ap, ◌∙◌, ltb, true, false, none, some, Option, List, [], ◌∷◌, ◌++◌,
  arith, All, All-append, length, map, until, until_all, until-append, newline, Lacks, ◌==◌, ◌-◌,
  suc, ◌≤◌,
}
use game_network.Files.Stream.{unlines, fgets_line, length-le-unlines}
use game_network.Echo.Stream.{closed, Run, send_first, show_first, buf_size, End, quitted, running}

-- Texts that are each shown and sent, and what follows them.
abbrev pub echoes : List (List ℕ) → Run → Run
echoes [] run = run
echoes (text ∷ texts) run = show_first text (send_first text (echoes texts run))

-- The string that the buffer holds behind datagrams.
abbrev pub last_text : List ℕ → List (List ℕ) → List ℕ
last_text buffer [] = buffer
last_text buffer (bytes ∷ datagrams) = last_text (until 0 bytes) datagrams

-- Datagrams of at most 1023 bytes, and then an error of recvfrom: the Windows build shows each up
-- to its first NUL, sends each back whole, and ends at the error. The Linux build shows the same,
-- sends each up to its first NUL, shows and sends at the error the string that its buffer holds
-- once more, and goes on with what comes behind the error.
pub linux_server-windows_server :
    (buffer : List ℕ) (datagrams : List (List ℕ)) (more : List (Option (List ℕ)))
    → All (λ bytes. length bytes < buf_size) datagrams
    → (windows_server (map some datagrams ++ (none ∷ more))
        ≡ record { sends = datagrams; shows = map (until 0) datagrams; end = closed })
      × (linux_server buffer (map some datagrams ++ (none ∷ more))
          ≡ echoes
              (map (until 0) datagrams ++ (last_text buffer datagrams ∷ []))
              (linux_server (last_text buffer datagrams) more))
unfolding linux_server windows_server
linux_server-windows_server buffer [] more h = (refl, refl)
linux_server-windows_server buffer (bytes ∷ datagrams) more h =
    let rest = linux_server-windows_server (until 0 bytes) datagrams more h.1 in
    let fits : ltb (length bytes) buf_size ≡ true = ground (arith, h.0) in
    rw fits (
      ap (λ run. show_first (until 0 bytes) (send_first bytes run)) rest.0,
      ap (λ run. show_first (until 0 bytes) (send_first (until 0 bytes) run)) rest.1,
    )

-- A line that is typed, without its newline. It may be empty.
pub record IsTyped (line : List ℕ) : Type 0 where
  pub no_nul : Lacks 0 line
  pub no_newline : Lacks newline line
  pub short : length line < buf_size - 1

abbrev pub echoed : List (List ℕ) → End → Run
echoed lines end = record { sends = lines; shows = lines; end = end }

server_lines :
    (buffer : List ℕ) (lines : List (List ℕ))
    → All IsTyped lines
    → (linux_server buffer (map some lines) ≡ echoed lines running)
      × (windows_server (map some lines) ≡ echoed lines running)
unfolding linux_server windows_server
server_lines buffer [] h = (refl, refl)
server_lines buffer (line ∷ lines) h =
    let rest = server_lines line lines h.1 in
    let fits : ltb (length line) buf_size ≡ true = ground (arith, h.0.short) in
    rw (fits, until_all 0 line h.0.no_nul)
      (
        ap (λ run. show_first line (send_first line run)) rest.0,
        ap (λ run. show_first line (send_first line run)) rest.1,
      )

typed_text :
    (line : List ℕ) → IsTyped line → until newline (until 0 (line ++ (newline ∷ []))) ≡ line
typed_text line h =
    ap (until newline) (
      until_all 0 (line ++ (newline ∷ []))
        (All-append (λ b. (b == 0) ≡ false) line (newline ∷ []) h.no_nul (refl, tt)))
    ∙ until-append newline line [] h.no_newline

typed_reads_line :
    (fuel : ℕ) (line rest : List ℕ)
    → IsTyped line
    → typed_reads (suc fuel) (line ++ (newline ∷ rest))
      ≡ some (line ++ (newline ∷ [])) ∷ typed_reads fuel rest
unfolding typed_reads
typed_reads_line fuel [] rest h = rw (fgets_line (buf_size - 1) [] rest h.short h.no_newline)
typed_reads_line fuel (b ∷ line) rest h =
    rw (fgets_line (buf_size - 1) (b ∷ line) rest h.short h.no_newline)

linux_rounds_lines :
    (fuel : ℕ) (lines : List (List ℕ))
    → length lines ≤ fuel
    → All IsTyped lines
    → linux_rounds (typed_reads fuel (unlines lines)) (map some lines) ≡ echoed lines quitted
unfolding linux_rounds linux_answer typed_reads
linux_rounds_lines zero [] n h = refl
linux_rounds_lines (suc fuel) [] n h = refl
linux_rounds_lines zero (line ∷ lines) n h = absurd (omega arith)
linux_rounds_lines (suc fuel) (line ∷ lines) n h =
    let fits : ltb (length line) buf_size ≡ true = ground (arith, h.0.short) in
    ap (λ reads. linux_rounds reads (some line ∷ map some lines))
      (typed_reads_line fuel line (unlines lines) h.0)
    ∙ rw (fits, until_all 0 line h.0.no_nul, typed_text line h.0)
        (ap (λ run. send_first line (show_first line run))
          (linux_rounds_lines fuel lines (omega arith) h.1))

linux_client_lines :
    (lines : List (List ℕ))
    → All IsTyped lines
    → linux_client (unlines lines) (map some lines) ≡ echoed lines quitted
unfolding linux_client
linux_client_lines lines h =
    linux_rounds_lines (length (unlines lines)) lines (length-le-unlines lines) h

windows_client_lines :
    (lines : List (List ℕ))
    → All IsTyped lines
    → windows_client (map some lines ++ (none ∷ [])) (map some lines) ≡ echoed lines quitted
unfolding windows_client windows_answer
windows_client_lines [] h = refl
windows_client_lines (line ∷ lines) h =
    let fits : ltb (length line) buf_size ≡ true = ground (arith, h.0.short) in
    rw (fits, until_all 0 line h.0.no_nul)
      (ap (λ run. send_first line (show_first line run)) (windows_client_lines lines h.1))

-- Lines of at most 1022 bytes without NUL and newline, which may be empty, and the end of the input
-- behind them, each datagram taken by one recvfrom: either server shows and returns what it
-- receives, and either client sends and shows each line, without its newline, and ends.
pub datagram_talk :
    (buffer : List ℕ) (lines : List (List ℕ))
    → All IsTyped lines
    → (linux_client (unlines lines) (map some lines) ≡ echoed lines quitted)
      × (windows_client (map some lines ++ (none ∷ [])) (map some lines) ≡ echoed lines quitted)
      × (linux_server buffer (map some lines) ≡ echoed lines running)
      × (windows_server (map some lines) ≡ echoed lines running)
datagram_talk buffer lines h =
    let (linux, windows) = server_lines buffer lines h in
    (linux_client_lines lines h, windows_client_lines lines h, linux, windows)
