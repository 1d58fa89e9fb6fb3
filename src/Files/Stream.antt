-- ===== src/Files/Stream.antt =====
-- The stream that the server's `get` makes, and the client's loop on each line of it.
use mathlib.Core.Option
use game_network.Prelude.{
  ℕ, zero, suc, ◌+◌, ◌-◌, ◌≤◌, ◌<◌, ◌≡◌, refl, ap, ◌∙◌, true, false, ◌==◌, some, List, [], ◌∷◌,
  ◌++◌, append_assoc, map, arith, All, length, length-append, until, until-append, until_all,
  newline, Lacks, same_text, All-append, lacks, lacks→Lacks,
}
use game_network.Files.Line.{buf_size, recv_line, send_line_fits, recv_line_fits}
use game_network.Files.Commands.{
  Disk, send_lines, cmd_get, file_path, file_chunks, fgets, strip, start_line, end_line,
}
use game_network.Files.Download.{write, reply, reply_text, download, after_line}

-- The bytes of the lines, each with its newline: a text file, and a part of the stream.
abbrev pub unlines : List (List ℕ) → List ℕ
unlines [] = []
unlines (l ∷ ls) = l ++ (newline ∷ unlines ls)

-- A line that the protocol can carry.
pub record IsLine (l : List ℕ) : Type 0 where
  pub short : length l < buf_size - 1
  pub no_newline : Lacks newline l
  pub no_nul : Lacks 0 l

-- A line that the client's loop stores.
pub record IsStored (l : List ℕ) : Type 0 where
  pub line : IsLine l
  pub filled : 0 < length l
  pub not_start : same_text l start_line ≡ false
  pub not_end : same_text l end_line ≡ false

pub send_lines-unlines : (ls : List (List ℕ)) → All IsLine ls → send_lines ls ≡ some (unlines ls)
unfolding send_lines Option.bind
send_lines-unlines [] h = refl
send_lines-unlines (l ∷ ls) h =
    rw (send_line_fits l h.0.short, send_lines-unlines ls h.1)
      (ap some (append_assoc l (newline ∷ []) (unlines ls)))

pub fgets_line :
    (room : ℕ) (l rest : List ℕ)
    → length l < room
    → Lacks newline l
    → fgets room (l ++ (newline ∷ rest)) ≡ (l ++ (newline ∷ []), rest)
unfolding fgets
fgets_line zero l rest h n = absurd (omega arith)
fgets_line (suc room) [] rest h n = refl
fgets_line (suc room) (c ∷ l) rest h n = rw (n.0, fgets_line room l rest (omega arith) n.1)

pub strip_line : (l : List ℕ) → IsLine l → strip (l ++ (newline ∷ [])) ≡ l
strip_line l h =
    rw
      (until_all 0 (l ++ (newline ∷ []))
        (All-append (λ b. (b == 0) ≡ false) l (newline ∷ []) h.no_nul (refl, tt)))
      (until-append newline l [] h.no_newline)

file_chunks_line :
    (fuel : ℕ) (l rest : List ℕ)
    → IsLine l
    → file_chunks (suc fuel) (l ++ (newline ∷ rest)) ≡ (l ++ (newline ∷ [])) ∷ file_chunks fuel rest
unfolding file_chunks
file_chunks_line fuel [] rest h = rw (fgets_line (buf_size - 1) [] rest h.short h.no_newline)
file_chunks_line fuel (c ∷ l) rest h =
    rw (fgets_line (buf_size - 1) (c ∷ l) rest h.short h.no_newline)

file_chunks-unlines :
    (fuel : ℕ) (ls : List (List ℕ))
    → length ls ≤ fuel
    → All IsLine ls
    → map strip (file_chunks fuel (unlines ls)) ≡ ls
unfolding file_chunks
file_chunks-unlines zero [] h g = refl
file_chunks-unlines zero (l ∷ ls) h g = absurd (omega arith)
file_chunks-unlines (suc fuel) [] h g = refl
file_chunks-unlines (suc fuel) (l ∷ ls) h g =
    rw (file_chunks_line fuel l (unlines ls) g.0, strip_line l g.0)
      (ap (◌∷◌ l) (file_chunks-unlines fuel ls (omega arith) g.1))

reply_line : (l : List ℕ) → IsStored l → reply (some l) ≡ write l
unfolding reply reply_text
reply_line [] h = absurd (omega (arith, h.filled))
reply_line (b ∷ bs) h = rw (until_all 0 (b ∷ bs) h.line.no_nul, h.not_start, h.not_end)

download_line :
    (fuel : ℕ) (l rest : List ℕ)
    → IsStored l
    → download (suc fuel) (l ++ (newline ∷ rest))
      ≡ (l ++ (newline ∷ (download fuel rest).0), (download fuel rest).1)
unfolding download after_line
download_line fuel l rest h =
    rw (recv_line_fits (buf_size - 1) l rest h.line.short h.line.no_newline) (rw (reply_line l h))

pub download_lines :
    (fuel : ℕ) (ls : List (List ℕ)) (rest : List ℕ)
    → All IsStored ls
    → download (length ls + fuel) (unlines ls ++ rest)
      ≡ (unlines ls ++ (download fuel rest).0, (download fuel rest).1)
download_lines fuel [] rest h = let e : 0 + fuel ≡ fuel = omega arith in rw e
download_lines fuel (l ∷ ls) rest h =
    let e : suc (length ls) + fuel ≡ suc (length ls + fuel) = omega arith in
    rw (e, append_assoc l (newline ∷ unlines ls) rest)
      (download_line (length ls + fuel) l (unlines ls ++ rest) h.0
        ∙ rw (download_lines fuel ls rest h.1)
            (rw (append_assoc l (newline ∷ unlines ls) (download fuel rest).0)))

-- START is left out, and END ends the loop.
pub download_start :
    (fuel : ℕ) (rest : List ℕ)
    → download (suc fuel) (start_line ++ (newline ∷ rest)) ≡ download fuel rest
unfolding download after_line recv_line reply reply_text until same_text
download_start fuel rest = refl

pub download_end :
    (fuel : ℕ) (rest : List ℕ) → download (suc fuel) (end_line ++ (newline ∷ rest)) ≡ ([], rest)
unfolding download after_line recv_line reply reply_text until same_text
download_end fuel rest = refl

pub download_blank : (fuel : ℕ) (rest : List ℕ) → download (suc fuel) (newline ∷ rest) ≡ ([], rest)
unfolding download after_line recv_line reply
download_blank fuel rest = refl

pub unlines-append : (xs ys : List (List ℕ)) → unlines (xs ++ ys) ≡ unlines xs ++ unlines ys
unlines-append [] ys = refl
unlines-append (x ∷ xs) ys =
    rw (append_assoc x (newline ∷ unlines xs) (unlines ys), unlines-append xs ys)

pub length-le-unlines : (ls : List (List ℕ)) → length ls ≤ length (unlines ls)
length-le-unlines [] = omega arith
length-le-unlines (l ∷ ls) =
    omega (arith, length-append l (newline ∷ unlines ls), length-le-unlines ls)

pub literal-IsLine :
    (l : List ℕ) → length l < buf_size - 1 → lacks newline l ≡ true → lacks 0 l ≡ true → IsLine l
literal-IsLine l h n z = record {
  short = h;
  no_newline = lacks→Lacks newline l n;
  no_nul = lacks→Lacks 0 l z;
}

start-IsLine : IsLine start_line
unfolding lacks
start-IsLine = literal-IsLine start_line (omega arith) refl refl

end-IsLine : IsLine end_line
unfolding lacks
end-IsLine = literal-IsLine end_line (omega arith) refl refl

-- The lines that the server answers for a text file.
pub cmd_get_lines :
    (disk : Disk) (name : List ℕ) (ls : List (List ℕ))
    → disk.content (file_path name) ≡ some (unlines ls)
    → All IsLine ls
    → cmd_get disk name ≡ start_line ∷ (ls ++ (end_line ∷ []))
unfolding cmd_get
cmd_get_lines disk name ls e h =
    rw (e, cmd_get) (rw (file_chunks-unlines (length (unlines ls)) ls (length-le-unlines ls) h))

pub framed-IsLine :
    (ls : List (List ℕ)) → All IsLine ls → All IsLine (start_line ∷ (ls ++ (end_line ∷ [])))
framed-IsLine ls h = (start-IsLine, All-append IsLine ls (end_line ∷ []) h (end-IsLine, tt))

pub cmd_get_sent :
    (disk : Disk) (name : List ℕ) (ls : List (List ℕ))
    → disk.content (file_path name) ≡ some (unlines ls)
    → All IsLine ls
    → send_lines (cmd_get disk name) ≡ some (unlines (start_line ∷ (ls ++ (end_line ∷ []))))
cmd_get_sent disk name ls e h =
    ap send_lines (cmd_get_lines disk name ls e h)
    ∙ send_lines-unlines (start_line ∷ (ls ++ (end_line ∷ []))) (framed-IsLine ls h)
