-- ===== src/Files/Listing.antt =====
-- A listing at the client: week5/Iclient.c, lines 44 to 53, against `cmd_list` of week5/Iserver.c.
use game_network.Prelude.{
  ℕ, zero, suc, ◌<◌, ◌≡◌, refl, ap, ◌∙◌, some, List, [], ◌∷◌, ◌++◌, append_assoc, arith, All,
  length, length-append, map, until, newline, codes, same_text, lacks, until_all,
}
use game_network.Files.Line.{recv_line}
use game_network.Files.Commands.{Disk, Entry, end_line, cmd_list, regular_names}
use game_network.Files.Stream.{IsLine, unlines, literal-IsLine, length-le-unlines}
use game_network.Files.Client.{show, ClientRun, act, listing, listing_line, show_all, after_list}
use game_network.Files.Exchange.{sent_bytes, acts_then, recv_line-some}
use game_network.Files.Uses.{IsShown}

-- The listing.
listing_shown :
    (fuel : ℕ) (name rest : List ℕ)
    → IsShown name
    → listing (suc fuel) (name ++ (newline ∷ rest))
      ≡ (name ∷ (listing fuel rest).0, (listing fuel rest).1)
unfolding listing listing_line
listing_shown fuel [] rest h = absurd (omega (arith, h.filled))
listing_shown fuel (b ∷ bs) rest h =
    rw (recv_line-some (b ∷ bs) rest h.line) (rw (until_all 0 (b ∷ bs) h.line.no_nul, h.not_end))

listing_end :
    (fuel : ℕ) (rest : List ℕ)
    → listing (suc fuel) (end_line ++ (newline ∷ rest)) ≡ (end_line ∷ [], rest)
unfolding listing listing_line recv_line until same_text
listing_end fuel rest = refl

listing_names :
    (names : List (List ℕ)) (rest : List ℕ) (fuel : ℕ)
    → All IsShown names
    → length names < fuel
    → listing fuel (unlines (names ++ (end_line ∷ [])) ++ rest) ≡ (names ++ (end_line ∷ []), rest)
listing_names names rest zero h enough = absurd (omega arith)
listing_names [] rest (suc fuel) h enough = listing_end fuel rest
listing_names (name ∷ names) rest (suc fuel) h enough =
    ap (listing (suc fuel)) (append_assoc name (newline ∷ unlines (names ++ (end_line ∷ []))) rest)
    ∙ listing_shown fuel name (unlines (names ++ (end_line ∷ [])) ++ rest) h.0
    ∙ ap (λ got. (name ∷ got.0, got.1)) (listing_names names rest fuel h.1 (omega arith))

show_all_acts :
    (names : List (List ℕ)) (run : ClientRun)
    → show_all (names ++ (end_line ∷ [])) run
      ≡ acts_then (map show names ++ (show end_line ∷ [])) run
show_all_acts [] run = refl
show_all_acts (name ∷ names) run = ap (act (show name)) (show_all_acts names run)

pub files-IsLine : IsLine (codes "Files:")
unfolding lacks
files-IsLine = literal-IsLine _ (omega arith) refl refl

pub files-IsShown : IsShown (codes "Files:")
unfolding same_text
files-IsShown = record { line = files-IsLine; filled = omega arith; not_end = refl }

pub end_line-IsLine : IsLine end_line
unfolding lacks
end_line-IsLine = literal-IsLine _ (omega arith) refl refl

pub after_list_names :
    (next : List ℕ → ClientRun) (names : List (List ℕ)) (rest : List ℕ)
    → All IsShown names
    → after_list next (unlines (names ++ (end_line ∷ [])) ++ rest)
      ≡ acts_then (map show names ++ (show end_line ∷ [])) (next rest)
unfolding after_list
after_list_names next names rest h =
    let lines = names ++ (end_line ∷ []) in
    let stream = unlines lines ++ rest in
    ap (λ got. show_all got.0 (next got.1))
      (listing_names names rest (suc (length stream)) h (
        omega (
          arith,
          length-append names (end_line ∷ []),
          length-le-unlines lines,
          length-append (unlines lines) rest,
        )))
    ∙ show_all_acts names (next rest)

pub sent_bytes-shows :
    (names : List (List ℕ)) → sent_bytes (map show names ++ (show end_line ∷ [])) ≡ []
sent_bytes-shows [] = refl
sent_bytes-shows (name ∷ names) = sent_bytes-shows names

pub cmd_list_entries :
    (disk : Disk) (entries : List Entry)
    → disk.files_dir ≡ some entries
    → cmd_list disk ≡ codes "Files:" ∷ (regular_names entries ++ (end_line ∷ []))
unfolding cmd_list
cmd_list_entries disk entries e = rw (cmd_list, e)
