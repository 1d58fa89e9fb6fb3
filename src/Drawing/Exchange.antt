-- ===== src/Drawing/Exchange.antt =====
-- The text of week6 from the client to the server, in the pieces that `read` returns.
use mathlib.Core.Path.{subst}
use game_network.Prelude.{
  All-unappend, ℕ, ◌≡◌, refl, sym, ap, ◌∙◌, true, false, List, [], ◌∷◌, ◌++◌, All, All-append,
  All-mono, map, until_all, newline, Lacks, has_prefix, ◌==◌,
}
use game_network.Drawing.Text.{
  DrawingText, entries, end_marker, text_lines, message_text, contains, parse_line, parse_lines,
  receive_text, IsDrawing,
}
use game_network.Drawing.Parse.{
  IsToken, strtok_lines, text_lines-Lacks, contains_not, contains_end, scan_int-print_int,
  entries-IsToken,
}

-- The fields one after the other, from any message.
parse_lines-entries : (m old : DrawingText) → IsDrawing m → parse_lines (entries m) old ≡ m
unfolding parse_lines parse_line has_prefix
parse_lines-entries m old h = rw (
  scan_int-print_int m.x1 h.x1_fits,
  scan_int-print_int m.y1 h.y1_fits,
  scan_int-print_int m.x2 h.x2_fits,
  scan_int-print_int m.y2 h.y2_fits,
  scan_int-print_int m.width h.width_fits,
  scan_int-print_int m.color h.color_fits,
)

parse_lines-append :
    (xs ys : List (List ℕ)) (m : DrawingText)
    → parse_lines (xs ++ ys) m ≡ parse_lines ys (parse_lines xs m)
unfolding parse_lines
parse_lines-append [] ys m = refl
parse_lines-append (x ∷ xs) ys m = parse_lines-append xs ys (parse_line x m)

text-Lacks_nul : (ls : List (List ℕ)) → All IsToken ls → Lacks 0 (text_lines ls)
text-Lacks_nul ls h = text_lines-Lacks 0 ls refl (All-mono {P = IsToken} ls (λ l t. t.no_nul) h)

receive_text_lines :
    (ls : List (List ℕ)) (chunks : List (List ℕ)) (m : DrawingText)
    → All IsToken ls
    → receive_text (text_lines ls ∷ chunks) m ≡ receive_text chunks (parse_lines ls m)
unfolding receive_text
receive_text_lines ls chunks m h =
    let mark =
      contains_not (text_lines ls)
        (text_lines-Lacks b'E' ls refl (All-mono {P = IsToken} ls (λ l t. t.no_mark) h)) in
    rw (receive_text, until_all 0 (text_lines ls) (text-Lacks_nul ls h))
      (rw (mark, strtok_lines ls h))

receive_text_end :
    (chunk : List ℕ) (chunks : List (List ℕ)) (m : DrawingText)
    → Lacks 0 chunk
    → contains chunk end_marker ≡ true
    → receive_text (chunk ∷ chunks) m ≡ m
unfolding receive_text
receive_text_end chunk chunks m h mark = rw (receive_text, until_all 0 chunk h) (rw mark)

abbrev pub joined : List (List (List ℕ)) → List (List ℕ)
joined [] = []
joined (g ∷ gs) = g ++ joined gs

receive_text_groups :
    (gs : List (List (List ℕ))) (chunks : List (List ℕ)) (m : DrawingText)
    → All IsToken (joined gs)
    → receive_text (map text_lines gs ++ chunks) m ≡ receive_text chunks (parse_lines (joined gs) m)
unfolding parse_lines
receive_text_groups [] chunks m h = refl
receive_text_groups (g ∷ gs) chunks m h =
    let (front, back) = All-unappend IsToken g (joined gs) h in
    receive_text_lines g (map text_lines gs ++ chunks) m front
    ∙ receive_text_groups gs chunks (parse_lines g m) back
    ∙ ap (receive_text chunks) (sym (parse_lines-append g (joined gs) m))

-- A message of any six numbers that an int32_t holds, which comes in pieces of whole lines, however
-- they are grouped, and with END in a piece of its own, is what var_server.c has at the end,
-- whatever its struct held before.
pub receive_text-pieces :
    (m old : DrawingText) (gs : List (List (List ℕ))) (chunks : List (List ℕ))
    → IsDrawing m
    → joined gs ≡ entries m
    → receive_text (map text_lines gs ++ ((end_marker ++ (newline ∷ [])) ∷ chunks)) old ≡ m
receive_text-pieces m old gs chunks h e =
    receive_text_groups gs ((end_marker ++ (newline ∷ [])) ∷ chunks) old
      (subst (All IsToken) (sym e) (entries-IsToken m))
    ∙ receive_text_end (end_marker ++ (newline ∷ [])) chunks (parse_lines (joined gs) old)
        (refl, (refl, (refl, (refl, tt)))) (contains_end [] (newline ∷ []))
    ∙ ap (λ ls. parse_lines ls old) e
    ∙ parse_lines-entries m old h

-- The message in one piece, as the client's only write sends it, leaves the server's struct as it
-- was: the piece holds END, and is not parsed.
pub receive_text-message_text :
    (m old : DrawingText) (chunks : List (List ℕ))
    → receive_text (message_text m ∷ chunks) old ≡ old
unfolding message_text
receive_text-message_text m old chunks =
    receive_text_end (text_lines (entries m) ++ (end_marker ++ (newline ∷ []))) chunks old
      (All-append (λ b. (b == 0) ≡ false) (text_lines (entries m)) (end_marker ++ (newline ∷ []))
        (text-Lacks_nul (entries m) (entries-IsToken m)) (refl, (refl, (refl, (refl, tt)))))
      (contains_end (text_lines (entries m)) (newline ∷ []))
