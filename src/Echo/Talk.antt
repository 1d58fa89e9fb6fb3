-- ===== src/Echo/Talk.antt =====
-- The echo clients with their servers: what one side sends is what the other side reads, each send
-- in one read.
use game_network.Echo.Stream.{
  buf_size, Run, echo_server, echo_client, terminated, show_first, read_answer, closed, quitted,
  send_first,
}
use game_network.Prelude.{
  ℕ, ◌<◌, ◌≡◌, refl, ap, ◌∙◌, ltb, true, false, some, Option, List, [], ◌∷◌, ◌++◌, arith, All,
  length, map, until, until_all, Lacks, codes, same_text,
}

-- A line that the user types and that does not end the client.
pub record IsLine (line : List ℕ) : Type 0 where
  pub no_nul : Lacks 0 line
  pub filled : 0 < length line
  pub short : length line < buf_size
  pub not_quit : same_text line (codes "q\n") ≡ false

terminated_short :
    (bytes : List ℕ) (after : Run) → length bytes < buf_size → terminated bytes after ≡ after
terminated_short bytes after h =
    let fits : ltb (length bytes) buf_size ≡ true = ground (arith, h) in rw fits

server_line :
    (line buf : List ℕ) (reads : List (Option (List ℕ)))
    → IsLine line
    → echo_server buf (some line ∷ reads)
      ≡ show_first line (send_first line (echo_server line reads))
unfolding echo_server
server_line [] buf reads h = absurd (omega (arith, h.filled))
server_line (b ∷ bs) buf reads h =
    terminated_short (b ∷ bs) _ h.short
    ∙ ap (λ text. show_first text (send_first (b ∷ bs) (echo_server text reads)))
        (until_all 0 (b ∷ bs) h.no_nul)

client_line :
    (line buf : List ℕ) (more reads : List (Option (List ℕ)))
    → IsLine line
    → echo_client (some line ∷ more) buf (some line ∷ reads)
      ≡ send_first line (show_first line (echo_client more line reads))
unfolding echo_client read_answer
client_line line buf more reads h =
    rw (until_all 0 line h.no_nul, h.not_quit)
      (ap (send_first line)
        (terminated_short line (show_first line (echo_client more line reads)) h.short))

server_lines :
    (lines : List (List ℕ)) (buf : List ℕ)
    → All IsLine lines
    → echo_server buf (map some lines ++ (some [] ∷ []))
      ≡ record { sends = lines; shows = lines; end = closed }
unfolding echo_server
server_lines [] buf h = refl
server_lines (line ∷ lines) buf h =
    server_line line buf (map some lines ++ (some [] ∷ [])) h.0
    ∙ ap (λ run. show_first line (send_first line run)) (server_lines lines line h.1)

client_lines :
    (lines : List (List ℕ)) (buf : List ℕ)
    → All IsLine lines
    → echo_client (map some lines ++ (some (codes "q\n") ∷ [])) buf (map some lines)
      ≡ record { sends = lines; shows = lines; end = quitted }
unfolding echo_client until same_text
client_lines [] buf h = refl
client_lines (line ∷ lines) buf h =
    client_line line buf (map some lines ++ (some (codes "q\n") ∷ [])) (map some lines) h.0
    ∙ ap (λ run. send_first line (show_first line run)) (client_lines lines line h.1)

-- Lines of 1 to 1023 bytes without NUL, none of them q, and q behind them, each taken by the server
-- and by the client in one read: the server shows and returns each line and ends with the
-- connection, and the client sends and shows each and ends.
pub echo_talk :
    (lines : List (List ℕ)) (old buf : List ℕ)
    → All IsLine lines
    → (echo_server old (map some lines ++ (some [] ∷ []))
        ≡ record { sends = lines; shows = lines; end = closed })
      × (echo_client (map some lines ++ (some (codes "q\n") ∷ [])) buf (map some lines)
          ≡ record { sends = lines; shows = lines; end = quitted })
echo_talk lines old buf h = (server_lines lines old h, client_lines lines buf h)
