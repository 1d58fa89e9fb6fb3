-- ===== src/Files/Exchange.antt =====
-- A round of the client's loop with a round of the server's: week5/Iclient.c, lines 19 to 165,
-- against `handle_client` of week5/Iserver.c.
use game_network.Prelude.{
  ℕ, ◌-◌, ◌<◌, ◌≡◌, refl, sym, ap, ◌∙◌, true, some, List, [], ◌∷◌, ◌++◌, append_assoc, arith,
  length, until, until_all, newline, same_text, lacks,
}
use game_network.Files.Line.{buf_size, recv_line, recv_line_fits, send_line_fits}
use game_network.Files.Commands.{command_list}
use game_network.Files.Stream.{IsLine, strip_line, literal-IsLine}
use game_network.Files.Upload.{ready}
use game_network.Files.Client.{
  Prompt, Act, show, sent, stored, ClientRun, act, ask, send_then, show_line, recv_show,
  send_upload, at_ready, perform, with_input, at_prompt, client,
}

-- The bytes that a run sends.
abbrev pub sent_bytes : List Act → List ℕ
sent_bytes [] = []
sent_bytes (show line ∷ acts) = sent_bytes acts
sent_bytes (sent bytes ∷ acts) = bytes ++ sent_bytes acts
sent_bytes (stored name content ∷ acts) = sent_bytes acts

pub sent_bytes-append : (xs ys : List Act) → sent_bytes (xs ++ ys) ≡ sent_bytes xs ++ sent_bytes ys
sent_bytes-append [] ys = refl
sent_bytes-append (show line ∷ acts) ys = sent_bytes-append acts ys
sent_bytes-append (sent bytes ∷ acts) ys =
    ap (◌++◌ bytes) (sent_bytes-append acts ys)
    ∙ sym (append_assoc bytes (sent_bytes acts) (sent_bytes ys))
sent_bytes-append (stored name content ∷ acts) ys = sent_bytes-append acts ys

-- A run with acts before it.
abbrev pub acts_then : List Act → ClientRun → ClientRun
acts_then [] run = run
acts_then (a ∷ acts) run = act a (acts_then acts run)

-- A line that arrives is shown, or handed on, as it is.
pub recv_line-some :
    (line rest : List ℕ)
    → IsLine line
    → recv_line (buf_size - 1) (line ++ (newline ∷ rest)) ≡ (some line, rest)
recv_line-some line rest h = recv_line_fits (buf_size - 1) line rest h.short h.no_newline

show_line-some :
    (next : List ℕ → ClientRun) (line rest : List ℕ)
    → IsLine line
    → 0 < length line
    → show_line next (some line, rest) ≡ act (show line) (next rest)
unfolding show_line
show_line-some next [] rest h more = absurd (omega arith)
show_line-some next (b ∷ bs) rest h more = rw (until_all 0 (b ∷ bs) h.no_nul)

pub recv_show_line :
    (next : List ℕ → ClientRun) (line rest : List ℕ)
    → IsLine line
    → 0 < length line
    → recv_show next (line ++ (newline ∷ rest)) ≡ act (show line) (next rest)
recv_show_line next line rest h more =
    ap (show_line next) (recv_line-some line rest h) ∙ show_line-some next line rest h more

at_prompt-some :
    (next : List ℕ → ClientRun) (p : Prompt) (line rest : List ℕ)
    → IsLine line
    → 0 < length line
    → at_prompt next p (some line, rest) ≡ act (show line) (with_input next p p.input rest)
unfolding at_prompt
at_prompt-some next p [] rest h more = absurd (omega arith)
at_prompt-some next p (b ∷ bs) rest h more = rw (until_all 0 (b ∷ bs) h.no_nul)

pub at_ready_line :
    (next : List ℕ → ClientRun) (p : Prompt) (file rest : List ℕ)
    → at_ready next p file (recv_line (buf_size - 1) (ready ++ (newline ∷ rest)))
      ≡ send_upload next p file rest
unfolding at_ready recv_line until same_text
at_ready_line next p file rest = refl

pub send_then_line :
    (line : List ℕ) (after : ClientRun)
    → length line < buf_size - 1
    → send_then line true after ≡ act (sent (line ++ (newline ∷ []))) after
unfolding send_then
send_then_line line after h = rw (send_then, send_line_fits line h)

-- What the user types, as the loop has it.
pub record Types (p : Prompt) (line : List ℕ) : Type 0 where
  pub typed : p.input ≡ some (line ++ (newline ∷ []))
  pub ok : IsLine line
  pub filled : 0 < length line

pub command-IsLine : IsLine command_list
unfolding lacks
command-IsLine = literal-IsLine command_list (omega arith) refl refl

with_input_line :
    (next : List ℕ → ClientRun) (p : Prompt) (line rest : List ℕ)
    → IsLine line
    → with_input next p (some (line ++ (newline ∷ []))) rest ≡ perform next p line (ask line) rest
unfolding with_input
with_input_line next p line rest h =
    ap (λ text. perform next p text (ask text) rest) (strip_line line h)

-- The head of a round.
pub client_typed :
    (p : Prompt) (ps : List Prompt) (line rest : List ℕ)
    → Types p line
    → client (p ∷ ps) (command_list ++ (newline ∷ rest))
      ≡ act (show command_list) (perform (client ps) p line (ask line) rest)
unfolding client
client_typed p ps line rest t =
    ap (at_prompt (client ps) p) (recv_line-some command_list rest command-IsLine)
    ∙ at_prompt-some (client ps) p command_list rest command-IsLine (omega arith)
    ∙ ap (λ typed. act (show command_list) (with_input (client ps) p typed rest)) t.typed
    ∙ ap (act (show command_list)) (with_input_line (client ps) p line rest t.ok)
