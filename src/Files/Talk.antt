-- ===== src/Files/Talk.antt =====
-- A whole session of the file client with the file server.
use game_network.Files.Line.{send_line_in, recv_line}
use game_network.Files.Conversation.{later, handle_client_line}
use game_network.Files.Stream.{IsLine, unlines, unlines-append, send_lines-unlines}
use game_network.Files.Commands.{command_list, send_lines}
use game_network.Files.Exchange.{
  Types, acts_then, command-IsLine, sent_bytes, sent_bytes-append, client_typed,
}
use game_network.Files.Loading.{load-Exchange}
use game_network.Files.Together.{list-Exchange, get-Exchange, other-Exchange}
use game_network.Files.Uses.{Use, Exchange, lists, gets, loads, others}
use game_network.Files.Session.{
  Round, handle_command, command, handle_client, handle_loop, handle_line,
}
use game_network.Files.Client.{
  Prompt, Act, Ended, perform, show, ask, sent, act, client, quitted, after_load, at_prompt,
  stream_over,
}
use game_network.Prelude.{
  ℕ, ◌≡◌, refl, ap, ◌∙◌, true, none, some, List, [], ◌∷◌, ◌++◌, arith, newline, codes, All,
  same_text, All-append, has_prefix, if◌then◌else◌,
}

Use→Exchange : {p : Prompt} {r : Round} {acts : List Act} → Use p r acts → Exchange p r acts
Use→Exchange (lists entries t ok e shown) = list-Exchange _ _ entries t ok e shown
Use→Exchange (gets name ls t ok opened e h) = get-Exchange _ _ name ls t ok opened e h
Use→Exchange (loads name file t w answered writable more small) =
    load-Exchange _ _ name file t w answered writable more small
Use→Exchange (others line t ok e) = other-Exchange _ _ line t ok e

-- Uses of the server, one behind the other, and `quit`.
pub data Uses : List Prompt → (ℕ → Round) → List Act → Type 0 where
  quits :
      {p : Prompt} {ps : List Prompt} {rounds : ℕ → Round}
      → Types p (codes "quit")
      → p.sends ≡ true
      → Uses (p ∷ ps) rounds (show command_list ∷ sent (codes "quit" ++ (newline ∷ [])) ∷ [])
  then_uses :
      {p : Prompt} {ps : List Prompt} {rounds : ℕ → Round} {acts more : List Act}
      → Use p (rounds 0) acts
      → Uses ps (later rounds) more
      → Uses (p ∷ ps) rounds (acts ++ more)

-- The lines of the server, with what the client does on them.
record Session (ps : List Prompt) (rounds : ℕ → Round) (acts : List Act) : Type 0 where
  lines : List (List ℕ)
  sendable : All IsLine lines
  server : handle_client rounds (sent_bytes acts) ≡ lines
  client_run : client ps (unlines lines) ≡ (acts, quitted)

acts_then_run :
    (acts more : List Act) (ended : Ended) → acts_then acts (more, ended) ≡ (acts ++ more, ended)
acts_then_run [] more ended = refl
acts_then_run (a ∷ acts) more ended = ap (act a) (acts_then_run acts more ended)

quit_server :
    (rounds : ℕ → Round)
    → IsLine (codes "quit")
    → handle_client rounds (codes "quit" ++ (newline ∷ [])) ≡ command_list ∷ []
unfolding handle_command command same_text has_prefix
quit_server rounds h = handle_client_line rounds (codes "quit") [] h (omega arith)

quit_client :
    (p : Prompt) (ps : List Prompt) (rest : List ℕ)
    → Types p (codes "quit")
    → p.sends ≡ true
    → client (p ∷ ps) (command_list ++ (newline ∷ rest))
      ≡ (show command_list ∷ sent (codes "quit" ++ (newline ∷ [])) ∷ [], quitted)
unfolding perform ask same_text send_line_in
quit_client p ps rest t ok =
    client_typed p ps (codes "quit") rest t
    ∙ ap
        (λ b.
          act (show command_list)
            (if b then (sent (codes "quit" ++ (newline ∷ [])) ∷ [], quitted) else ([], quitted)))
        ok

Uses→Session :
    {ps : List Prompt} {rounds : ℕ → Round} {acts : List Act}
    → Uses ps rounds acts
    → Session ps rounds acts
Uses→Session (quits {p = p} {ps = ps} {rounds = rounds} t ok) = record {
  lines = command_list ∷ [];
  sendable = (command-IsLine, tt);
  server = quit_server rounds t.ok;
  client_run = quit_client p ps [] t ok;
}
Uses→Session
      (then_uses {p = p} {ps = ps} {rounds = rounds} {acts = acts} {more = more} use_it uses) =
    let e = Use→Exchange use_it in
    let s = Uses→Session uses in
    record {
      lines = command_list ∷ (e.down ++ s.lines);
      sendable = (command-IsLine, All-append IsLine e.down s.lines e.lines s.sendable);
      server =
          ap (handle_client rounds) (sent_bytes-append acts more)
          ∙ e.server_side rounds (sent_bytes more) refl
          ∙ ap (λ ls. command_list ∷ (e.down ++ ls)) s.server;
      client_run =
          ap (λ bytes. client (p ∷ ps) (command_list ++ (newline ∷ bytes)))
            (unlines-append e.down s.lines)
          ∙ e.client_side ps (unlines s.lines)
          ∙ ap (acts_then acts) s.client_run
          ∙ acts_then_run acts more quitted;
    }

-- A session of the file client with the file server, in any order, and quit behind it: listings of
-- names that are not empty and not the line of END, downloads of files whose lines are not empty
-- and neither START nor the line of END, uploads of files that are not empty and smaller than 2
-- GiB, and unknown commands. What is typed, listed and downloaded is of lines of at most 4094 bytes
-- without NUL, and what is typed not empty; each round is one in which the calls of both sides
-- succeed. The bytes that the client sends make the server send a stream on which the client shows,
-- sends and stores what those uses say, the files byte for byte, and comes to its quit.
pub file_session :
    (ps : List Prompt) (rounds : ℕ → Round) (acts : List Act)
    → Uses ps rounds acts
    → (stream : List ℕ) × (send_lines (handle_client rounds (sent_bytes acts)) ≡ some stream)
      × (client ps stream ≡ (acts, quitted))
file_session ps rounds acts uses =
    let s = Uses→Session uses in
    (unlines s.lines, ap send_lines s.server ∙ send_lines-unlines s.lines s.sendable, s.client_run)

no_bytes : (rounds : ℕ → Round) → handle_client rounds [] ≡ command_list ∷ []
unfolding handle_client handle_loop handle_line recv_line
no_bytes rounds = refl

no_line : (p : Prompt) (ps : List Prompt) → client (p ∷ ps) [] ≡ ([], stream_over)
unfolding client at_prompt recv_line
no_line p ps = refl

-- When the user types a load whose local file is missing, on a line of at most 4094 bytes without
-- NUL, the client and the server wait for each other: the server, which has received nothing, has
-- sent a stream on which the client shows the list of commands and nothing else, sends nothing, and
-- comes to its next prompt, for which there is no line.
pub load_missing_waits :
    (p q : Prompt) (ps : List Prompt) (rounds : ℕ → Round) (name : List ℕ)
    → Types p (codes "load " ++ name)
    → p.local ≡ none
    → (stream : List ℕ) × (send_lines (handle_client rounds (sent_bytes (show command_list ∷ [])))
        ≡ some stream)
      × (client (p ∷ q ∷ ps) stream ≡ (show command_list ∷ [], stream_over))
unfolding perform ask same_text has_prefix after_load
load_missing_waits p q ps rounds name t missing =
    let line = codes "load " ++ name in
    (
      unlines (command_list ∷ []),
      ap send_lines (no_bytes rounds) ∙ send_lines-unlines (command_list ∷ []) (command-IsLine, tt),
      client_typed p (q ∷ ps) line [] t
          ∙ ap (λ l. act (show command_list) (after_load (client (q ∷ ps)) p line l [])) missing
          ∙ ap (act (show command_list)) (no_line q ps),
    )
