-- ===== src/Files/Together.antt =====
-- Each use of the file server is an exchange: the two loops do it together.
use game_network.Files.Listing.{
  files-IsLine, end_line-IsLine, after_list_names, files-IsShown, sent_bytes-shows,
  cmd_list_entries,
}
use game_network.Prelude.{
  ℕ, suc, ◌≡◌, refl, ap, ◌∙◌, true, some, List, [], ◌∷◌, ◌++◌, append_assoc, append-nil, arith, All,
  All-append, length, length-append, map, newline, codes, same_text, All-mono, lacks, has_prefix,
}
use game_network.Files.Commands.{
  Entry, command_list, file_path, start_line, end_line, regular_names,
}
use game_network.Files.Stream.{
  IsLine, IsStored, unlines, literal-IsLine, cmd_get_lines, framed-IsLine, length-le-unlines,
}
use game_network.Files.Transfer.{download_framed, stored-IsLine}
use game_network.Files.Session.{Round, command, unknown, handle_client}
use game_network.Files.Conversation.{later, answer, IsPlain, handle_client_plain, is_plain}
use game_network.Files.Client.{
  Prompt, show, sent, stored, ClientRun, act, ask, ask_other, download_name, client, perform,
  send_then, recv_show, after_list, after_get,
}
use game_network.Files.Exchange.{Types, client_typed, recv_show_line, send_then_line}
use game_network.Files.Uses.{IsShown, Exchange}

-- A plain command: the server's side of the exchange.
plain_server :
    (p : Prompt) (line : List ℕ) (rounds : ℕ → Round) (r : Round) (down : List (List ℕ))
    (rest : List ℕ)
    → IsPlain line
    → answer r.disk (command line) ≡ down
    → rounds 0 ≡ r
    → handle_client rounds ((line ++ (newline ∷ [])) ++ rest)
      ≡ command_list ∷ (down ++ handle_client (later rounds) rest)
plain_server p line rounds r down rest h e q =
    ap (handle_client rounds) (append_assoc line (newline ∷ []) rest)
    ∙ handle_client_plain rounds line rest h
    ∙ ap (λ lines. command_list ∷ (lines ++ handle_client (later rounds) rest))
        (ap (λ s. answer s.disk (command line)) q ∙ e)

unknown-IsLine : IsLine (codes "Unknown command")
unfolding lacks
unknown-IsLine = literal-IsLine _ (omega arith) refl refl

-- The two programs test for the same commands.
command_other : (line : List ℕ) → ask line ≡ ask_other → command line ≡ unknown
unfolding ask command
command_other line e = ground arith

-- A command that is sent.
pub sent_first :
    (p : Prompt) (line : List ℕ) (after : ClientRun)
    → Types p line
    → p.sends ≡ true
    → send_then line p.sends after ≡ act (sent (line ++ (newline ∷ []))) after
sent_first p line after t ok =
    ap (λ b. send_then line b after) ok ∙ send_then_line line after t.ok.short

after_get_lines :
    (next : List ℕ → ClientRun) (name : List ℕ) (ls : List (List ℕ)) (rest : List ℕ)
    → All IsStored ls
    → after_get next true name (unlines (start_line ∷ (ls ++ (end_line ∷ []))) ++ rest)
      ≡ act (stored (download_name name) (unlines ls)) (next rest)
unfolding after_get
after_get_lines next name ls rest h =
    let lines = start_line ∷ (ls ++ (end_line ∷ [])) in
    let stream = unlines lines ++ rest in
    ap (λ got. act (stored (download_name name) got.0) (next got.1))
      (download_framed ls rest (suc (length stream)) h (
        omega (
          arith,
          length-append ls (end_line ∷ []),
          length-le-unlines lines,
          length-append (unlines lines) rest,
        )))

module _ (p : Prompt) (r : Round) where
  pub other-Exchange :
      (line : List ℕ)
      → Types p line
      → p.sends ≡ true
      → ask line ≡ ask_other
      → Exchange p r
          (show command_list ∷ sent (line ++ (newline ∷ [])) ∷ show (codes "Unknown command") ∷ [])
  unfolding perform
  other-Exchange line t ok other = record {
    down = codes "Unknown command" ∷ [];
    lines = (unknown-IsLine, tt);
    client_side = λ ps rest.
        let stream = codes "Unknown command" ++ (newline ∷ rest) in
        client_typed p ps line stream t
        ∙ ap (λ a. act (show command_list) (perform (client ps) p line a stream)) other
        ∙ ap (act (show command_list)) (
            sent_first p line (recv_show (client ps) stream) t ok
            ∙ ap (act (sent (line ++ (newline ∷ [])))) (
                recv_show_line (client ps) (codes "Unknown command") rest unknown-IsLine
                  (omega arith)));
    server_side = λ rounds rest q.
        ap (λ up. handle_client rounds (up ++ rest)) (append-nil (line ++ (newline ∷ [])))
        ∙ plain_server p line rounds r (codes "Unknown command" ∷ []) rest
            (record {
              line_ok = t.ok;
              filled = t.filled;
              plain = ap is_plain (command_other line other);
            })
            (ap (answer r.disk) (command_other line other)) q;
  }

  pub list-Exchange :
      (entries : List Entry)
      → Types p (codes "list")
      → p.sends ≡ true
      → r.disk.files_dir ≡ some entries
      → All IsShown (regular_names entries)
      → Exchange p r (
          show command_list
          ∷ sent (codes "list" ++ (newline ∷ []))
          ∷ show (codes "Files:")
          ∷ (map show (regular_names entries) ++ (show end_line ∷ [])))
  unfolding perform ask command same_text
  list-Exchange entries t ok e shown = record {
    down = codes "Files:" ∷ (regular_names entries ++ (end_line ∷ []));
    lines = (
      files-IsLine,
      All-append IsLine (regular_names entries) (end_line ∷ [])
          (All-mono {P = IsShown} (regular_names entries) (λ l h. h.line) shown)
          (end_line-IsLine, tt),
    );
    client_side = λ ps rest.
        let names = codes "Files:" ∷ regular_names entries in
        let stream = unlines (names ++ (end_line ∷ [])) ++ rest in
        client_typed p ps (codes "list") stream t
        ∙ ap (act (show command_list)) (
            sent_first p (codes "list") (after_list (client ps) stream) t ok
            ∙ ap (act (sent (codes "list" ++ (newline ∷ []))))
                (after_list_names (client ps) names rest (files-IsShown, shown)));
    server_side = λ rounds rest q.
        ap (λ tail. handle_client rounds ((codes "list" ++ (newline ∷ tail)) ++ rest))
          (sent_bytes-shows (regular_names entries))
        ∙ plain_server p (codes "list") rounds r
            (codes "Files:" ∷ (regular_names entries ++ (end_line ∷ []))) rest
            (record { line_ok = t.ok; filled = t.filled; plain = refl })
            (cmd_list_entries r.disk entries e) q;
  }

  pub get-Exchange :
      (name : List ℕ) (ls : List (List ℕ))
      → Types p (codes "get " ++ name)
      → p.sends ≡ true
      → p.opens ≡ true
      → r.disk.content (file_path name) ≡ some (unlines ls)
      → All IsStored ls
      → Exchange p r (
          show command_list
          ∷ sent ((codes "get " ++ name) ++ (newline ∷ []))
          ∷ stored (download_name name) (unlines ls)
          ∷ [])
  unfolding perform ask command same_text has_prefix
  get-Exchange name ls t ok opened e h = record {
    down = start_line ∷ (ls ++ (end_line ∷ []));
    lines = framed-IsLine ls (stored-IsLine ls h);
    client_side = λ ps rest.
        let line = codes "get " ++ name in
        let stream = unlines (start_line ∷ (ls ++ (end_line ∷ []))) ++ rest in
        client_typed p ps line stream t
        ∙ ap (act (show command_list)) (
            sent_first p line (after_get (client ps) p.opens name stream) t ok
            ∙ ap (act (sent (line ++ (newline ∷ [])))) (
                ap (λ b. after_get (client ps) b name stream) opened
                ∙ after_get_lines (client ps) name ls rest h));
    server_side = λ rounds rest q.
        let line = codes "get " ++ name in
        ap (λ up. handle_client rounds (up ++ rest)) (append-nil (line ++ (newline ∷ [])))
        ∙ plain_server p line rounds r (start_line ∷ (ls ++ (end_line ∷ []))) rest
            (record { line_ok = t.ok; filled = t.filled; plain = refl })
            (cmd_get_lines r.disk name ls e (stored-IsLine ls h)) q;
  }
