-- ===== src/Files/Loading.antt =====
-- An upload is an exchange: week5/Iclient.c, lines 80 to 151, against `cmd_uplode` of
-- week5/Iserver.c.
use game_network.Files.Conversation.{handle_client_file}
use game_network.Files.Line.{recv_line, buf_size}
use game_network.Files.Together.{sent_first}
use game_network.Files.Commands.{file_path, command_list}
use game_network.Files.Exchange.{
  acts_then, Types, send_then_line, client_typed, recv_show_line, at_ready_line,
}
use game_network.Files.Uses.{IsWilling, Exchange}
use game_network.Files.Session.{Round, handle_client}
use game_network.Files.Client.{
  send_upload, Prompt, send_data, perform, ClientRun, ask, sent, after_load, show, send_then, act,
  recv_show, client, at_ready,
}
use game_network.Files.Upload.{ready, upload_done}
use game_network.Prelude.{
  ℕ, ◌-◌, ◌<◌, ◌≡◌, refl, ap, ◌∙◌, true, none, List, [], ◌∷◌, ◌++◌, arith, list_laws, length,
  newline, codes, print_decimal, lacks, same_text, has_prefix, if◌then◌else◌,
}
use game_network.Files.Stream.{IsLine, literal-IsLine}
use game_network.Files.Send.{print_decimal_short, send_chunks_all}

ready-IsLine : IsLine ready
unfolding lacks
ready-IsLine = literal-IsLine ready (omega arith) refl refl

upload_done-IsLine : IsLine upload_done
unfolding lacks
upload_done-IsLine = literal-IsLine upload_done (omega arith) refl refl

-- The client's side behind READY.
send_upload_all :
    (next : List ℕ → ClientRun) (p : Prompt) (file rest : List ℕ)
    → IsWilling p file
    → length file < 2147483648
    → send_upload next p file (upload_done ++ (newline ∷ rest))
      ≡ acts_then
          (sent (print_decimal (length file) ++ (newline ∷ [])) ∷ sent file ∷ show upload_done ∷ [])
          (next rest)
unfolding send_upload send_data
send_upload_all next p file rest w small =
    let size = print_decimal (length file) in
    let stream = upload_done ++ (newline ∷ rest) in
    ap
      (λ b.
        if b then send_then size p.size_sent (send_data next p.cut file stream) else next stream)
      w.sized
    ∙ ap (λ b. send_then size b (send_data next p.cut file stream)) w.size_sent
    ∙ ap (λ cut. send_then size true (send_data next cut file stream)) w.uncut
    ∙ send_then_line size (send_data next none file stream)
        (omega (arith, print_decimal_short (length file) small))
    ∙ ap (act (sent (size ++ (newline ∷ [])))) (
        ap (λ bytes. act (sent bytes) (recv_show next stream))
          (send_chunks_all (length file) file (omega arith))
        ∙ ap (act (sent file))
            (recv_show_line next upload_done rest upload_done-IsLine (omega arith)))

module _ (p : Prompt) (r : Round) where
  pub load-Exchange :
      (name file : List ℕ)
      → Types p (codes "load " ++ name)
      → IsWilling p file
      → r.ready_sent ≡ true
      → r.disk.writable (file_path name) ≡ true
      → 0 < length file
      → length file < 2147483648
      → Exchange p r (
          show command_list
          ∷ sent ((codes "load " ++ name) ++ (newline ∷ []))
          ∷ sent (print_decimal (length file) ++ (newline ∷ []))
          ∷ sent file
          ∷ show upload_done
          ∷ [])
  unfolding perform ask same_text has_prefix after_load
  load-Exchange name file t w answered writable more small = record {
    down = ready ∷ upload_done ∷ [];
    lines = (ready-IsLine, (upload_done-IsLine, tt));
    client_side = λ ps rest.
        let line = codes "load " ++ name in
        let stream = ready ++ (newline ∷ (upload_done ++ (newline ∷ rest))) in
        client_typed p ps line stream t
        ∙ ap (act (show command_list)) (
            ap (λ l. after_load (client ps) p line l stream) w.found
            ∙ sent_first p line (at_ready (client ps) p file (recv_line (buf_size - 1) stream)) t
                w.command_sent
            ∙ ap (act (sent (line ++ (newline ∷ [])))) (
                at_ready_line (client ps) p file (upload_done ++ (newline ∷ rest))
                ∙ send_upload_all (client ps) p file rest w small));
    server_side = λ rounds rest q.
        ap (handle_client rounds) (simp list_laws)
        ∙ handle_client_file rounds name file rest t.ok (ap (λ s. s.ready_sent) q ∙ answered)
            (ap (λ s. s.disk.writable (file_path name)) q ∙ writable) more small;
  }
