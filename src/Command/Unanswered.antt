-- ===== src/Command/Unanswered.antt =====
-- The client of week3_Prac with its server, up to a command that the server does not answer.
use game_network.Command.Talk.{
  Ask, IsAsk, Answered, typed, no_more, asked, client_sends, one_more, after_recv-some,
  Answered-length, answer-IsText, serve-Answered, replies_first, client_all, talk_first, lines_of,
}
use game_network.Command.Practice.{practice_respond, practice_server, practice_respond_to}
use game_network.Command.Answers.{practice_respond-AnswersText}
use game_network.Command.Client.{
  Typed, after_send, client_loop, Texts, send_first, stopped, waiting, practice_client,
  practice_texts,
}
use game_network.Prelude.{
  list_laws, ℕ, ◌≡◌, ap, ◌∙◌, true, false, some, List, [], ◌∷◌, ◌++◌, arith, All, length, map,
  until_all, codes, same_text, has_prefix, append-nil, leb,
}
use game_network.Command.Loop.{Response, Run, after_recv, after_response, serve, running, buf_size}

client_waits :
    (g : Texts) (a : Ask) (more : List Typed)
    → IsAsk a
    → client_loop g (typed a ∷ more) [] ≡ send_first a.line (stopped waiting)
unfolding after_send
client_waits g a more h = client_sends g a more [] h

-- A command that the server of week3_Prac answers.
pub record IsKnown (a : Ask) : Type 0 where
  pub ask_ok : IsAsk a
  pub text : List ℕ
  pub known : practice_respond a.now a.line ≡ Response.answer text

known-Answered :
    (asks : List Ask)
    → All IsKnown asks
    → (texts : List (List ℕ)) × Answered practice_respond asks texts
known-Answered [] h = ([], no_more)
known-Answered (a ∷ asks) h =
    let (texts, rest) = known-Answered asks h.1 in
    (
      h.0.text ∷ texts,
      one_more h.0.ask_ok h.0.known
          (answer-IsText (practice_respond a.now a.line) h.0.text
            (practice_respond-AnswersText a.now a.line h.0.ask_ok.year) h.0.known)
          rest,
    )

unknown_silent :
    (a : Ask) (later : Run)
    → IsAsk a
    → same_text a.line (codes "TIME\n") ≡ false
    → has_prefix a.line (codes "NAME ") ≡ false
    → after_recv practice_respond later (asked a) (some a.line) ≡ later
unfolding after_response practice_respond practice_respond_to
unknown_silent a later h e g =
    let room : leb buf_size (length a.line) ≡ false = ground (arith, h.short) in
    let quiet : practice_respond a.now a.line ≡ Response.silent =
      rw (practice_respond, room, until_all 0 a.line h.no_nul, e, g) in
    after_recv-some practice_respond later (asked a) a.line h.filled
    ∙ ap (after_response later true) quiet

-- When commands that the server of week3_Prac answers are followed by one that is neither TIME nor
-- NAME nor QUIT, the two programs wait for each other. All commands are of 1 to 1009 bytes without
-- NUL, none is QUIT, each comes in one recv, and the clock is before the year 10000. Then the
-- server has answered all commands but that one and has nothing to read, and the client is in a
-- recv, whatever the user types behind it.
pub practice_waits :
    (asks : List Ask) (a : Ask) (more : List Typed)
    → All IsKnown asks
    → IsAsk a
    → same_text a.line (codes "TIME\n") ≡ false
    → has_prefix a.line (codes "NAME ") ≡ false
    → (texts : List (List ℕ)) × (length texts ≡ length asks)
      × (practice_server (map asked asks ++ (asked a ∷ [])) ≡ (texts, running))
      × (practice_client (map typed asks ++ (typed a ∷ more)) (map some texts) ≡ record {
        sends = map (λ b. b.line) asks ++ (a.line ∷ []);
        prints = map (λ t. codes "From Server : " ++ t) texts;
        end = waiting;
      })
unfolding practice_server practice_client serve
practice_waits asks a more h ok e g =
    let (texts, answers) = known-Answered asks h in
    (
      texts,
      Answered-length practice_respond asks texts answers,
      serve-Answered practice_respond asks texts (asked a ∷ []) answers
          ∙ ap (replies_first texts) (unknown_silent a ([], running) ok e g)
          ∙ ap (λ ts. (ts, running)) (append-nil texts),
      client_all practice_respond practice_texts asks texts (typed a ∷ more) answers
          ∙ ap (talk_first (lines_of asks) (map (λ t. codes "From Server : " ++ t) texts))
              (client_waits practice_texts a more ok)
          ∙ simp list_laws,
    )
