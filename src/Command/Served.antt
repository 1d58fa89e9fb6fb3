-- ===== src/Command/Served.antt =====
-- The client of week3 with its server, from the first command to QUIT.
use game_network.Command.Talk.{
  Ask, IsAsk, Answered, asked, no_more, typed, one_more, Answered-length, answer-IsText,
  serve-Answered, replies_first, client_all, talk_first, lines_of,
}
use game_network.Command.Bounds.{respond_answers}
use game_network.Command.Server.{respond, command_server}
use game_network.Command.Answers.{respond-AnswersText}
use game_network.Command.Client.{
  Typed, client_loop, Texts, command_client, quitted, stopped, client_texts,
}
use game_network.Prelude.{
  list_laws, ℕ, ◌≡◌, refl, ap, ◌∙◌, true, some, List, [], ◌∷◌, ◌++◌, All, length, map, until, codes,
  same_text, Option, append-nil,
}
use game_network.Command.Loop.{Tm, Round, Response, after_recv, serve, closed}

All-Answered :
    (asks : List Ask) → All IsAsk asks → (texts : List (List ℕ)) × Answered respond asks texts
All-Answered [] h = ([], no_more)
All-Answered (a ∷ asks) h =
    let (text, e) = respond_answers a.now a.line h.0.short in
    let (texts, rest) = All-Answered asks h.1 in
    (
      text ∷ texts,
      one_more h.0 e
          (answer-IsText (respond a.now a.line) text (respond-AnswersText a.now a.line h.0.year) e)
          rest,
    )

abbrev pub quits : Typed
quits = record { line = codes "QUIT\n"; sent = true }

-- The connection as the server finds it when the client has closed it.
abbrev pub left : Tm → Round
left now = record { received = some []; now = now; sent = true }

serve-left :
    (respond : Tm → List ℕ → Response) (now : Tm) → serve respond (left now ∷ []) ≡ ([], closed)
unfolding serve after_recv
serve-left respond now = refl

client_quits :
    (g : Texts) (received : List (Option (List ℕ)))
    → client_loop g (quits ∷ []) received ≡ stopped quitted
unfolding client_loop until same_text
client_quits g received = refl

-- Commands that are strings of up to 1009 bytes, with a clock before the year 10000, typed one
-- after the other into the client of week3 and QUIT behind them, each taken by the server with one
-- recv: the client sends them all, the server answers each with one text, what the client prints is
-- these texts in their order, and both loops end.
pub command_talk :
    (asks : List Ask) (now : Tm)
    → All IsAsk asks
    → (texts : List (List ℕ)) × (length texts ≡ length asks)
      × (command_server (map asked asks ++ (left now ∷ [])) ≡ (texts, closed))
      × (command_client (map typed asks ++ (quits ∷ [])) (map some texts) ≡ record {
        sends = map (λ a. a.line) asks;
        prints = map (λ t. codes "from server: " ++ t) texts;
        end = quitted;
      })
unfolding command_server command_client
command_talk asks now h =
    let (texts, answers) = All-Answered asks h in
    (
      texts,
      Answered-length respond asks texts answers,
      serve-Answered respond asks texts (left now ∷ []) answers
          ∙ ap (replies_first texts) (serve-left respond now)
          ∙ ap (λ ts. (ts, closed)) (append-nil texts),
      client_all respond client_texts asks texts (quits ∷ []) answers
          ∙ ap (talk_first (lines_of asks) (map (λ t. codes "from server: " ++ t) texts))
              (client_quits client_texts [])
          ∙ simp list_laws,
    )
