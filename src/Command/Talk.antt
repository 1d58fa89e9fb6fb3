-- ===== src/Command/Talk.antt =====
-- A client of week3 with its server, and the client of week3_Prac with its: a command a round.
use game_network.Command.Server.{respond}
use game_network.Command.Answers.{IsText, AnswersText}
use game_network.Command.Client.{
  Typed, after_send, client_loop, ClientRun, Texts, print_first, send_first,
}
use mathlib.Core.Path.{subst}
use game_network.Prelude.{
  ℕ, ◌<◌, ◌≡◌, refl, sym, ap, ◌∙◌, true, false, some, List, [], ◌∷◌, ◌++◌, arith, length, map,
  until_all, Lacks, codes, same_text, suc, Option, append-nil,
}
use game_network.Command.Loop.{
  Tm, Round, Response, Run, after_recv, after_response, reply_first, serve,
}

-- A command that is typed, and the clock when it comes to the server.
pub record Ask : Type 0 where
  pub line : List ℕ
  pub now : Tm

-- What the client's side of it is, and the server's, which takes the bytes with one `recv`.
abbrev pub typed : Ask → Typed
typed a = record { line = a.line; sent = true }

abbrev pub asked : Ask → Round
asked a = record { received = some a.line; now = a.now; sent = true }

-- A line that is a string of up to 1009 bytes, and not the one that ends the client.
pub record IsAsk (a : Ask) : Type 0 where
  pub no_nul : Lacks 0 a.line
  pub filled : 0 < length a.line
  pub short : length a.line < 1010
  pub not_quit : same_text a.line (codes "QUIT\n") ≡ false
  pub year : a.now.year < 10000

-- The texts with which a server answers the commands.
pub data Answered (respond : Tm → List ℕ → Response) : List Ask → List (List ℕ) → Type 0 where
  no_more : Answered respond [] []
  one_more :
      {a : Ask} {asks : List Ask} {text : List ℕ} {texts : List (List ℕ)}
      → IsAsk a
      → respond a.now a.line ≡ Response.answer text
      → IsText text
      → Answered respond asks texts
      → Answered respond (a ∷ asks) (text ∷ texts)

pub after_recv-some :
    (respond : Tm → List ℕ → Response) (later : Run) (round : Round) (line : List ℕ)
    → 0 < length line
    → after_recv respond later round (some line)
      ≡ after_response later round.sent (respond round.now line)
unfolding after_recv
after_recv-some respond later round [] more = absurd (omega arith)
after_recv-some respond later round (b ∷ bs) more = refl

after_send_text :
    (texts : Texts) (next : List (Option (List ℕ)) → ClientRun) (text : List ℕ)
    (rest : List (Option (List ℕ)))
    → IsText text
    → after_send texts next (some text ∷ rest) ≡ print_first (texts.from_server ++ text) (next rest)
unfolding after_send
after_send_text texts next [] rest h = absurd (omega (arith, h.filled))
after_send_text texts next (b ∷ bs) rest h = rw (until_all 0 (b ∷ bs) h.no_nul)

-- A typed line that is sent.
pub client_sends :
    (texts : Texts) (a : Ask) (more : List Typed) (received : List (Option (List ℕ)))
    → IsAsk a
    → client_loop texts (typed a ∷ more) received
      ≡ send_first a.line (after_send texts (client_loop texts more) received)
unfolding client_loop
client_sends texts a more received h = rw (until_all 0 a.line h.no_nul, h.not_quit)

abbrev pub replies_first : List (List ℕ) → Run → Run
replies_first texts (replies, end) = (texts ++ replies, end)

abbrev pub talk_first : List (List ℕ) → List (List ℕ) → ClientRun → ClientRun
talk_first sends prints run = record {
  sends = sends ++ run.sends;
  prints = prints ++ run.prints;
  end = run.end;
}

abbrev pub lines_of : List Ask → List (List ℕ)
lines_of = map (λ a. a.line)

module _ (respond : Tm → List ℕ → Response) where
  pub serve-Answered :
      (asks : List Ask) (texts : List (List ℕ)) (later : List Round)
      → Answered respond asks texts
      → serve respond (map asked asks ++ later) ≡ replies_first texts (serve respond later)
  unfolding serve after_response
  serve-Answered _ _ later no_more = refl
  serve-Answered _ _ later
        (one_more {a = a} {asks = asks} {text = text} {texts = texts} h e t rest) =
      after_recv-some respond (serve respond (map asked asks ++ later)) (asked a) a.line h.filled
      ∙ ap (after_response (serve respond (map asked asks ++ later)) true) e
      ∙ ap (reply_first text) (serve-Answered asks texts later rest)

  pub client-Answered :
      (g : Texts) (asks : List Ask) (texts : List (List ℕ)) (more : List Typed)
      (received : List (Option (List ℕ)))
      → Answered respond asks texts
      → client_loop g (map typed asks ++ more) (map some texts ++ received)
        ≡ talk_first
            (lines_of asks)
            (map (λ t. g.from_server ++ t) texts)
            (client_loop g more received)
  client-Answered g _ _ more received no_more = refl
  client-Answered g _ _ more received
        (one_more {a = a} {asks = asks} {text = text} {texts = texts} h e t rest) =
      client_sends g a (map typed asks ++ more) (map some (text ∷ texts) ++ received) h
      ∙ ap (send_first a.line) (
          after_send_text g (client_loop g (map typed asks ++ more)) text
            (map some texts ++ received) t
          ∙ ap (print_first (g.from_server ++ text))
              (client-Answered g asks texts more received rest))

  pub Answered-length :
      (asks : List Ask) (texts : List (List ℕ))
      → Answered respond asks texts
      → length texts ≡ length asks
  Answered-length _ _ no_more = refl
  Answered-length _ _ (one_more {asks = asks} {texts = texts} h e t rest) =
      ap suc (Answered-length asks texts rest)

pub answer-IsText :
    (r : Response) (text : List ℕ) → AnswersText r → r ≡ Response.answer text → IsText text
answer-IsText r text h e = subst AnswersText e h

-- The client and the texts with which a server answers it.
pub client_all :
    (respond : Tm → List ℕ → Response) (g : Texts) (asks : List Ask) (texts : List (List ℕ))
    (more : List Typed)
    → Answered respond asks texts
    → client_loop g (map typed asks ++ more) (map some texts)
      ≡ talk_first (lines_of asks) (map (λ t. g.from_server ++ t) texts) (client_loop g more [])
client_all respond g asks texts more answers =
    ap (client_loop g (map typed asks ++ more)) (sym (append-nil (map some texts)))
    ∙ client-Answered respond g asks texts more [] answers
