-- ===== src/Command/TalkTests.antt =====
-- A session of week3 and one of week3_Prac, and the theorems applied to them.
use game_network.Command.Client.{practice_client, command_client, quitted, waiting}
use game_network.Command.Unanswered.{IsKnown, practice_waits}
use game_network.Command.Served.{left, quits, command_talk}
use game_network.Command.Server.{command_server}
use game_network.Command.Practice.{practice_respond, practice_server, practice_respond_to}
use game_network.Command.Talk.{Ask, IsAsk, asked, typed}
use game_network.Command.Loop.{Tm, in_response, running, closed}
use game_network.Prelude.{
  ℕ, ◌≡◌, refl, some, List, [], ◌∷◌, ◌++◌, arith, codes, length, map, lacks, lacks→Lacks, same_text,
  has_prefix, until,
}

abbrev evening : Tm
evening = record { year = 2025; mon = 3; mday = 7; hour = 20; min = 15; sec = 9 }

abbrev ask_of : List ℕ → Ask
ask_of line = record { line = line; now = evening }

name-IsAsk : IsAsk (ask_of (codes "NAME Kim\n"))
unfolding lacks same_text
name-IsAsk = record {
  no_nul = lacks→Lacks 0 (codes "NAME Kim\n") refl;
  filled = omega arith;
  short = omega arith;
  not_quit = refl;
  year = omega arith;
}

help-IsAsk : IsAsk (ask_of (codes "HELP\n"))
unfolding lacks same_text
help-IsAsk = record {
  no_nul = lacks→Lacks 0 (codes "HELP\n") refl;
  filled = omega arith;
  short = omega arith;
  not_quit = refl;
  year = omega arith;
}

name-IsKnown : IsKnown (ask_of (codes "NAME Kim\n"))
unfolding practice_respond practice_respond_to in_response same_text has_prefix until
name-IsKnown = record {
  ask_ok = name-IsAsk;
  text = codes "My name is Kim's server\n";
  known = refl;
}

abbrev asks : List Ask
asks = ask_of (codes "NAME Kim\n") ∷ ask_of (codes "HELP\n") ∷ []

command_talk_example :
    (texts : List (List ℕ)) × (length texts ≡ 2)
    × (command_server (map asked asks ++ (left evening ∷ [])) ≡ (texts, closed))
    × (command_client (map typed asks ++ (quits ∷ [])) (map some texts) ≡ record {
      sends = map (λ a. a.line) asks;
      prints = map (λ t. codes "from server: " ++ t) texts;
      end = quitted;
    })
command_talk_example = command_talk asks evening (name-IsAsk, (help-IsAsk, tt))

practice_waits_example :
    (texts : List (List ℕ)) × (length texts ≡ 1)
    × (practice_server
          (map asked (ask_of (codes "NAME Kim\n") ∷ []) ++ (asked (ask_of (codes "HELP\n")) ∷ []))
        ≡ (texts, running))
    × (practice_client
          (map typed (ask_of (codes "NAME Kim\n") ∷ [])
            ++ (typed (ask_of (codes "HELP\n")) ∷ quits ∷ []))
          (map some texts)
        ≡ record {
          sends = map (λ b. b.line) (ask_of (codes "NAME Kim\n") ∷ []) ++ (codes "HELP\n" ∷ []);
          prints = map (λ t. codes "From Server : " ++ t) texts;
          end = waiting;
        })
unfolding same_text has_prefix
practice_waits_example =
    practice_waits (ask_of (codes "NAME Kim\n") ∷ []) (ask_of (codes "HELP\n")) (quits ∷ [])
      (name-IsKnown, tt) help-IsAsk refl refl
