-- ===== src/Command/Session.antt =====
-- A whole connection of the command server of week3, whatever the bytes of the commands.
use game_network.Prelude.{
  ℕ, suc, ◌<◌, ◌≡◌, refl, ap, ◌∙◌, true, some, List, [], ◌∷◌, ◌++◌, All, length,
}
use game_network.Command.Loop.{
  answer, Round, closed, serve, after_recv, after_response, reply_first,
}
use game_network.Command.Server.{respond, command_server}
use game_network.Command.Bounds.{respond_answers}

-- A round in which the peer sends something short enough, and takes the answer.
record IsServed (round : Round) : Type 0 where
  first : ℕ
  others : List ℕ
  came : round.received ≡ some (first ∷ others)
  short : length (first ∷ others) < 1010
  taken : round.sent ≡ true

served_round :
    (round : Round) (rounds : List Round) (text : List ℕ) (s : IsServed round)
    → respond round.now (s.first ∷ s.others) ≡ answer text
    → serve respond (round ∷ rounds) ≡ reply_first text (serve respond rounds)
unfolding serve after_recv after_response
served_round round rounds text s e = rw (s.came, after_recv) (rw e (rw (after_response, s.taken)))

replies_at_end :
    (rounds : List Round) (last : Round)
    → All IsServed rounds
    → last.received ≡ some []
    → (texts : List (List ℕ)) × (length texts ≡ length rounds)
      × (serve respond (rounds ++ (last ∷ [])) ≡ (texts, closed))
unfolding serve after_recv
replies_at_end [] last h e = ([], refl, rw e)
replies_at_end (round ∷ rounds) last h e =
    let (text, answered) = respond_answers round.now (h.0.first ∷ h.0.others) h.0.short in
    let (texts, same, served) = replies_at_end rounds last h.1 e in
    (
      text ∷ texts,
      ap suc same,
      served_round round (rounds ++ (last ∷ [])) text h.0 answered ∙ ap (reply_first text) served,
    )

-- Commands of at most 1009 bytes, whatever they are, get one answer each while the sends succeed,
-- and the loop ends with the connection.
command_server_answers :
    (rounds : List Round) (last : Round)
    → All IsServed rounds
    → last.received ≡ some []
    → (texts : List (List ℕ)) × (length texts ≡ length rounds)
      × (command_server (rounds ++ (last ∷ [])) ≡ (texts, closed))
unfolding command_server
command_server_answers rounds last h e = replies_at_end rounds last h e
