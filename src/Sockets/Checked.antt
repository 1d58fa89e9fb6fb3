-- ===== src/Sockets/Checked.antt =====
-- The programs that test their calls: weeks 3, 5, 6, 7, 9 and 10, but for week9's client on
-- Windows.
use game_network.Prelude.{
  ℕ, zero, suc, Bool, true, false, ◌||◌, ◌∷◌, ℤ, pos, negsuc, minus_one, ◌==ℤ◌, refl, if◌then◌else◌,
}
use game_network.Sockets.Calls.{stream, socket, accept, connect, talk, close, or_die}
use game_network.Sockets.Monitor.{
  made, listening, joined, at_start, is_failure, ended, run, in_order, answers, open_after, advance,
  listens, new_stream,
}
use game_network.Sockets.Tidy.{
  tidy, die, looping_safe, leaves, other_than_minus_one, or_true, talk_or_die, close_return,
  close_both, Tidy,
}
use game_network.Sockets.Rules.{Safe, Safe-by_answer}
use game_network.Sockets.Heads.{
  at_stage, holds-head, opens, binds, listens_on, accepts, connects, talks_on, closes, advance-head,
}
use game_network.Sockets.Streams.{
  local_at, command_server_main, command_client_main, file_rounds, file_server_main,
  file_client_main, drawing_server_main, drawing_client_main, chat_server_setup, chat_client_main,
}

pub command_server_main-Safe : Safe tidy at_start false command_server_main
unfolding command_server_main or_die
command_server_main-Safe = opens tidy or_die die _ stream λ s e.
    binds tidy or_die die _ stream _ refl λ n. listens_on tidy or_die die _ 5 λ m.
      accepts tidy or_die die _ λ c.
        talk_or_die _ (at_stage (pos c) stream joined) refl
          λ r f. close_both f (at_stage (pos c) stream joined) (at_stage (pos s) stream listening)

pub command_client_main-Safe : Safe tidy at_start false command_client_main
unfolding command_client_main or_die
command_client_main-Safe = opens tidy or_die die _ stream λ s e. connects tidy or_die die _ _ λ n.
    talk_or_die _ (at_stage (pos s) stream joined) refl
      λ r f. close_return f (at_stage (pos s) stream joined)

pub file_rounds-Safe :
    (rounds : ℕ) (fails : Bool) (s : ℕ)
    → Safe tidy (at_stage (pos s) stream listening ∷ at_start) fails (file_rounds rounds (pos s))
unfolding file_rounds in_order answers open_after is_failure
file_rounds-Safe zero fails s = looping_safe _ fails
file_rounds-Safe (suc rounds) fails s =
    let server = at_stage (pos s) stream listening in
    Safe-by_answer tidy (server ∷ at_start) fails (accept (pos s)) _
      (holds-head listens server at_start refl) (λ n. refl) (file_rounds-Safe rounds true s)
      λ c e.
        talks_on tidy (at_stage (pos c) stream joined) refl
          λ r. closes tidy (at_stage (pos c) stream joined) λ q. file_rounds-Safe rounds _ s

pub file_server_main-Safe : (rounds : ℕ) → Safe tidy at_start false (file_server_main rounds)
unfolding file_server_main or_die
file_server_main-Safe rounds = opens tidy or_die die _ stream λ s e.
    binds tidy or_die die _ stream _ refl
      λ n. listens_on tidy or_die die _ 5 λ m. file_rounds-Safe rounds _ s

pub file_client_main-Safe : Safe tidy at_start false file_client_main
unfolding file_client_main or_die is_failure run
file_client_main-Safe = opens tidy or_die die _ stream λ s e. connects tidy or_die die _ _ λ n.
    talks_on tidy (at_stage (pos s) stream joined) refl
      λ r. closes tidy (at_stage (pos s) stream joined) λ q. record { passes = λ rs. status s r q }
  where
    status :
        (s : ℕ) (r q : ℤ)
        → Tidy (
            ended
              (if r ==ℤ minus_one then 1 else 0)
              at_start
              (is_failure (close (pos s)) q || (is_failure (talk (pos s)) r || false)))
    status s (pos n) q = refl
    status s (negsuc zero) (pos n) = refl
    status s (negsuc zero) (negsuc n) = refl
    status s (negsuc (suc n)) q = rw (other_than_minus_one n) refl

pub drawing_server_main-Safe : Safe tidy at_start false drawing_server_main
unfolding drawing_server_main or_die
drawing_server_main-Safe = opens tidy or_die die _ stream λ s e.
    binds tidy or_die die _ stream _ refl λ n. listens_on tidy or_die die _ 5 λ m.
      accepts tidy or_die die _ λ c.
        talks_on tidy (at_stage (pos c) stream joined) refl
          λ r. close_both _ (at_stage (pos c) stream joined) (at_stage (pos s) stream listening)

pub drawing_client_main-Safe : Safe tidy at_start false drawing_client_main
unfolding drawing_client_main or_die
drawing_client_main-Safe = opens tidy or_die die _ stream λ s e. connects tidy or_die die _ _ λ n.
    talks_on tidy (at_stage (pos s) stream joined) refl
      λ r. close_return _ (at_stage (pos s) stream joined)

pub chat_server_setup-Safe : Safe tidy at_start false chat_server_setup
unfolding chat_server_setup or_die
chat_server_setup-Safe = opens tidy or_die die _ stream λ s e.
    binds tidy or_die die _ stream _ refl λ n. listens_on tidy or_die die _ 5 λ m. looping_safe _ _

pub chat_client_main-Safe : Safe tidy at_start false chat_client_main
unfolding chat_client_main in_order answers open_after is_failure advance
chat_client_main-Safe =
    Safe-by_answer tidy at_start false (socket stream) _ refl (λ n. refl) (leaves _ true refl)
      λ s e.
        let made_socket = at_stage (pos s) stream made in
        Safe-by_answer tidy (made_socket ∷ at_start) false (connect (pos s) (local_at 5000)) _
          (holds-head new_stream made_socket at_start refl) (λ n. refl)
          (closes tidy made_socket λ r. leaves _ _ (or_true (is_failure (close (pos s)) r)))
          λ n d. rw (advance-head joined made_socket at_start) (
            talks_on tidy (at_stage (pos s) stream joined) refl
              λ r. close_return _ (at_stage (pos s) stream joined))
