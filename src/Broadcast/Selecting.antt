-- ===== src/Broadcast/Selecting.antt =====
-- The two clients over `select` against the one over epoll.
use game_network.Broadcast.Clients.{
  Write, Selected, print_message, forward_typed, select_client, Write, print_nothing, Ready,
  epoll_client, ClientRun, keyboard, socket, polling, practice_client,
}
use game_network.Prelude.{◌≡◌, refl, ap, ◌∙◌, none, some, Option, List, [], ◌∷◌, ◌++◌, ℕ, All}

-- The descriptors of a round, as the events that epoll reports for them.
abbrev pub typed_event : Option (Option (List ℕ)) → List Ready
typed_event none = []
typed_event (some typed) = keyboard typed ∷ []

abbrev pub message_event : Option (Option (List ℕ)) → List Ready
message_event none = []
message_event (some message) = socket message ∷ []

abbrev pub events_of : List Selected → List Ready
events_of [] = []
events_of (round ∷ rounds) =
    typed_event round.typed ++ (message_event round.message ++ events_of rounds)

epoll_message :
    (message : Option (Option (List ℕ))) (events : List Ready)
    → print_message message (epoll_client events) ≡ epoll_client (message_event message ++ events)
unfolding print_message epoll_client
epoll_message none events = refl
epoll_message (some message) events = refl

epoll_typed :
    (typed : Option (Option (List ℕ))) (events : List Ready)
    → forward_typed typed (epoll_client events) ≡ epoll_client (typed_event typed ++ events)
unfolding forward_typed epoll_client
epoll_typed none events = refl
epoll_typed (some typed) events = refl

-- The client of select_client_P.c does, on any rounds of select and whatever its reads return, what
-- epoll_client.c does on the same events, the keyboard's before the socket's.
select_client-epoll_client :
    (rounds : List Selected) → select_client rounds ≡ epoll_client (events_of rounds)
unfolding select_client epoll_client
select_client-epoll_client [] = refl
select_client-epoll_client (round ∷ rounds) =
    ap (λ run. forward_typed round.typed (print_message round.message run))
      (select_client-epoll_client rounds)
    ∙ ap (forward_typed round.typed) (epoll_message round.message (events_of rounds))
    ∙ epoll_typed round.typed (message_event round.message ++ events_of rounds)

-- A write that shows nothing.
abbrev pub IsQuiet : Write → Type 0
IsQuiet (Write.to_server bytes) = Unit
IsQuiet (Write.to_screen bytes) = bytes ≡ []
IsQuiet Write.server_all = Unit
IsQuiet Write.screen_all = ⊥

typed-IsQuiet :
    (typed : Option (Option (List ℕ))) (run : ClientRun)
    → All IsQuiet run.0 × (run.1 ≡ polling)
    → All IsQuiet (forward_typed typed run).0 × ((forward_typed typed run).1 ≡ polling)
unfolding forward_typed
typed-IsQuiet none run h = h
typed-IsQuiet (some none) run h = ((tt, h.0), h.1)
typed-IsQuiet (some (some bytes)) run h = ((tt, h.0), h.1)

nothing-IsQuiet :
    (message : Option (Option (List ℕ))) (run : ClientRun)
    → All IsQuiet run.0 × (run.1 ≡ polling)
    → All IsQuiet (print_nothing message run).0 × ((print_nothing message run).1 ≡ polling)
unfolding print_nothing
nothing-IsQuiet none run h = h
nothing-IsQuiet (some none) run h = h
nothing-IsQuiet (some (some [])) run h = ((refl, h.0), h.1)
nothing-IsQuiet (some (some (b ∷ bs))) run h = h

-- The client of s_c_p2.c, on any rounds of select and whatever its reads return, writes no byte to
-- the screen and does not end.
practice_client-IsQuiet :
    (rounds : List Selected)
    → All IsQuiet (practice_client rounds).0 × ((practice_client rounds).1 ≡ polling)
unfolding practice_client
practice_client-IsQuiet [] = (tt, refl)
practice_client-IsQuiet (round ∷ rounds) =
    typed-IsQuiet round.typed (print_nothing round.message (practice_client rounds))
      (nothing-IsQuiet round.message (practice_client rounds) (practice_client-IsQuiet rounds))
