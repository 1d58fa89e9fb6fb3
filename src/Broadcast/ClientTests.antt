-- ===== src/Broadcast/ClientTests.antt =====
-- Three clients at the server, and the theorems on the clients applied to them.
use game_network.Broadcast.Clients.{Selected, epoll_client, polling}
use game_network.Broadcast.Relay.{
  Message, IsSpoken, heard, message_event, written_to, script, does, relay_talk,
}
use game_network.Prelude.{
  ◌≡◌, refl, some, none, List, [], ◌∷◌, arith, pos, replicate, All, codes, map, count,
}
use game_network.Broadcast.Server.{Server, Effect, serve}

abbrev three : Server
three = record {
  server_socket = pos 3;
  client_sockets = pos 5 ∷ pos 6 ∷ pos 7 ∷ replicate 97 (pos 0);
  client_count = 3;
}

abbrev said : List Message
said =
    record { from = pos 5; text = codes "hi\n" }
    ∷ record { from = pos 6; text = codes "who?\n" }
    ∷ record { from = pos 5; text = codes "me\n" }
    ∷ []

said-IsSpoken : All (IsSpoken three) said
said-IsSpoken = (
  record { not_server = λ e. ground (arith, e); filled = omega arith; fits = omega arith },
  (
    record { not_server = λ e. ground (arith, e); filled = omega arith; fits = omega arith },
    (record { not_server = λ e. ground (arith, e); filled = omega arith; fits = omega arith }, tt),
  ),
)

heard_by_six : heard (pos 6) said ≡ codes "hi\n" ∷ codes "me\n" ∷ []
heard_by_six = refl

relay_talk_example :
    (out : List Effect) × (serve (map message_event said) three ≡ some (three, out))
    × (written_to (pos 6) out ≡ heard (pos 6) said)
    × (epoll_client (script (pos 6) said (written_to (pos 6) out))
        ≡ (map (does (pos 6)) said, polling))
unfolding count
relay_talk_example = relay_talk three said (pos 6) said-IsSpoken refl

abbrev rounds : List Selected
rounds =
    record { typed = some (some (codes "hi\n")); message = some (some (codes "who?\n")) }
    ∷ record { typed = none; message = some (some []) }
    ∷ []
