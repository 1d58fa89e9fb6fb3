-- ===== src/Broadcast/Tests.antt =====
-- Runs of the message server of week11, and its theorems applied to them.
use game_network.Prelude.{
  ℕ, ◌≡◌, refl, none, some, List, [], ◌∷◌, arith, ℤ, pos, count, replicate, first_index,
}
use game_network.Broadcast.Server.{Server, Event, Effect, start, clients, remove_client, serve}
use game_network.Broadcast.Swap.{IsArray, bag}
use game_network.Broadcast.Run.{bag_serve, serve-bag}

abbrev began : Server
began = start (pos 3) (replicate 100 (pos 0))

began-IsArray : IsArray began
began-IsArray = record { cells = refl; counted = omega arith }

abbrev connects : ℤ → Event
connects sock = record { current_fd = pos 3; client_socket = sock; message = none }

abbrev says : ℤ → List ℕ → Event
says sock bytes = record { current_fd = sock; client_socket = pos 0; message = some bytes }

-- Three clients come, one speaks, and the first leaves.
abbrev events : List Event
events =
    connects (pos 5)
    ∷ connects (pos 6)
    ∷ connects (pos 7)
    ∷ says (pos 6) (104 ∷ 105 ∷ [])
    ∷ says (pos 5) []
    ∷ []

serve-bag_example :
    (t : Server) × (out : List Effect) × (serve events began ≡ some (t, out))
    × (bag t ≡ bag_serve (pos 3) events (bag began))
    × IsArray t
unfolding count
serve-bag_example = serve-bag events began began-IsArray (omega arith)

abbrev three : Server
three = record {
  server_socket = pos 3;
  client_sockets = pos 5 ∷ pos 6 ∷ pos 7 ∷ replicate 97 (pos 0);
  client_count = 3;
}

three-IsArray : IsArray three
three-IsArray = record { cells = refl; counted = omega arith }

swapped : clients (remove_client (pos 5) three) ≡ pos 7 ∷ pos 6 ∷ []
unfolding remove_client first_index
swapped = refl
