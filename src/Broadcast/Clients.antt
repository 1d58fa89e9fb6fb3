-- ===== src/Broadcast/Clients.antt =====
-- The clients of week11: epoll_client.c, lines 29 to 46, select_client_P.c, lines 24 to 43, and
-- s_c_p2.c, lines 24 to 38. What waits for a `read` is an argument, none for an error of it.
use game_network.Broadcast.Server.{read_buffer}
use game_network.Prelude.{Option, none, some, List, [], ◌∷◌, ℕ}

-- A write to the server or to the screen; `all_of_it` is a write of (size_t)-1 bytes.
pub data Write : Type 0 where
  to_server to_screen : List ℕ → Write
  server_all screen_all : Write

-- An event: standard input, or the socket.
pub data Ready : Type 0 where
  keyboard socket : Option (List ℕ) → Ready

pub data ClientEnd : Type 0 where
  server_closed polling : ClientEnd

abbrev pub ClientRun : Type 0
ClientRun = List Write × ClientEnd

abbrev pub write_first : Write → ClientRun → ClientRun
write_first w (writes, end) = (w ∷ writes, end)

-- `write(client_socket, message_buffer, read_bytes)`
abbrev pub forward : Option (List ℕ) → Write
forward none = server_all
forward (some bytes) = to_server bytes

-- `write(1, message_buffer, read_bytes)`
abbrev pub print : Option (List ℕ) → Write
print none = screen_all
print (some bytes) = to_screen bytes

-- Behind the `read` of the socket.
unfoldable pub take_message : ClientRun → Option (List ℕ) → ClientRun
take_message later none = write_first (print none) later
take_message later (some []) = ([], server_closed)
take_message later (some (b ∷ bs)) = write_first (print (some (b ∷ bs))) later

unfoldable pub epoll_client : List Ready → ClientRun
epoll_client [] = ([], polling)
epoll_client (keyboard typed ∷ events) =
    write_first (forward (read_buffer typed)) (epoll_client events)
epoll_client (socket message ∷ events) = take_message (epoll_client events) (read_buffer message)

-- A round of `select`: what waits for the two reads, where the descriptor is set.
pub record Selected : Type 0 where
  pub typed : Option (Option (List ℕ))
  pub message : Option (Option (List ℕ))

unfoldable pub forward_typed : Option (Option (List ℕ)) → ClientRun → ClientRun
forward_typed none later = later
forward_typed (some typed) later = write_first (forward (read_buffer typed)) later

unfoldable pub print_message : Option (Option (List ℕ)) → ClientRun → ClientRun
print_message none later = later
print_message (some message) later = take_message later (read_buffer message)

unfoldable pub select_client : List Selected → ClientRun
select_client [] = ([], polling)
select_client (round ∷ rounds) =
    forward_typed round.typed (print_message round.message (select_client rounds))

-- s_c_p2.c, lines 34 to 38: the test of the length stands in front of the write, and no loop ends.
unfoldable pub take_nothing : Option (List ℕ) → ClientRun → ClientRun
take_nothing none later = later
take_nothing (some []) later = write_first (print (some [])) later
take_nothing (some (b ∷ bs)) later = later

unfoldable pub print_nothing : Option (Option (List ℕ)) → ClientRun → ClientRun
unfolding take_nothing
print_nothing none later = later
print_nothing (some message) later = take_nothing (read_buffer message) later

unfoldable pub practice_client : List Selected → ClientRun
practice_client [] = ([], polling)
practice_client (round ∷ rounds) =
    forward_typed round.typed (print_nothing round.message (practice_client rounds))
