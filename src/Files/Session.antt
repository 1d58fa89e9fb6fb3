-- ===== src/Files/Session.antt =====
-- week5/Iserver.c, lines 52 to 78: `handle_client`, the server's side of a connection, as the lines
-- that it sends for the stream that it receives.

use game_network.Prelude.{
  ℕ, zero, suc, ◌-◌, if◌then◌else◌, Bool, Option, none, some, List, [], ◌∷◌, ◌++◌, length, drop,
  until, codes, same_text, has_prefix,
}
use game_network.Files.Line.{buf_size, recv_line}
use game_network.Files.Commands.{Disk, cmd_list, cmd_get, command_list}
use game_network.Files.Upload.{cmd_uplode}

pub data Command : Type 0 where
  list quit unknown : Command
  get load : List ℕ → Command

-- The tests on the line.
unfoldable pub command : List ℕ → Command
command buf =
    if same_text buf (codes "list")
    then list
    else if has_prefix buf (codes "get ")
    then get (drop 4 buf)
    else if has_prefix buf (codes "load ")
    then load (drop 5 buf)
    else if same_text buf (codes "quit")
    then quit
    else unknown

-- What a round of the loop meets outside: the disk, whether a send of READY succeeds, and the sizes
-- of the chunks of an upload.
pub record Round : Type 0 where
  pub disk : Disk
  pub ready_sent : Bool
  pub sizes : ℕ → ℕ

-- Behind an answer: the list of commands, and the next round.
abbrev then_commands : (List ℕ → List (List ℕ)) → List (List ℕ) → List ℕ → List (List ℕ)
then_commands next lines rest = lines ++ (command_list ∷ next rest)

unfoldable pub handle_command : (List ℕ → List (List ℕ)) → Round → Command → List ℕ → List (List ℕ)
handle_command next round list rest = then_commands next (cmd_list round.disk) rest
handle_command next round quit rest = []
handle_command next round unknown rest = then_commands next (codes "Unknown command" ∷ []) rest
handle_command next round (get name) rest = then_commands next (cmd_get round.disk name) rest
handle_command next round (load name) rest =
    let up = cmd_uplode round.disk round.ready_sent (suc (length rest)) round.sizes name rest in
    then_commands next up.replies up.rest

-- Behind `recv_line(...) > 0`.
unfoldable pub handle_line :
    (List ℕ → List (List ℕ)) → Round → Option (List ℕ) → List ℕ → List (List ℕ)
handle_line next round none rest = []
handle_line next round (some []) rest = []
handle_line next round (some (b ∷ bs)) rest =
    handle_command next round (command (until 0 (b ∷ bs))) rest

-- The loop. A round that is not the last takes a byte at least, so the length of the stream is fuel
-- enough.
unfoldable pub handle_loop : ℕ → (ℕ → Round) → List ℕ → List (List ℕ)
handle_loop zero rounds stream = []
handle_loop (suc fuel) rounds stream =
    let (line, rest) = recv_line (buf_size - 1) stream in
    handle_line (handle_loop fuel (λ k. rounds (suc k))) (rounds 0) line rest

unfoldable pub handle_client : (ℕ → Round) → List ℕ → List (List ℕ)
handle_client rounds stream = command_list ∷ handle_loop (suc (length stream)) rounds stream
