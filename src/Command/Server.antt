-- ===== src/Command/Server.antt =====
-- week3/server.c, lines 52 to 79: what the server answers to the bytes of a `recv`.
use game_network.Prelude.{
  ℕ, if◌then◌else◌, leb, List, ◌++◌, length, drop, until, newline, codes, same_text, has_prefix,
}
use game_network.Command.Loop.{
  Tm, Response, fault, answer, in_response, strftime, buf_size, Round, Run, serve,
}

-- The tests on the string in the buffer.
unfoldable pub respond_to : Tm → List ℕ → Response
respond_to now buf =
    if same_text buf (codes "TIME\n")
    then answer (strftime now)
    else if has_prefix buf (codes "NAME ")
    then in_response (codes "My name is " ++ (until newline (drop 5 buf) ++ codes " Server\n"))
    else answer (codes "Unknown Command\n")

-- `buf[str_len] = 0` is behind the buffer where `recv` has filled it.
unfoldable pub respond : Tm → List ℕ → Response
respond now bytes = if leb buf_size (length bytes) then fault else respond_to now (until 0 bytes)

unfoldable pub command_server : List Round → Run
command_server = serve respond
