-- ===== src/Command/Practice.antt =====
-- week3_Prac/server.c, lines 37 to 71: the same loop, which answers no other command.
use game_network.Prelude.{
  ℕ, if◌then◌else◌, leb, List, ◌++◌, length, drop, until, newline, codes, same_text, has_prefix,
}
use game_network.Command.Loop.{
  Tm, Response, fault, silent, answer, in_response, strftime, buf_size, Round, Run, serve,
}

unfoldable pub practice_respond_to : Tm → List ℕ → Response
practice_respond_to now buf =
    if same_text buf (codes "TIME\n")
    then answer (strftime now)
    else if has_prefix buf (codes "NAME ")
    then in_response (codes "My name is " ++ (until newline (drop 5 buf) ++ codes "'s server\n"))
    else silent

unfoldable pub practice_respond : Tm → List ℕ → Response
practice_respond now bytes =
    if leb buf_size (length bytes) then fault else practice_respond_to now (until 0 bytes)

unfoldable pub practice_server : List Round → Run
practice_server = serve practice_respond
