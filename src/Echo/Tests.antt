-- ===== src/Echo/Tests.antt =====
-- Lines at the echo programs, and their theorems applied to them.
use game_network.Echo.Datagram.{linux_client, linux_server, windows_server, windows_client}
use game_network.Echo.Builds.{
  IsTyped, echoed, echoes, last_text, linux_server-windows_server, datagram_talk,
}
use game_network.Echo.Talk.{IsLine, echo_talk}
use game_network.Prelude.{
  ◌≡◌, refl, some, none, List, [], ◌∷◌, ◌++◌, arith, All, codes, map, until, lacks, lacks→Lacks,
  same_text, newline, ℕ,
}
use game_network.Files.Stream.{unlines}
use game_network.Echo.Stream.{closed, quitted, running, echo_server, echo_client}

abbrev two_lines : List (List ℕ)
two_lines = codes "hello\n" ∷ codes "q\n or not\n" ∷ []

two_lines-IsLine : All IsLine two_lines
unfolding lacks same_text
two_lines-IsLine = (
  record {
    no_nul = lacks→Lacks 0 (codes "hello\n") refl;
    filled = omega arith;
    short = omega arith;
    not_quit = refl;
  },
  (
    record {
      no_nul = lacks→Lacks 0 (codes "q\n or not\n") refl;
      filled = omega arith;
      short = omega arith;
      not_quit = refl;
    },
    tt,
  ),
)

echo_talk_example :
    (echo_server [] (map some two_lines ++ (some [] ∷ []))
      ≡ record { sends = two_lines; shows = two_lines; end = closed })
    × (echo_client (map some two_lines ++ (some (codes "q\n") ∷ [])) [] (map some two_lines)
        ≡ record { sends = two_lines; shows = two_lines; end = quitted })
echo_talk_example = echo_talk two_lines [] [] two_lines-IsLine

abbrev typed_lines : List (List ℕ)
typed_lines = codes "hello" ∷ [] ∷ []

typed_lines-IsTyped : All IsTyped typed_lines
unfolding lacks
typed_lines-IsTyped = (
  record {
    no_nul = lacks→Lacks 0 (codes "hello") refl;
    no_newline = lacks→Lacks newline (codes "hello") refl;
    short = omega arith;
  },
  (record { no_nul = tt; no_newline = tt; short = omega arith }, tt),
)

datagram_talk_example :
    (linux_client (unlines typed_lines) (map some typed_lines) ≡ echoed typed_lines quitted)
    × (windows_client (map some typed_lines ++ (none ∷ [])) (map some typed_lines)
        ≡ echoed typed_lines quitted)
    × (linux_server [] (map some typed_lines) ≡ echoed typed_lines running)
    × (windows_server (map some typed_lines) ≡ echoed typed_lines running)
datagram_talk_example = datagram_talk [] typed_lines typed_lines-IsTyped

-- A datagram with a NUL, one without, an error, and another datagram.
linux_server-windows_server_example :
    (windows_server (map some ((1 ∷ 0 ∷ 2 ∷ []) ∷ (3 ∷ []) ∷ []) ++ (none ∷ some (4 ∷ []) ∷ []))
      ≡ record {
        sends = (1 ∷ 0 ∷ 2 ∷ []) ∷ (3 ∷ []) ∷ [];
        shows = map (until 0) ((1 ∷ 0 ∷ 2 ∷ []) ∷ (3 ∷ []) ∷ []);
        end = closed;
      })
    × (linux_server [] (map some ((1 ∷ 0 ∷ 2 ∷ []) ∷ (3 ∷ []) ∷ []) ++ (none ∷ some (4 ∷ []) ∷ []))
        ≡ echoes
            (map (until 0) ((1 ∷ 0 ∷ 2 ∷ []) ∷ (3 ∷ []) ∷ [])
              ++ (last_text [] ((1 ∷ 0 ∷ 2 ∷ []) ∷ (3 ∷ []) ∷ []) ∷ []))
            (linux_server (last_text [] ((1 ∷ 0 ∷ 2 ∷ []) ∷ (3 ∷ []) ∷ [])) (some (4 ∷ []) ∷ [])))
linux_server-windows_server_example =
    linux_server-windows_server [] ((1 ∷ 0 ∷ 2 ∷ []) ∷ (3 ∷ []) ∷ []) (some (4 ∷ []) ∷ [])
      (omega arith, (omega arith, tt))
