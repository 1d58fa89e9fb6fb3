-- ===== src/Chat/HearingTests.antt =====
-- A client whose two lines come to another in pieces, and the theorem applied to it.
use game_network.Chat.Client.{sender, name_msg, input_over, receiver, shown}
use game_network.Chat.Hearing.{IsName, IsSaid, named, concat, chat_heard}
use game_network.Prelude.{
  ℕ, ◌≡◌, refl, some, none, List, [], ◌∷◌, ◌++◌, arith, All, codes, map, lacks, lacks→Lacks,
  same_text, count, replicate, until,
}
use game_network.Chat.Table.{Table, send_msg}

abbrev two : Table
two = record { client_count = 2; client_socks = 5 ∷ 6 ∷ replicate 98 0 }

abbrev said : List (List ℕ)
said = codes "hi\n" ∷ codes "who is there?\n" ∷ []

kim-IsName : IsName (codes "Kim")
unfolding lacks
kim-IsName = record { no_nul = lacks→Lacks 0 (codes "Kim") refl; short = omega arith }

said-IsSaid : All IsSaid said
unfolding lacks same_text
said-IsSaid = (
  record { no_nul = lacks→Lacks 0 (codes "hi\n") refl; short = omega arith; not_quit = refl },
  (
    record {
      no_nul = lacks→Lacks 0 (codes "who is there?\n") refl;
      short = omega arith;
      not_quit = refl;
    },
    tt,
  ),
)

-- The server reads the two lines at once, and the receiver a byte and the rest.
abbrev piece : List ℕ
piece = codes "[Kim] hi\n[Kim] who is there?\n"

abbrev read_pieces : List (List ℕ)
read_pieces = codes "[" ∷ codes "Kim] hi\n[Kim] who is there?\n" ∷ []

chat_heard_example :
    (sender (codes "Kim") (map some said ++ (none ∷ []))
      ≡ (map (named (codes "Kim")) said, input_over))
    × (receiver (map some read_pieces ++ (some [] ∷ [])) ≡ map shown read_pieces)
    × (concat read_pieces ≡ concat (map (named (codes "Kim")) said))
unfolding sender name_msg until same_text count send_msg
chat_heard_example =
    chat_heard two 6 (codes "Kim") said (piece ∷ []) read_pieces kim-IsName said-IsSaid refl refl
      refl (omega arith, (omega arith, tt))
