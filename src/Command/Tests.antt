-- ===== src/Command/Tests.antt =====
-- A connection to the command servers, and their theorems applied to it.
use game_network.Prelude.{
  print_decimal, ℕ, ◌≡◌, refl, if◌then◌else◌, ltb, List, [], ◌∷◌, ◌++◌, arith, codes, length,
  newline, Lacks, lacks, lacks→Lacks,
}
use game_network.Command.Loop.{Tm, answer, fault, strftime}
use game_network.Command.Server.{respond}
use game_network.Command.Bounds.{respond_name}

abbrev noon : Tm
noon = record { year = 2025; mon = 3; mday = 7; hour = 12; min = 0; sec = 9 }

noon_text : strftime noon ≡ codes "2025-03-07 12:00:09\n"
unfolding strftime print_decimal
noon_text = refl

abbrev name : List ℕ
name = codes "Kim"

name_no_newline : Lacks newline name
unfolding lacks
name_no_newline = lacks→Lacks newline name refl

name_no_nul : Lacks 0 name
unfolding lacks
name_no_nul = lacks→Lacks 0 name refl

respond_name_example : respond noon (codes "NAME " ++ (name ++ (newline ∷ []))) ≡ (
    if ltb (length name) 1005
    then answer (codes "My name is " ++ (name ++ codes " Server\n"))
    else fault)
respond_name_example = respond_name noon name name_no_newline name_no_nul (omega arith)
