-- ===== src/Command/Bounds.antt =====
-- Which bytes the command servers answer inside their buffers.
use game_network.Command.Practice.{practice_respond, practice_respond_to}
use game_network.Prelude.{
  ℕ, ◌+◌, ◌<◌, ◌≤◌, ◌≡◌, refl, ◌==◌, if◌then◌else◌, leb, ltb, false, inl, inr, Bool-cases, List, [],
  ◌∷◌, ◌++◌, arith, All-append, length, length-append, length-drop, drop, until, until_all,
  until-append, newline, Lacks, codes, same_text, has_prefix, ◌-◌,
}
use game_network.Command.Loop.{Tm, fault, answer, in_response, strftime, buf_size}
use game_network.Command.Server.{respond, respond_to}

length-until : (c : ℕ) (bs : List ℕ) → length (until c bs) ≤ length bs
unfolding until
length-until c [] = omega arith
length-until c (b ∷ bs) = elim (Bool-cases (b == c)) [
  | inl e ↦ rw e (omega arith)
  | inr e ↦ rw e (omega (arith, length-until c bs))
]

in_response_fits : (text : List ℕ) → length text < buf_size → in_response text ≡ answer text
unfolding in_response
in_response_fits text h = ground arith

-- The name in the command, framed by the texts of the server.
framed :
    (before name after : List ℕ)
    → length (before ++ (name ++ after)) ≡ length before + (length name + length after)
framed before name after =
    omega (arith, length-append before (name ++ after), length-append name after)

in_response_test :
    (text name : List ℕ) (k : ℕ)
    → length text ≡ 11 + (length name + k)
    → k < 1013
    → in_response text ≡ (if ltb (length name) (1013 - k) then answer text else fault)
unfolding in_response
in_response_test text name k e small = ground (arith, e)

name_command-Lacks :
    (name : List ℕ) → Lacks 0 name → Lacks 0 (codes "NAME " ++ (name ++ (newline ∷ [])))
name_command-Lacks name z = (
  refl,
  (
    refl,
    (refl, (refl, (refl, All-append (λ b. (b == 0) ≡ false) name (newline ∷ []) z (refl, tt)))),
  ),
)

-- Up to 1009 bytes are answered, whatever they are.
pub respond_answers :
    (now : Tm) (bytes : List ℕ)
    → length bytes < 1010
    → (text : List ℕ) × (respond now bytes ≡ answer text)
unfolding respond respond_to
respond_answers now bytes h =
    let room : leb buf_size (length bytes) ≡ false = ground arith in
    let buf = until 0 bytes in
    let name = until newline (drop 5 buf) in
    elim (Bool-cases (same_text buf (codes "TIME\n"))) [
      | inl e ↦ (strftime now, rw (respond, room, respond_to, e))
      | inr e ↦ elim (Bool-cases (has_prefix buf (codes "NAME "))) [
        | inl g ↦ (
          codes "My name is " ++ (name ++ codes " Server\n"),
          rw (respond, room, respond_to, e, g)
              (in_response_fits (codes "My name is " ++ (name ++ codes " Server\n")) (
                omega (
                  arith,
                  framed (codes "My name is ") name (codes " Server\n"),
                  length-until newline (drop 5 buf),
                  length-drop 5 buf,
                  length-until 0 bytes,
                ))),
        )
        | inr g ↦ (codes "Unknown Command\n", rw (respond, room, respond_to, e, g))
      ]
    ]

-- A NAME command with a name without newline and NUL that fits into the first buffer is answered
-- with the name if that is shorter than 1005 bytes, and from there on the answer is written behind
-- the second buffer.
pub respond_name :
    (now : Tm) (name : List ℕ)
    → Lacks newline name
    → Lacks 0 name
    → length name < 1018
    → respond now (codes "NAME " ++ (name ++ (newline ∷ []))) ≡ (
        if ltb (length name) 1005
        then answer (codes "My name is " ++ (name ++ codes " Server\n"))
        else fault)
unfolding respond respond_to same_text has_prefix
respond_name now name n z h =
    let bytes = codes "NAME " ++ (name ++ (newline ∷ [])) in
    let text = codes "My name is " ++ (name ++ codes " Server\n") in
    let len = framed (codes "NAME ") name (newline ∷ []) in
    let room : leb buf_size (length bytes) ≡ false = ground (arith, len) in
    let plain = until_all 0 bytes (name_command-Lacks name z) in
    let whole = until-append newline name [] n in
    rw (respond, room, plain)
      (rw whole (
        in_response_test text name 8 (framed (codes "My name is ") name (codes " Server\n"))
          (omega arith)))

-- The server of week3_Prac answers a NAME command with a name without newline and NUL that fits
-- into its first buffer if the name is shorter than 1003 bytes, and from there on writes behind its
-- second buffer.
practice_respond_name :
    (now : Tm) (name : List ℕ)
    → Lacks newline name
    → Lacks 0 name
    → length name < 1018
    → practice_respond now (codes "NAME " ++ (name ++ (newline ∷ []))) ≡ (
        if ltb (length name) 1003
        then answer (codes "My name is " ++ (name ++ codes "'s server\n"))
        else fault)
unfolding practice_respond practice_respond_to same_text has_prefix
practice_respond_name now name n z h =
    let bytes = codes "NAME " ++ (name ++ (newline ∷ [])) in
    let text = codes "My name is " ++ (name ++ codes "'s server\n") in
    let len = framed (codes "NAME ") name (newline ∷ []) in
    let room : leb buf_size (length bytes) ≡ false = ground (arith, len) in
    let plain = name_command-Lacks name z in
    let whole = until-append newline name [] n in
    rw (practice_respond, room, until_all 0 bytes plain)
      (rw whole (
        in_response_test text name 10 (framed (codes "My name is ") name (codes "'s server\n"))
          (omega arith)))
