-- ===== src/Command/Answers.antt =====
-- The answers of the command servers are texts that a client can take and print whole.
use game_network.Command.Practice.{practice_respond, practice_respond_to}
use game_network.Command.Server.{respond, respond_to}
use game_network.Command.Loop.{buf_size, Response, strftime, in_response, Tm, two_digits}
use game_network.Prelude.{
  zero, suc, lacks, ℕ, ◌+◌, ◌<◌, ◌≡◌, refl, ◌==◌, leb, false, inl, inr, Bool-cases, List, [], ◌∷◌,
  ◌++◌, arith, All-append, length, length-append, drop, until, newline, Lacks, codes, same_text,
  has_prefix, suc, print_decimal, lacks→Lacks, print_decimal-Lacks, length-print_decimal, All,
}

-- A text that one `recv` of a client takes, and `printf` prints, whole.
pub record IsText (text : List ℕ) : Type 0 where
  pub no_nul : Lacks 0 text
  pub filled : 0 < length text
  pub fits : length text < buf_size

-- An answer, if there is one, is such a text.
abbrev pub AnswersText : Response → Type 0
AnswersText Response.fault = Unit
AnswersText Response.silent = Unit
AnswersText (Response.answer text) = IsText text

Lacks-until : (bs : List ℕ) → Lacks 0 (until 0 bs)
unfolding until
Lacks-until [] = tt
Lacks-until (b ∷ bs) = elim (Bool-cases (b == 0)) [
  | inl e ↦ rw e tt
  | inr e ↦ rw e (e, Lacks-until bs)
]

Lacks-drop : (k : ℕ) (bs : List ℕ) → Lacks 0 bs → Lacks 0 (drop k bs)
Lacks-drop zero bs h = h
Lacks-drop (suc k) [] h = tt
Lacks-drop (suc k) (b ∷ bs) h = Lacks-drop k bs h.1

Lacks-until_of : (c : ℕ) (bs : List ℕ) → Lacks 0 bs → Lacks 0 (until c bs)
unfolding until
Lacks-until_of c [] h = tt
Lacks-until_of c (b ∷ bs) h = elim (Bool-cases (b == c)) [
  | inl e ↦ rw e tt
  | inr e ↦ rw e (h.0, Lacks-until_of c bs h.1)
]

digit_filled : (d : ℕ) → (b'0' + d == 0) ≡ false
digit_filled d = ground arith

-- A field of the date behind the byte in front of it.
abbrev fields : List (ℕ × ℕ) → List ℕ
fields [] = 10 ∷ []
fields ((c, n) ∷ fs) = c ∷ (two_digits n ++ fields fs)

fields-Lacks : (fs : List (ℕ × ℕ)) → All (λ f. (f.0 == 0) ≡ false) fs → Lacks 0 (fields fs)
fields-Lacks [] h = (refl, tt)
fields-Lacks ((c, n) ∷ fs) h = (h.0, (digit_filled _, (digit_filled _, fields-Lacks fs h.1)))

-- What stands behind the year.
abbrev parts : Tm → List (ℕ × ℕ)
parts tm = (b'-', tm.mon) ∷ (b'-', tm.mday) ∷ (b' ', tm.hour) ∷ (b':', tm.min) ∷ (b':', tm.sec) ∷ []

strftime-IsText : (now : Tm) → now.year < 10000 → IsText (strftime now)
unfolding strftime
strftime-IsText now h = record {
  no_nul =
      All-append (λ b. (b == 0) ≡ false) (print_decimal now.year) (fields (parts now))
        (print_decimal-Lacks 0 now.year refl)
        (fields-Lacks (parts now) (refl, (refl, (refl, (refl, (refl, tt))))));
  filled = omega (arith, length-append (print_decimal now.year) (fields (parts now)));
  fits = omega (
    arith,
    length-append (print_decimal now.year) (fields (parts now)),
    length-print_decimal 3 now.year h,
  );
}

in_response-AnswersText :
    (text : List ℕ) → Lacks 0 text → 0 < length text → AnswersText (in_response text)
unfolding in_response
in_response-AnswersText text z more = elim (Bool-cases (leb buf_size (length text))) [
  | inl e ↦ rw e tt
  | inr e ↦ rw e (record { no_nul = z; filled = more; fits = ground arith })
]

my_name-Lacks : Lacks 0 (codes "My name is ")
unfolding lacks
my_name-Lacks = lacks→Lacks 0 (codes "My name is ") refl

server-Lacks : Lacks 0 (codes " Server\n")
unfolding lacks
server-Lacks = lacks→Lacks 0 (codes " Server\n") refl

practice-Lacks : Lacks 0 (codes "'s server\n")
unfolding lacks
practice-Lacks = lacks→Lacks 0 (codes "'s server\n") refl

unknown-IsText : IsText (codes "Unknown Command\n")
unfolding lacks
unknown-IsText = record {
  no_nul = lacks→Lacks 0 (codes "Unknown Command\n") refl;
  filled = omega arith;
  fits = omega arith;
}

-- The name in a buffer, framed by the texts of a server.
named-AnswersText :
    (bytes after : List ℕ)
    → Lacks 0 after
    → AnswersText
        (in_response (codes "My name is " ++ (until newline (drop 5 (until 0 bytes)) ++ after)))
named-AnswersText bytes after h =
    let name = until newline (drop 5 (until 0 bytes)) in
    let name-Lacks =
      Lacks-until_of newline (drop 5 (until 0 bytes))
        (Lacks-drop 5 (until 0 bytes) (Lacks-until bytes)) in
    in_response-AnswersText (codes "My name is " ++ (name ++ after))
      (All-append (λ b. (b == 0) ≡ false) (codes "My name is ") (name ++ after) my_name-Lacks
        (All-append (λ b. (b == 0) ≡ false) name after name-Lacks h))
      (omega arith)

pub respond-AnswersText :
    (now : Tm) (bytes : List ℕ) → now.year < 10000 → AnswersText (respond now bytes)
unfolding respond respond_to
respond-AnswersText now bytes h =
    let buf = until 0 bytes in
    elim (Bool-cases (leb buf_size (length bytes))) [
      | inl e ↦ rw (respond, e) tt
      | inr e ↦ elim (Bool-cases (same_text buf (codes "TIME\n"))) [
        | inl g ↦ rw (respond, e, g) (strftime-IsText now h)
        | inr g ↦ elim (Bool-cases (has_prefix buf (codes "NAME "))) [
          | inl k ↦ rw (respond, e, g, k) (named-AnswersText bytes (codes " Server\n") server-Lacks)
          | inr k ↦ rw (respond, e, g, k) unknown-IsText
        ]
      ]
    ]

pub practice_respond-AnswersText :
    (now : Tm) (bytes : List ℕ) → now.year < 10000 → AnswersText (practice_respond now bytes)
unfolding practice_respond practice_respond_to
practice_respond-AnswersText now bytes h =
    let buf = until 0 bytes in
    elim (Bool-cases (leb buf_size (length bytes))) [
      | inl e ↦ rw (practice_respond, e) tt
      | inr e ↦ elim (Bool-cases (same_text buf (codes "TIME\n"))) [
        | inl g ↦ rw (practice_respond, e, g) (strftime-IsText now h)
        | inr g ↦ elim (Bool-cases (has_prefix buf (codes "NAME "))) [
          | inl k ↦
              rw (practice_respond, e, g, k)
                (named-AnswersText bytes (codes "'s server\n") practice-Lacks)
          | inr k ↦ rw (practice_respond, e, g, k) tt
        ]
      ]
    ]
