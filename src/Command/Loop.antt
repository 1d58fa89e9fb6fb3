-- ===== src/Command/Loop.antt =====
-- week3/server.c, lines 38 to 80: the loop of `main` around the commands. What `recv`, `send` and
-- the clock return is an argument of each round.
use game_network.Prelude.{
  ℕ, ◌+◌, ◌/◌, ◌%◌, if◌then◌else◌, leb, Bool, Option, none, some, List, [], ◌∷◌, ◌++◌, length,
  print_decimal,
}

abbrev pub buf_size : ℕ
buf_size = 1024

-- `struct tm`, as far as the format reads it; the year is the whole one.
pub record Tm : Type 0 where
  pub year : ℕ
  pub mon : ℕ
  pub mday : ℕ
  pub hour : ℕ
  pub min : ℕ
  pub sec : ℕ

abbrev pub two_digits : ℕ → List ℕ
two_digits n = (b'0' + n / 10 % 10) ∷ (b'0' + n % 10) ∷ []

-- `strftime(..., "%Y-%m-%d %H:%M:%S\n", &tm)`
unfoldable pub strftime : Tm → List ℕ
strftime tm =
    print_decimal tm.year
    ++ (b'-'
        ∷ (two_digits tm.mon
            ++ (b'-'
                ∷ (two_digits tm.mday
                    ++ (b' '
                        ∷ (two_digits tm.hour
                            ++ (b':'
                                ∷ (two_digits tm.min
                                    ++ (b':' ∷ (two_digits tm.sec ++ (10 ∷ [])))))))))))

-- What a round does with the bytes: a write behind a buffer, no answer, or an answer.
pub data Response : Type 0 where
  fault silent : Response
  answer : List ℕ → Response

-- `sprintf(response, ...)`: the text and its NUL are in the buffer, or behind it.
unfoldable pub in_response : List ℕ → Response
in_response text = if leb buf_size (length text) then fault else answer text

pub record Round : Type 0 where
  pub received : Option (List ℕ)  -- recv, none for -1
  pub now : Tm
  pub sent : Bool  -- whether send succeeds

-- How the loop ended: the peer closed, `printError`, a fault, or not yet.
pub data End : Type 0 where
  closed failed broken running : End

abbrev pub Run : Type 0
Run = List (List ℕ) × End

abbrev pub reply_first : List ℕ → Run → Run
reply_first text (replies, end) = (text ∷ replies, end)

unfoldable pub after_response : Run → Bool → Response → Run
after_response later sent fault = ([], broken)
after_response later sent silent = later
after_response later sent (answer text) = if sent then reply_first text later else ([], failed)

unfoldable pub after_recv : (Tm → List ℕ → Response) → Run → Round → Option (List ℕ) → Run
after_recv respond later round none = ([], failed)
after_recv respond later round (some []) = ([], closed)
after_recv respond later round (some (b ∷ bytes)) =
    after_response later round.sent (respond round.now (b ∷ bytes))

-- The loop, over the rounds that come, with what the program does with the bytes of one.
unfoldable pub serve : (Tm → List ℕ → Response) → List Round → Run
serve respond [] = ([], running)
serve respond (round ∷ rounds) = after_recv respond (serve respond rounds) round round.received
