-- ===== src/Drawing/Text.antt =====
-- week6/var_client.c and week6/var_server.c: a drawing message as lines `key=value`. A field is a
-- number that an int32_t holds (IsDrawing), and what `%d` reads is made to fit it.
use game_network.Prelude.{
  ℕ, zero, suc, ◌==◌, if◌then◌else◌, leb, Bool, ◌&&◌, ◌||◌, Option, none, some, List, [], ◌∷◌, ◌++◌,
  drop, ℤ, pos, negsuc, print_decimal, read_digits, is_digit, until, codes, newline, has_prefix,
  ◌<◌, ltb, ◌%◌, ◌-◌,
}

-- The struct of week6/var_lcommon.h.
pub record DrawingText : Type 0 where
  pub x1 : ℤ
  pub y1 : ℤ
  pub x2 : ℤ
  pub y2 : ℤ
  pub width : ℤ
  pub color : ℤ

abbrev pub int_max : ℕ
int_max = 2147483648

-- The numbers of an int32_t, from -2147483648 to 2147483647.
abbrev pub IsInt32 : ℤ → Type 0
IsInt32 (pos n) = n < int_max
IsInt32 (negsuc n) = n < int_max

pub record IsDrawing (m : DrawingText) : Type 0 where
  pub x1_fits : IsInt32 m.x1
  pub y1_fits : IsInt32 m.y1
  pub x2_fits : IsInt32 m.x2
  pub y2_fits : IsInt32 m.y2
  pub width_fits : IsInt32 m.width
  pub color_fits : IsInt32 m.color

-- `%d` of `printf`
unfoldable pub print_int : ℤ → List ℕ
print_int (pos n) = print_decimal n
print_int (negsuc n) = b'-' ∷ print_decimal (suc n)

abbrev pub entry : List ℕ → ℤ → List ℕ
entry key value = key ++ print_int value

-- The lines that the client prints into its buffer.
abbrev pub entries : DrawingText → List (List ℕ)
entries m =
    entry (codes "x1=") m.x1
    ∷ entry (codes "y1=") m.y1
    ∷ entry (codes "x2=") m.x2
    ∷ entry (codes "y2=") m.y2
    ∷ entry (codes "width=") m.width
    ∷ entry (codes "color=") m.color
    ∷ []

abbrev pub end_marker : List ℕ
end_marker = codes "END"

abbrev pub text_lines : List (List ℕ) → List ℕ
text_lines [] = []
text_lines (l ∷ ls) = l ++ (newline ∷ text_lines ls)

-- The client's buffer after `sprintf`, all of which `write` sends.
unfoldable pub message_text : DrawingText → List ℕ
message_text m = text_lines (entries m) ++ (end_marker ++ (newline ∷ []))

-- `strstr(s, t) != NULL`
unfoldable pub contains : List ℕ → List ℕ → Bool
contains [] t = has_prefix [] t
contains (b ∷ bs) t = has_prefix (b ∷ bs) t || contains bs t

abbrev pub prepend : ℕ → List (List ℕ) → List (List ℕ)
prepend b [] = (b ∷ []) ∷ []
prepend b (token ∷ tokens) = (b ∷ token) ∷ tokens

-- The parts between newlines, empty ones among them.
unfoldable pub split_lines : List ℕ → List (List ℕ)
split_lines [] = [] ∷ []
split_lines (b ∷ bs) =
    let rest = split_lines bs in if b == newline then [] ∷ rest else prepend b rest

-- What `strtok` gives: the parts that are not empty.
abbrev pub strtok : List (List ℕ) → List (List ℕ)
strtok [] = []
strtok ([] ∷ parts) = strtok parts
strtok ((b ∷ bs) ∷ parts) = (b ∷ bs) ∷ strtok parts

abbrev pub is_space : ℕ → Bool
is_space b = b == 32 || leb 9 b && leb b 13

-- The 64 bits to which strtol, and the libc's `%d`, clip a number.
abbrev pub clipped : ℕ → ℕ
clipped n = if ltb n 9223372036854775808 then n else 9223372036854775807

-- Those 64 bits as an int: the low 32 of them. The number `negsuc n` has the bits of `n` turned
-- round.
abbrev pub low_bits : ℕ → (ℕ → ℤ) → (ℕ → ℤ) → ℤ
low_bits n same turned =
    let low = n % 4294967296 in if ltb low int_max then same low else turned (4294967295 - low)

unfoldable pub to_int : ℤ → ℤ
to_int (pos n) = low_bits (clipped n) pos negsuc
to_int (negsuc n) = low_bits (clipped n) negsuc pos

unfoldable pub with_digits : (ℕ → ℤ) → List ℕ → Option ℤ
unfolding to_int
with_digits sign [] = none
with_digits sign (b ∷ bs) =
    if is_digit b then some (to_int (sign (read_digits 0 (b ∷ bs)))) else none

abbrev pub negate : ℕ → ℤ
negate zero = pos 0
negate (suc n) = negsuc n

-- `%d` of `sscanf`: none where it finds no digit, and the field keeps its value.
unfoldable pub scan_int : List ℕ → Option ℤ
unfolding with_digits
scan_int [] = none
scan_int (b ∷ bs) =
    let rest = scan_int bs in
    if is_space b
    then rest
    else if b == b'-'
    then with_digits negate bs
    else if b == b'+'
    then with_digits pos bs
    else with_digits pos (b ∷ bs)

abbrev pub or_old : ℤ → Option ℤ → ℤ
or_old old none = old
or_old old (some new) = new

-- The chain of tests on a token. `strstr(line, key) == line` where the line begins with the key.
unfoldable pub parse_line : List ℕ → DrawingText → DrawingText
parse_line line m =
    if has_prefix line (codes "x1=")
    then record m { x1 = or_old m.x1 (scan_int (drop 3 line)) }
    else if has_prefix line (codes "y1=")
    then record m { y1 = or_old m.y1 (scan_int (drop 3 line)) }
    else if has_prefix line (codes "x2=")
    then record m { x2 = or_old m.x2 (scan_int (drop 3 line)) }
    else if has_prefix line (codes "y2=")
    then record m { y2 = or_old m.y2 (scan_int (drop 3 line)) }
    else if has_prefix line (codes "width=")
    then record m { width = or_old m.width (scan_int (drop 6 line)) }
    else if has_prefix line (codes "color=")
    then record m { color = or_old m.color (scan_int (drop 6 line)) }
    else m

-- The loop over the tokens.
unfoldable pub parse_lines : List (List ℕ) → DrawingText → DrawingText
parse_lines [] m = m
parse_lines (line ∷ lines) m = parse_lines lines (parse_line line m)

-- The loop over what `read` returns, up to the end of the stream, each chunk as the string in the
-- buffer.
unfoldable pub receive_text : List (List ℕ) → DrawingText → DrawingText
receive_text [] m = m
receive_text (chunk ∷ chunks) m =
    let buffer = until 0 chunk in
    let parsed = receive_text chunks (parse_lines (strtok (split_lines buffer)) m) in
    if contains buffer end_marker then m else parsed

-- The server's struct before the first read.
abbrev pub zeros : DrawingText
zeros = record { x1 = pos 0; y1 = pos 0; x2 = pos 0; y2 = pos 0; width = pos 0; color = pos 0 }
