-- ===== src/Drawing/Parse.antt =====
-- What var_server.c of week6 reads of the text that var_client.c sends.
use game_network.Prelude.{
  ◌||◌, read_digits_printed, digit_not, print_decimal-Lacks, ℕ, suc, ◌<◌, ◌≡◌, refl, ap, ◌∙◌, ◌==◌,
  Bool, true, false, some, List, [], ◌∷◌, ◌++◌, arith, All, All-append, length, length-append, ℤ,
  pos, negsuc, print_decimal, print_decimal_digits, print_decimal_filled, read_digits, is_digit,
  newline, Lacks, lacks, lacks→Lacks, codes, has_prefix, ltb, ◌%◌,
}
use game_network.Drawing.Text.{
  DrawingText, print_int, entry, entries, end_marker, text_lines, contains, split_lines, strtok,
  scan_int, with_digits, negate, is_space, to_int, int_max, IsInt32, low_bits, clipped,
}

module _ (sign : ℕ → ℤ) where
  with_digits_text :
      (text : List ℕ)
      → All (λ b. is_digit b ≡ true) text
      → 0 < length text
      → with_digits sign text ≡ some (to_int (sign (read_digits 0 text)))
  unfolding with_digits
  with_digits_text [] h more = absurd (omega arith)
  with_digits_text (b ∷ bs) h more = rw h.0

  with_digits-print_decimal : (n : ℕ) → with_digits sign (print_decimal n) ≡ some (to_int (sign n))
  with_digits-print_decimal n =
      with_digits_text (print_decimal n) (print_decimal_digits n) (print_decimal_filled n)
      ∙ ap (λ k. some (to_int (sign k))) (read_digits_printed n)

scan_int_digits :
    (text : List ℕ)
    → All (λ b. is_digit b ≡ true) text
    → 0 < length text
    → scan_int text ≡ with_digits pos text
unfolding scan_int
scan_int_digits [] h more = absurd (omega arith)
scan_int_digits (b ∷ bs) h more =
    let s : is_space b ≡ false = ground (arith, h.0) in
    let m : (b == b'-') ≡ false = digit_not b'-' b h.0 refl in
    let p : (b == b'+') ≡ false = digit_not b'+' b h.0 refl in rw (s, m, p)

low_bits_small :
    (n : ℕ) (same turned : ℕ → ℤ) → n < int_max → low_bits (clipped n) same turned ≡ same n
low_bits_small n same turned h =
    let unclipped : ltb n 9223372036854775808 ≡ true = ground (arith, h) in
    let low : n % 4294967296 ≡ n = omega arith in
    let small : ltb n int_max ≡ true = ground (arith, h) in rw (unclipped, low, small)

-- An int is its own 32 bits.
to_int-IsInt32 : (v : ℤ) → IsInt32 v → to_int v ≡ v
unfolding to_int
to_int-IsInt32 (pos n) h = low_bits_small n pos negsuc h
to_int-IsInt32 (negsuc n) h = low_bits_small n negsuc pos h

-- A printed int is read back, also a negative one.
pub scan_int-print_int : (v : ℤ) → IsInt32 v → scan_int (print_int v) ≡ some v
unfolding scan_int print_int
scan_int-print_int (pos n) h =
    scan_int_digits (print_decimal n) (print_decimal_digits n) (print_decimal_filled n)
    ∙ with_digits-print_decimal pos n
    ∙ ap some (to_int-IsInt32 (pos n) h)
scan_int-print_int (negsuc n) h =
    with_digits-print_decimal negate (suc n) ∙ ap some (to_int-IsInt32 (negsuc n) h)

-- A line that the text carries.
pub record IsToken (l : List ℕ) : Type 0 where
  pub filled : 0 < length l
  pub no_newline : Lacks newline l
  pub no_nul : Lacks 0 l
  pub no_mark : Lacks b'E' l

split_lines_line :
    (l rest : List ℕ) → Lacks newline l → split_lines (l ++ (newline ∷ rest)) ≡ l ∷ split_lines rest
unfolding split_lines
split_lines_line [] rest h = refl
split_lines_line (b ∷ bs) rest h = rw (h.0, split_lines_line bs rest h.1)

pub strtok_lines : (ls : List (List ℕ)) → All IsToken ls → strtok (split_lines (text_lines ls)) ≡ ls
unfolding split_lines
strtok_lines [] h = refl
strtok_lines ([] ∷ ls) h = absurd (omega (arith, h.0.filled))
strtok_lines ((b ∷ bs) ∷ ls) h =
    rw (split_lines_line (b ∷ bs) (text_lines ls) h.0.no_newline)
      (ap (◌∷◌ (b ∷ bs)) (strtok_lines ls h.1))

pub text_lines-Lacks :
    (c : ℕ) (ls : List (List ℕ))
    → (newline == c) ≡ false
    → All (λ l. Lacks c l) ls
    → Lacks c (text_lines ls)
text_lines-Lacks c [] e h = tt
text_lines-Lacks c (l ∷ ls) e h =
    All-append (λ b. (b == c) ≡ false) l (newline ∷ text_lines ls) h.0
      (e, text_lines-Lacks c ls e h.1)

pub contains_not : (s : List ℕ) → Lacks b'E' s → contains s end_marker ≡ false
unfolding contains has_prefix
contains_not [] h = refl
contains_not (b ∷ bs) h = rw (h.0, contains_not bs h.1)

or_true : (a : Bool) {b : Bool} → b ≡ true → (a || b) ≡ true
or_true true e = refl
or_true false e = e

pub contains_end : (s rest : List ℕ) → contains (s ++ (end_marker ++ rest)) end_marker ≡ true
unfolding contains has_prefix
contains_end [] rest = refl
contains_end (b ∷ bs) rest = or_true _ (contains_end bs rest)

print_int-Lacks : (c : ℕ) (v : ℤ) → is_digit c ≡ false → (b'-' == c) ≡ false → Lacks c (print_int v)
unfolding print_int
print_int-Lacks c (pos n) d s = print_decimal-Lacks c n d
print_int-Lacks c (negsuc n) d s = (s, print_decimal-Lacks c (suc n) d)

entry-IsToken :
    (key : List ℕ) (v : ℤ)
    → 0 < length key
    → lacks newline key ≡ true
    → lacks 0 key ≡ true
    → lacks b'E' key ≡ true
    → IsToken (entry key v)
entry-IsToken key v filled n z e = record {
  filled = omega (arith, length-append key (print_int v));
  no_newline = both newline n refl refl;
  no_nul = both 0 z refl refl;
  no_mark = both b'E' e refl refl;
}
  where
    both :
        (c : ℕ)
        → lacks c key ≡ true
        → is_digit c ≡ false
        → (b'-' == c) ≡ false
        → Lacks c (entry key v)
    both c k d s =
        All-append (λ b. (b == c) ≡ false) key (print_int v) (lacks→Lacks c key k)
          (print_int-Lacks c v d s)

pub entries-IsToken : (m : DrawingText) → All IsToken (entries m)
unfolding lacks
entries-IsToken m =
    let token = λ (key : List ℕ) (v : ℤ) (h : 0 < length key). entry-IsToken key v h in
    (
      token (codes "x1=") m.x1 (omega arith) refl refl refl,
      (
        token (codes "y1=") m.y1 (omega arith) refl refl refl,
        (
          token (codes "x2=") m.x2 (omega arith) refl refl refl,
          (
            token (codes "y2=") m.y2 (omega arith) refl refl refl,
            (
              token (codes "width=") m.width (omega arith) refl refl refl,
              (token (codes "color=") m.color (omega arith) refl refl refl, tt),
            ),
          ),
        ),
      ),
    )
