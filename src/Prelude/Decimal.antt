-- ===== src/Prelude/Decimal.antt =====
-- `%d` and `%ld` of a number that is not negative: printed without leading zeros, and read by
-- `acc * 10 + digit`.
use Prim.Native.Nat.{ℕ, zero, suc, ◌+◌, ◌-◌, ◌*◌, ◌/◌, ◌%◌, ◌<◌, ◌^◌, ◌≤◌}
use mathlib.Core.Path.{◌≡◌, refl, ◌∙◌, sym, ap}
use mathlib.Core.Bool.{Bool, true, false, ◌&&◌}
use mathlib.Core.List.{List, [], ◌∷◌, ◌++◌, append-nil}
use mathlib.Core.Logic.{inl, inr}
use game_network.Prelude.Lists.{All, All-mono, length}
use game_network.Prelude.Text.{Lacks}
use native.Mathlib.Nat.{pow-suc, zero-add}
use native.Mathlib.Omega.{arith}
use game_network.Prelude.Tests.{◌==◌, ltb, leb, if◌then◌else◌, Bool-cases, ltb→lt}

-- Digits in front of `rest`. Fuel `suc n` is enough: the number falls with each division.
unfoldable pub digits_onto : ℕ → ℕ → List ℕ → List ℕ
digits_onto zero n rest = rest
digits_onto (suc fuel) n rest =
    let more = digits_onto fuel (n / 10) ((b'0' + n % 10) ∷ rest) in
    if ltb n 10 then (b'0' + n) ∷ rest else more

unfoldable pub print_decimal : ℕ → List ℕ
unfolding digits_onto
print_decimal n = digits_onto (suc n) n []

abbrev pub is_digit : ℕ → Bool
is_digit b = leb b'0' b && leb b b'9'

-- The digits at the front, onto `acc`.
unfoldable pub read_digits : ℕ → List ℕ → ℕ
read_digits acc [] = acc
read_digits acc (b ∷ bs) =
    let more = read_digits (acc * 10 + (b - b'0')) bs in if is_digit b then more else acc

-- Text that begins with no digit.
abbrev pub NoDigit : List ℕ → Type 0
NoDigit [] = Unit
NoDigit (b ∷ bs) = is_digit b ≡ false

read_digits_stop : (acc : ℕ) (rest : List ℕ) → NoDigit rest → read_digits acc rest ≡ acc
unfolding read_digits
read_digits_stop acc [] h = refl
read_digits_stop acc (b ∷ bs) h = rw h

read_digits_digit :
    (acc d : ℕ) (rest : List ℕ)
    → d < 10
    → read_digits acc ((b'0' + d) ∷ rest) ≡ read_digits (acc * 10 + d) rest
unfolding read_digits
read_digits_digit acc d rest h =
    let e : b'0' + d - b'0' ≡ d = omega arith in
    let t : is_digit (b'0' + d) ≡ true = ground arith in rw t (rw e)

read_digits-digits_onto :
    (fuel n : ℕ) (rest : List ℕ)
    → n < fuel
    → read_digits 0 (digits_onto fuel n rest) ≡ read_digits n rest
unfolding digits_onto
read_digits-digits_onto zero n rest h = absurd (omega arith)
read_digits-digits_onto (suc fuel) n rest h = elim (Bool-cases (ltb n 10)) [
  | inl small ↦ rw small (read_digits_digit 0 n rest (ltb→lt n 10 small) ∙ rw zero-add)
  | inr large ↦
      let e : n / 10 * 10 + n % 10 ≡ n = omega arith in
      rw large (
        read_digits-digits_onto fuel (n / 10) ((b'0' + n % 10) ∷ rest) (ground arith)
        ∙ read_digits_digit (n / 10) (n % 10) rest (omega arith)
        ∙ rw e)
]

digits_onto-append :
    (fuel n : ℕ) (xs ys : List ℕ) → digits_onto fuel n (xs ++ ys) ≡ digits_onto fuel n xs ++ ys
unfolding digits_onto
digits_onto-append zero n xs ys = refl
digits_onto-append (suc fuel) n xs ys = elim (Bool-cases (ltb n 10)) [
  | inl small ↦ rw small
  | inr large ↦ rw large (digits_onto-append fuel (n / 10) ((b'0' + n % 10) ∷ xs) ys)
]

-- What is printed is read back, whatever follows it but a digit.
pub read_digits-print_decimal :
    (n : ℕ) (rest : List ℕ) → NoDigit rest → read_digits 0 (print_decimal n ++ rest) ≡ n
unfolding print_decimal
read_digits-print_decimal n rest h =
    rw (← digits_onto-append (suc n) n [] rest)
      (read_digits-digits_onto (suc n) n rest (omega arith) ∙ read_digits_stop n rest h)

digits_onto_digits :
    (fuel n : ℕ) (rest : List ℕ)
    → All (λ b. is_digit b ≡ true) rest
    → All (λ b. is_digit b ≡ true) (digits_onto fuel n rest)
unfolding digits_onto
digits_onto_digits zero n rest h = h
digits_onto_digits (suc fuel) n rest h = elim (Bool-cases (ltb n 10)) [
  | inl small ↦ rw small (ground arith, h)
  | inr large ↦
      rw large (digits_onto_digits fuel (n / 10) ((b'0' + n % 10) ∷ rest) (ground arith, h))
]

pub print_decimal_digits : (n : ℕ) → All (λ b. is_digit b ≡ true) (print_decimal n)
unfolding print_decimal
print_decimal_digits n = digits_onto_digits (suc n) n [] tt

less : (k n : ℕ) → n < 10 ^ suc (suc k) → n / 10 < 10 ^ suc k
less k n h = omega (arith, pow-suc 10 (suc k))

length-digits_onto :
    (k fuel n : ℕ) (rest : List ℕ)
    → n < 10 ^ suc k
    → length (digits_onto fuel n rest) ≤ suc k + length rest
unfolding digits_onto
length-digits_onto k zero n rest h = omega arith
length-digits_onto zero (suc fuel) n rest h = ground arith
length-digits_onto (suc k) (suc fuel) n rest h = elim (Bool-cases (ltb n 10)) [
  | inl small ↦ rw small (omega arith)
  | inr large ↦
      rw large
        (omega (arith, length-digits_onto k fuel (n / 10) ((b'0' + n % 10) ∷ rest) (less k n h)))
]

pub length-print_decimal : (k n : ℕ) → n < 10 ^ suc k → length (print_decimal n) ≤ suc k
unfolding print_decimal
length-print_decimal k n h = omega (arith, length-digits_onto k (suc n) n [] h)

digits_onto_grows : (fuel n : ℕ) (rest : List ℕ) → length rest ≤ length (digits_onto fuel n rest)
unfolding digits_onto
digits_onto_grows zero n rest = omega arith
digits_onto_grows (suc fuel) n rest = elim (Bool-cases (ltb n 10)) [
  | inl small ↦ rw small (omega arith)
  | inr large ↦ rw large (omega (arith, digits_onto_grows fuel (n / 10) ((b'0' + n % 10) ∷ rest)))
]

pub print_decimal_filled : (n : ℕ) → 0 < length (print_decimal n)
unfolding print_decimal digits_onto
print_decimal_filled n = elim (Bool-cases (ltb n 10)) [
  | inl small ↦ rw small (omega arith)
  | inr large ↦ rw large (omega (arith, digits_onto_grows n (n / 10) ((b'0' + n % 10) ∷ [])))
]

pub read_digits_printed : (n : ℕ) → read_digits 0 (print_decimal n) ≡ n
read_digits_printed n =
    ap (read_digits 0) (sym (append-nil (print_decimal n))) ∙ read_digits-print_decimal n [] tt

pub digit_not : (c b : ℕ) → is_digit b ≡ true → is_digit c ≡ false → (b == c) ≡ false
digit_not c b d e = ground arith

pub print_decimal-Lacks : (c n : ℕ) → is_digit c ≡ false → Lacks c (print_decimal n)
print_decimal-Lacks c n e =
    All-mono {P = λ b. is_digit b ≡ true} (print_decimal n) (λ b d. digit_not c b d e)
      (print_decimal_digits n)
