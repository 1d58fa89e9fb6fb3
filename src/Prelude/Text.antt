-- ===== src/Prelude/Text.antt =====
-- C strings as lists of bytes, without the NUL at their end.
use Prim.Native.Char.{code}
use Prim.Native.String.{String}
use Prim.Native.Nat.{ℕ}
use mathlib.Core.Path.{◌≡◌, refl}
use mathlib.Core.Logic.{◌↔◌}
use mathlib.Core.Bool.{Bool, true, false, ◌&&◌, not}
use mathlib.Core.List.{List, [], ◌∷◌, ◌++◌}
use native.Mathlib.Omega.{arith}
use game_network.Prelude.Tests.{◌==◌, if◌then◌else◌}
use game_network.Prelude.Lists.{All}

-- A literal of the source, as its bytes.
abbrev pub codes : String → List ℕ
codes String.[] = []
codes (String.◌∷◌ c s) = code c ∷ codes s

abbrev pub newline : ℕ
newline = 10

-- The bytes before the first `c`: all that `strcspn` counts, and with 0 the string in a buffer.
unfoldable pub until : ℕ → List ℕ → List ℕ
until c [] = []
until c (b ∷ bs) = if b == c then [] else b ∷ until c bs

-- `strcmp(s, t) == 0`
unfoldable pub same_text : List ℕ → List ℕ → Bool
same_text [] [] = true
same_text [] (b ∷ bs) = false
same_text (a ∷ as') [] = false
same_text (a ∷ as') (b ∷ bs) = a == b && same_text as' bs

-- `strncmp(s, t, strlen(t)) == 0`
unfoldable pub has_prefix : List ℕ → List ℕ → Bool
has_prefix s [] = true
has_prefix [] (b ∷ bs) = false
has_prefix (a ∷ as') (b ∷ bs) = a == b && has_prefix as' bs

abbrev pub Lacks : ℕ → List ℕ → Type 0
Lacks c = All (λ b. (b == c) ≡ false)

pub until_all : (c : ℕ) (bs : List ℕ) → Lacks c bs → until c bs ≡ bs
unfolding until
until_all c [] h = refl
until_all c (b ∷ bs) h = ground (arith, until_all c bs h.1)

pub until-append : (c : ℕ) (bs rest : List ℕ) → Lacks c bs → until c (bs ++ (c ∷ rest)) ≡ bs
unfolding until
until-append c [] rest h = ground arith
until-append c (b ∷ bs) rest h = ground (arith, until-append c bs rest h.1)

pub same_text_iff : (s t : List ℕ) → (same_text s t ≡ true) ↔ (s ≡ t)
unfolding same_text
same_text_iff [] [] = (λ e. refl, λ e. refl)
same_text_iff [] (b ∷ bs) = (λ e. cc, λ e. cc)
same_text_iff (a ∷ as') [] = (λ e. cc, λ e. cc)
same_text_iff (a ∷ as') (b ∷ bs) = ground (arith, same_text_iff as' bs)

-- The same as a test, for literals.
unfoldable pub lacks : ℕ → List ℕ → Bool
lacks c [] = true
lacks c (b ∷ bs) = not (b == c) && lacks c bs

pub lacks→Lacks : (c : ℕ) (bs : List ℕ) → lacks c bs ≡ true → Lacks c bs
unfolding lacks
lacks→Lacks c [] h = tt
lacks→Lacks c (b ∷ bs) h = (ground arith, lacks→Lacks c bs (ground arith))
