-- ===== src/Sockets/Address.antt =====
-- Ports and addresses as the programs fill them in: htons, and dotted text read and printed.
use Prim.Native.Nat.{◌/◌, ◌%◌, ◌*◌, ◌+◌}
use game_network.Prelude.{
  ℕ, ◌&&◌, List, [], ◌∷◌, ◌++◌, Option, none, some, if◌then◌else◌, ◌==◌, ltb, same_text,
  print_decimal, read_digits,
}

-- A port of 16 bits with its two bytes turned round.
unfoldable pub htons : ℕ → ℕ
htons p = p % 256 * 256 + p / 256 % 256

unfoldable pub ntohs : ℕ → ℕ
unfolding htons
ntohs = htons

abbrev pub dot : ℕ
dot = b'.'

-- The part of a dotted text before its first dot, with the parts after it.
abbrev pub onto_first : ℕ → List (List ℕ) → List (List ℕ)
onto_first b [] = (b ∷ []) ∷ []
onto_first b (part ∷ parts) = (b ∷ part) ∷ parts

unfoldable pub dotted_parts : List ℕ → List (List ℕ)
dotted_parts [] = [] ∷ []
dotted_parts (b ∷ bs) =
    let rest = dotted_parts bs in if b == dot then [] ∷ rest else onto_first b rest

-- A part is a number of a byte, without leading zeros.
unfoldable pub octet : List ℕ → Option ℕ
unfolding print_decimal read_digits same_text
octet s =
    let n = read_digits 0 s in if ltb n 256 && same_text (print_decimal n) s then some n else none

unfoldable pub octets : List (List ℕ) → Option (List ℕ)
unfolding octet
octets [] = some []
octets (s ∷ parts) = elim (octet s) [
  | none ↦ none
  | some n ↦ elim (octets parts) [ none ↦ none | some ns ↦ some (n ∷ ns) ]
]

-- An address has four bytes.
unfoldable pub four_bytes : Option (List ℕ) → Option (List ℕ)
four_bytes (some (a ∷ b ∷ c ∷ d ∷ [])) = some (a ∷ b ∷ c ∷ d ∷ [])
four_bytes _ = none

-- The bytes in the order they are written.
unfoldable pub inet_pton : List ℕ → Option (List ℕ)
unfolding four_bytes octets dotted_parts
inet_pton s = four_bytes (octets (dotted_parts s))

-- INADDR_NONE, all ones, for a text that is no address.
unfoldable pub inet_addr : List ℕ → List ℕ
unfolding inet_pton
inet_addr s = elim (inet_pton s) [ none ↦ 255 ∷ 255 ∷ 255 ∷ 255 ∷ [] | some h ↦ h ]

unfoldable pub inet_ntoa : List ℕ → List ℕ
unfolding print_decimal
inet_ntoa [] = []
inet_ntoa (a ∷ []) = print_decimal a
inet_ntoa (a ∷ b ∷ rest) = print_decimal a ++ (dot ∷ inet_ntoa (b ∷ rest))

-- INADDR_ANY, in either byte order.
abbrev pub any_address : List ℕ
any_address = 0 ∷ 0 ∷ 0 ∷ 0 ∷ []
