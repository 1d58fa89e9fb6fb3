-- ===== src/Sockets/Shown.antt =====
-- week4/struct.c and week4_Parc/server.c: an address filled in, and printed back.
use Prim.Native.Nat.{ℕ, ◌+◌, ◌-◌, ◌/◌, ◌%◌, ◌<◌}
use game_network.Prelude.{
  List, [], ◌∷◌, ◌++◌, Option, none, some, ◌≡◌, refl, sym, ap, ◌∙◌, arith, Bool-cases, inl, inr,
  codes, print_decimal, same_text, same_text_iff, read_digits, ltb, if◌then◌else◌, ◌==◌, ◌&&◌,
  Option-cases, ==_iff, Bool, true, false, map, some_same,
}
use game_network.Sockets.Calls.{SockAddrIn}
use game_network.Sockets.Address.{
  htons, ntohs, inet_pton, inet_ntoa, dotted_parts, octet, octets, dot, onto_first, four_bytes,
}

-- `memset`, `htons` and `inet_pton`, which leaves the zeros for a text that is no address.
unfoldable pub server_addr : List ℕ → ℕ → SockAddrIn
unfolding htons inet_pton
server_addr ip port = record {
  host = elim (inet_pton ip) [ none ↦ 0 ∷ 0 ∷ 0 ∷ 0 ∷ [] | some h ↦ h ];
  port = htons port;
}

abbrev pub hex_digit : ℕ → ℕ
hex_digit d = if ltb d 10 then b'0' + d else b'A' + (d - 10)

-- `%04X` of a number of 16 bits
unfoldable pub hex4 : ℕ → List ℕ
hex4 n =
    hex_digit (n / 4096 % 16)
    ∷ hex_digit (n / 256 % 16)
    ∷ hex_digit (n / 16 % 16)
    ∷ hex_digit (n % 16)
    ∷ []

-- The four lines of main, without their newlines; the labels are what stands before the address and
-- before the port in memory, which the two programs write differently.
unfoldable pub shown_lines : List ℕ → List ℕ → SockAddrIn → List (List ℕ)
unfolding inet_ntoa ntohs hex4 print_decimal
shown_lines label memory_label addr =
    (label ++ inet_ntoa addr.host)
    ∷ (codes "Server Port : " ++ print_decimal (ntohs addr.port))
    ∷ (memory_label ++ hex4 addr.port)
    ∷ (codes "real port value : 0x" ++ hex4 (ntohs addr.port))
    ∷ []

unfoldable pub struct_main : List (List ℕ)
unfolding shown_lines server_addr
struct_main =
    shown_lines (codes "server IP : ") (codes "port value in memory : 0x")
      (server_addr (codes "127.0.0.1") 8080)

unfoldable pub practice_struct_main : List (List ℕ)
unfolding shown_lines server_addr
practice_struct_main =
    shown_lines (codes "Server IP : ") (codes "Port value in memory : 0x")
      (server_addr (codes "127.0.0.1") 5000)

ntohs-htons : (p : ℕ) → p < 65536 → ntohs (htons p) ≡ p
unfolding ntohs htons
ntohs-htons p l = omega arith

-- The parts put together again.
abbrev join_dots : List (List ℕ) → List ℕ
join_dots [] = []
join_dots (s ∷ []) = s
join_dots (s ∷ t ∷ rest) = s ++ (dot ∷ join_dots (t ∷ rest))

join_dots-onto_first :
    (b : ℕ) (parts : List (List ℕ)) → join_dots (onto_first b parts) ≡ b ∷ join_dots parts
join_dots-onto_first b [] = refl
join_dots-onto_first b (s ∷ []) = refl
join_dots-onto_first b (s ∷ t ∷ rest) = refl

-- There is always a part.
dotted_parts_cons : (s : List ℕ) → (p : List ℕ) × (ps : List (List ℕ)) × (dotted_parts s ≡ p ∷ ps)
unfolding dotted_parts
dotted_parts_cons [] = ([], [], refl)
dotted_parts_cons (b ∷ bs) =
    let (p, ps, e) = dotted_parts_cons bs in
    elim (Bool-cases (b == dot)) [
      | inl d ↦ ([], dotted_parts bs, rw d)
      | inr d ↦ (b ∷ p, ps, rw (d, e))
    ]

join_dots-dotted_parts : (s : List ℕ) → join_dots (dotted_parts s) ≡ s
unfolding dotted_parts
join_dots-dotted_parts [] = refl
join_dots-dotted_parts (b ∷ bs) = elim (Bool-cases (b == dot)) [
  | inl d ↦
      let (p, ps, e) = dotted_parts_cons bs in
      let together : join_dots (p ∷ ps) ≡ bs = ap join_dots (sym e) ∙ join_dots-dotted_parts bs in
      let is_dot : b ≡ dot = (==_iff b dot).0 d in
      rw (d, e) (ap (λ x. dot ∷ x) together ∙ ap (λ x. x ∷ bs) (sym is_dot))
  | inr d ↦
      rw d (join_dots-onto_first b (dotted_parts bs) ∙ ap (λ x. b ∷ x) (join_dots-dotted_parts bs))
]

-- A value that is there only when a test holds.
tested_some :
    {A : Type 0} (c : Bool) (m n : A) → (if c then some m else none) ≡ some n → (c ≡ true) × (m ≡ n)
tested_some true m n e = (refl, some_same e)
tested_some false m n e = absurd cc

both_right : (a b : Bool) → (a && b) ≡ true → b ≡ true
both_right a b e = ground arith

octet-print_decimal : (s : List ℕ) (n : ℕ) → octet s ≡ some n → print_decimal n ≡ s
unfolding octet
octet-print_decimal s n e =
    let m = read_digits 0 s in
    let small = ltb m 256 in
    let same = same_text (print_decimal m) s in
    let (h, is_n) = tested_some (small && same) m n e in
    ap print_decimal (sym is_n) ∙ (same_text_iff (print_decimal m) s).0 (both_right small same h)

octets-map :
    (parts : List (List ℕ)) (ns : List ℕ) → octets parts ≡ some ns → map print_decimal ns ≡ parts
unfolding octets
octets-map [] ns e = rw (← some_same e)
octets-map (s ∷ parts) ns e = elim (Option-cases (octet s)) [
  | inl bad ↦ let z : octets (s ∷ parts) ≡ none = rw (octets, bad) in absurd cc
  | inr (n, en) ↦ elim (Option-cases (octets parts)) [
    | inl bad ↦ let z : octets (s ∷ parts) ≡ none = rw (octets, en, bad) in absurd cc
    | inr (ms, em) ↦
        let z : octets (s ∷ parts) ≡ some (n ∷ ms) = rw (octets, en, em) in
        rw (some_same (sym e ∙ z)) (rw (octet-print_decimal s n en, octets-map parts ms em))
  ]
]

inet_ntoa-join_dots : (ns : List ℕ) → inet_ntoa ns ≡ join_dots (map print_decimal ns)
unfolding inet_ntoa
inet_ntoa-join_dots [] = refl
inet_ntoa-join_dots (a ∷ []) = refl
inet_ntoa-join_dots (a ∷ b ∷ rest) =
    ap (λ x. print_decimal a ++ (dot ∷ x)) (inet_ntoa-join_dots (b ∷ rest))

four_bytes-some : (o : Option (List ℕ)) (h : List ℕ) → four_bytes o ≡ some h → o ≡ some h
unfolding four_bytes
four_bytes-some none h e = absurd cc
four_bytes-some (some []) h e = absurd cc
four_bytes-some (some (a ∷ [])) h e = absurd cc
four_bytes-some (some (a ∷ b ∷ [])) h e = absurd cc
four_bytes-some (some (a ∷ b ∷ c ∷ [])) h e = absurd cc
four_bytes-some (some (a ∷ b ∷ c ∷ d ∷ [])) h e = e
four_bytes-some (some (a ∷ b ∷ c ∷ d ∷ x ∷ rest)) h e = absurd cc

inet_ntoa-inet_pton : (s h : List ℕ) → inet_pton s ≡ some h → inet_ntoa h ≡ s
unfolding inet_pton
inet_ntoa-inet_pton s h e =
    inet_ntoa-join_dots h
    ∙ ap join_dots (octets-map (dotted_parts s) h (four_bytes-some (octets (dotted_parts s)) h e))
    ∙ join_dots-dotted_parts s

server_addr-some :
    (ip h : List ℕ) (port : ℕ)
    → inet_pton ip ≡ some h
    → server_addr ip port ≡ record { host = h; port = htons port }
unfolding server_addr
server_addr-some ip h port e = rw (server_addr, e)

-- For a text that inet_pton accepts and a port of 16 bits, the program prints the text and the port
-- that it has put into the struct, the port in memory with its bytes exchanged, and the port itself
-- in hexadecimal.
pub shown_lines-server_addr :
    (label memory_label ip h : List ℕ) (port : ℕ)
    → inet_pton ip ≡ some h
    → port < 65536
    → shown_lines label memory_label (server_addr ip port)
      ≡ (label ++ ip)
        ∷ (codes "Server Port : " ++ print_decimal port)
        ∷ (memory_label ++ hex4 (htons port))
        ∷ (codes "real port value : 0x" ++ hex4 port)
        ∷ []
unfolding shown_lines
shown_lines-server_addr label memory_label ip h port e l =
    rw (server_addr-some ip h port e)
      (rw (shown_lines, inet_ntoa-inet_pton ip h e, ntohs-htons port l))
