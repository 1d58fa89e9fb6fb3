-- ===== src/Chat/Hearing.antt =====
-- A client of week7/client.c that is heard by another through week7/server.c, however the streams
-- are cut.
use game_network.Chat.Client.{
  buf_size, name_size, name_msg, sender, receiver, input_over, shown, write_first, name_msg_size,
}
use mathlib.Core.Path.{subst}
use game_network.Prelude.{
  ℕ, ◌<◌, ◌≡◌, refl, sym, ap, ◌∙◌, ◌==◌, if◌then◌else◌, false, none, some, List, [], ◌∷◌, ◌++◌,
  arith, All, All-append, length, length-append, map, count, replicate, until_all, Lacks, codes,
  same_text, Bool-cases, inl, inr, take_all, ◌-◌, replicate_counted, replicate_uncounted,
}
use game_network.Chat.Table.{Table, send_msg, clients}

abbrev pub concat : List (List ℕ) → List ℕ
concat [] = []
concat (xs ∷ xss) = xs ++ concat xss

-- A line of the keyboard, as fgets gives it, that is not the one that ends the client.
pub record IsSaid (line : List ℕ) : Type 0 where
  pub no_nul : Lacks 0 line
  pub short : length line < buf_size
  pub not_quit : same_text line (codes "q\n") ≡ false

pub record IsName (name : List ℕ) : Type 0 where
  pub no_nul : Lacks 0 name
  pub short : length name < name_size

-- A line behind the name of its sender.
abbrev pub named : List ℕ → List ℕ → List ℕ
named name line = b'[' ∷ (name ++ (b']' ∷ b' ' ∷ line))

-- The buffer of `send_msg` is large enough for every name and every line.
name_msg_whole :
    (name line : List ℕ) → IsName name → IsSaid line → name_msg name line ≡ named name line
unfolding name_msg
name_msg_whole name line n h =
    take_all (name_msg_size - 1) (named name line)
      (omega (arith, n.short, h.short, length-append name (b']' ∷ b' ' ∷ line)))

sender_lines :
    (name : List ℕ) (lines : List (List ℕ))
    → IsName name
    → All IsSaid lines
    → sender name (map some lines ++ (none ∷ [])) ≡ (map (named name) lines, input_over)
unfolding sender
sender_lines name [] n h = refl
sender_lines name (line ∷ lines) n h =
    rw (until_all 0 line h.0.no_nul, h.0.not_quit, name_msg_whole name line n h.0)
      (ap (write_first (named name line)) (sender_lines name lines n h.1))

-- What the server writes to a socket.
abbrev pub written_to : ℕ → List (ℕ × List ℕ) → List (List ℕ)
written_to d [] = []
written_to d ((sock, bytes) ∷ out) =
    let rest = written_to d out in if sock == d then bytes ∷ rest else rest

written_to-append :
    (d : ℕ) (out more : List (ℕ × List ℕ))
    → written_to d (out ++ more) ≡ written_to d out ++ written_to d more
written_to-append d [] more = refl
written_to-append d ((sock, bytes) ∷ out) more = elim (Bool-cases (sock == d)) [
  | inl e ↦ rw e (ap (◌∷◌ bytes) (written_to-append d out more))
  | inr e ↦ rw e (written_to-append d out more)
]

abbrev pub entries : ℕ → List ℕ → ℕ
entries d = count (λ sock. sock == d)

written_to-socks :
    (d : ℕ) (msg : List ℕ) (socks : List ℕ)
    → written_to d (map (λ sock. (sock, msg)) socks) ≡ replicate (entries d socks) msg
unfolding count
written_to-socks d msg [] = refl
written_to-socks d msg (sock ∷ socks) = elim (Bool-cases (sock == d)) [
  | inl e ↦
      rw e (ap (◌∷◌ msg) (written_to-socks d msg socks) ∙ replicate_counted (entries d socks) msg)
  | inr e ↦ rw e (written_to-socks d msg socks ∙ replicate_uncounted (entries d socks) msg)
]

-- The writes for the pieces that the server reads of a sender's stream.
abbrev pub relay : List (List ℕ) → Table → List (ℕ × List ℕ)
relay [] t = []
relay (piece ∷ pieces) t = send_msg piece t ++ relay pieces t

written_to-relay :
    (d : ℕ) (pieces : List (List ℕ)) (t : Table)
    → entries d (clients t) ≡ 1
    → written_to d (relay pieces t) ≡ pieces
unfolding send_msg
written_to-relay d [] t once = refl
written_to-relay d (piece ∷ pieces) t once =
    written_to-append d (send_msg piece t) (relay pieces t)
    ∙ ap (λ ps. ps ++ written_to d (relay pieces t))
        (written_to-socks d piece (clients t) ∙ ap (λ n. replicate n piece) once)
    ∙ ap (◌∷◌ piece) (written_to-relay d pieces t once)

Lacks-split : (xs ys : List ℕ) → Lacks 0 (xs ++ ys) → Lacks 0 xs × Lacks 0 ys
Lacks-split [] ys h = (tt, h)
Lacks-split (x ∷ xs) ys h = let (front, back) = Lacks-split xs ys h.1 in ((h.0, front), back)

-- Pieces of a stream without NUL are shown whole.
receiver_pieces :
    (pieces : List (List ℕ))
    → Lacks 0 (concat pieces)
    → All (λ p. 0 < length p) pieces
    → receiver (map some pieces ++ (some [] ∷ [])) ≡ map shown pieces
unfolding receiver
receiver_pieces [] z h = refl
receiver_pieces ([] ∷ pieces) z h = absurd (omega (arith, h.0))
receiver_pieces ((b ∷ bs) ∷ pieces) z h =
    let (own, others) = Lacks-split (b ∷ bs) (concat pieces) z in
    ap (λ text. shown text ∷ receiver (map some pieces ++ (some [] ∷ [])))
      (until_all 0 (b ∷ bs) own)
    ∙ ap (◌∷◌ (shown (b ∷ bs))) (receiver_pieces pieces others h.1)

named-Lacks :
    (name : List ℕ) (lines : List (List ℕ))
    → IsName name
    → All IsSaid lines
    → Lacks 0 (concat (map (named name) lines))
named-Lacks name [] n h = tt
named-Lacks name (line ∷ lines) n h =
    let own =
      All-append (λ b. (b == 0) ≡ false) name (b']' ∷ b' ' ∷ line) n.no_nul
        (refl, (refl, h.0.no_nul)) in
    All-append (λ b. (b == 0) ≡ false) (named name line) (concat (map (named name) lines))
      (refl, own) (named-Lacks name lines n h.1)

-- A client with a name of at most 29 bytes types lines of at most 1023 bytes, name and lines
-- without NUL and no line being q, up to the end of its input. Each line goes out whole behind the
-- name in brackets: the buffer of send_msg is large enough. When the server reads this stream in
-- any pieces and writes each to its clients, and a client that stands once in the table reads what
-- is written to it in any pieces that are not empty, then that client shows each piece whole, and
-- its pieces one behind the other are the lines with their names.
pub chat_heard :
    (t : Table) (d : ℕ) (name : List ℕ) (lines pieces reads : List (List ℕ))
    → IsName name
    → All IsSaid lines
    → entries d (clients t) ≡ 1
    → concat pieces ≡ concat (sender name (map some lines ++ (none ∷ []))).0
    → concat reads ≡ concat (written_to d (relay pieces t))
    → All (λ bytes. 0 < length bytes) reads
    → (sender name (map some lines ++ (none ∷ [])) ≡ (map (named name) lines, input_over))
      × (receiver (map some reads ++ (some [] ∷ [])) ≡ map shown reads)
      × (concat reads ≡ concat (map (named name) lines))
chat_heard t d name lines pieces reads n h once cut again filled =
    let said = sender_lines name lines n h in
    let same =
      again ∙ ap concat (written_to-relay d pieces t once) ∙ cut ∙ ap (λ run. concat run.0) said in
    (
      said,
      receiver_pieces reads (subst (Lacks 0) (sym same) (named-Lacks name lines n h)) filled,
      same,
    )
