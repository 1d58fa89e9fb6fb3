-- ===== src/Drawing/Wire.antt =====
-- The struct of week6 on the wire.
use game_network.Prelude.{ℕ, ◌+◌, ◌*◌, ◌/◌, ◌%◌, ◌<◌, ◌≡◌, ap, ◌∙◌, List, ◌++◌, arith, ◌∷◌, []}
use game_network.Drawing.Message.{
  DrawingMessage, bytes_of, word_at, htonl, message_bytes, received, read_message,
}

abbrev pub word_size : ℕ
word_size = 4294967296

word_at-bytes_of : (w : ℕ) → w < word_size → word_at (bytes_of w) ≡ w
unfolding word_at bytes_of
word_at-bytes_of w h = omega arith

htonl_bound : (w : ℕ) → htonl w < word_size
unfolding htonl
htonl_bound w = omega arith

htonl_digits :
    (a b c d : ℕ)
    → a < 256
    → b < 256
    → c < 256
    → d < 256
    → htonl (a + b * 256 + c * 65536 + d * 16777216) ≡ d + c * 256 + b * 65536 + a * 16777216
unfolding htonl
htonl_digits a b c d ha hb hc hd =
    let v = a + b * 256 + c * 65536 + d * 16777216 in
    let e0 : v % 256 ≡ a = omega arith in
    let e1 : v / 256 % 256 ≡ b = omega arith in
    let e2 : v / 65536 % 256 ≡ c = omega arith in
    let e3 : v / 16777216 % 256 ≡ d = omega arith in rw (e0, e1, e2, e3)

-- Turned round twice, a word is itself.
htonl-htonl : (w : ℕ) → w < word_size → htonl (htonl w) ≡ w
unfolding htonl
htonl-htonl w h =
    htonl_digits (w / 16777216 % 256) (w / 65536 % 256) (w / 256 % 256) (w % 256) (omega arith)
      (omega arith) (omega arith) (omega arith)
    ∙ omega arith

field : (w : ℕ) → w < word_size → htonl (word_at (bytes_of (htonl w))) ≡ w
field w h = ap htonl (word_at-bytes_of (htonl w) (htonl_bound w)) ∙ htonl-htonl w h

pub record IsMessage (m : DrawingMessage) : Type 0 where
  pub x1_fits : m.x1 < word_size
  pub y1_fits : m.y1 < word_size
  pub x2_fits : m.x2 < word_size
  pub y2_fits : m.y2 < word_size
  pub width_fits : m.width < word_size
  pub color_fits : m.color < word_size

-- The six 32-bit words that client.c sends are those that server.c has after ntohl, whatever its
-- struct held before and whatever follows on the stream, when read returns the 24 bytes.
pub read_message-message_bytes :
    (m : DrawingMessage) (old rest : List ℕ)
    → IsMessage m
    → read_message (received old (message_bytes m ++ rest)) ≡ m
unfolding read_message received message_bytes bytes_of word_at
read_message-message_bytes m old rest h = λ i. record {
  x1 = field m.x1 h.x1_fits i;
  y1 = field m.y1 h.y1_fits i;
  x2 = field m.x2 h.x2_fits i;
  y2 = field m.y2 h.y2_fits i;
  width = field m.width h.width_fits i;
  color = field m.color h.color_fits i;
}

-- A word with its highest byte first.
abbrev network_order : ℕ → List ℕ
network_order w = w / 16777216 % 256 ∷ (w / 65536 % 256) ∷ (w / 256 % 256) ∷ (w % 256) ∷ []

bytes_of-htonl : (w : ℕ) → bytes_of (htonl w) ≡ network_order w
unfolding bytes_of htonl
bytes_of-htonl w =
    let a = w / 16777216 % 256 in
    let b = w / 65536 % 256 in
    let c = w / 256 % 256 in
    let d = w % 256 in
    let v = a + b * 256 + c * 65536 + d * 16777216 in
    let e0 : v % 256 ≡ a = omega arith in
    let e1 : v / 256 % 256 ≡ b = omega arith in
    let e2 : v / 65536 % 256 ≡ c = omega arith in
    let e3 : v / 16777216 % 256 ≡ d = omega arith in rw (e0, e1, e2, e3)

-- On the wire the fields follow each other as in the struct, each with its highest byte first.
message_bytes-network_order :
    (m : DrawingMessage)
    → message_bytes m
      ≡ network_order m.x1
        ++ (network_order m.y1
            ++ (network_order m.x2
                ++ (network_order m.y2 ++ (network_order m.width ++ network_order m.color))))
unfolding message_bytes
message_bytes-network_order m = rw (
  bytes_of-htonl m.x1,
  bytes_of-htonl m.y1,
  bytes_of-htonl m.x2,
  bytes_of-htonl m.y2,
  bytes_of-htonl m.width,
  bytes_of-htonl m.color,
)
