-- ===== src/Drawing/Message.antt =====
-- week6/common.h, week6/server.c and week6/client.c: a drawing message as 24 bytes in network
-- order. An int32_t is the number of its 32 bits, and the memory of a word is its bytes from the
-- lowest on, as on the machines that the programs are built for.
use game_network.Prelude.{ℕ, ◌+◌, ◌*◌, ◌/◌, ◌%◌, List, [], ◌∷◌, ◌++◌, take, drop, length}

pub record DrawingMessage : Type 0 where
  pub x1 : ℕ
  pub y1 : ℕ
  pub x2 : ℕ
  pub y2 : ℕ
  pub width : ℕ
  pub color : ℕ

-- The bytes of a word in memory.
unfoldable pub bytes_of : ℕ → List ℕ
bytes_of w = w % 256 ∷ (w / 256 % 256) ∷ (w / 65536 % 256) ∷ (w / 16777216 % 256) ∷ []

-- The word that starts at the head of the memory, 0 for what is missing.
unfoldable pub word_at : List ℕ → ℕ
word_at (a ∷ b ∷ c ∷ d ∷ rest) = a + b * 256 + c * 65536 + d * 16777216
word_at bs = 0

-- `htonl` and `ntohl`: the bytes of the word turned round.
unfoldable pub htonl : ℕ → ℕ
htonl w =
    w / 16777216 % 256 + (w / 65536 % 256) * 256 + (w / 256 % 256) * 65536 + (w % 256) * 16777216

abbrev pub ntohl : ℕ → ℕ
ntohl = htonl

-- The client's message in memory, which `write` sends.
unfoldable pub message_bytes : DrawingMessage → List ℕ
message_bytes m =
    bytes_of (htonl m.x1)
    ++ (bytes_of (htonl m.y1)
        ++ (bytes_of (htonl m.x2)
            ++ (bytes_of (htonl m.y2) ++ (bytes_of (htonl m.width) ++ bytes_of (htonl m.color)))))

-- The struct in the server's memory after `read`, which overwrites as many bytes as it returns.
unfoldable pub received : List ℕ → List ℕ → List ℕ
received old stream = take 24 stream ++ drop (length (take 24 stream)) old

-- The fields after the calls of `ntohl`.
unfoldable pub read_message : List ℕ → DrawingMessage
read_message memory = record {
  x1 = ntohl (word_at memory);
  y1 = ntohl (word_at (drop 4 memory));
  x2 = ntohl (word_at (drop 8 memory));
  y2 = ntohl (word_at (drop 12 memory));
  width = ntohl (word_at (drop 16 memory));
  color = ntohl (word_at (drop 20 memory));
}
