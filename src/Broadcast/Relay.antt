-- ===== src/Broadcast/Relay.antt =====
-- Clients of week11/epoll_client.c that talk through the server of week11/epoll_server.c.
use game_network.Prelude.{
  ℕ, ◌≡◌, ◌≢◌, ◌<◌, refl, ap, ◌∙◌, ◌==ℤ◌, ==ℤ_iff, if◌then◌else◌, Bool-cases, true, false, inl, inr,
  some, List, [], ◌∷◌, ◌++◌, arith, ℤ, All, count, length, replicate, map, replicate_counted,
  replicate_uncounted, ◌≤◌, take, take_all,
}
use game_network.Broadcast.Server.{
  Server, Event, Effect, broadcast, read_client, turn, serve, clients, next_turn, behind,
  buffer_size, handle_read,
}
use game_network.Broadcast.Clients.{
  Write, Ready, take_message, epoll_client, ClientRun, polling, write_first,
}

-- A text that the client on a socket of the server sends.
pub record Message : Type 0 where
  pub from : ℤ
  pub text : List ℕ

-- What the server's loop gets for it.
abbrev pub message_event : Message → Event
message_event m = record { current_fd = m.from; client_socket = m.from; message = some m.text }

-- What the client on the socket `d` gets: its own texts from the keyboard, and in the place of each
-- other text the next of the server's writes to it.
abbrev next_write : (List (List ℕ) → List Ready) → List (List ℕ) → List Ready
next_write more [] = []
next_write more (bytes ∷ writes) = Ready.socket (some bytes) ∷ more writes

unfoldable pub script : ℤ → List Message → List (List ℕ) → List Ready
script d [] writes = []
script d (m ∷ ms) writes = elim (m.from ==ℤ d) [
  | true ↦ Ready.keyboard (some m.text) ∷ script d ms writes
  | false ↦ next_write (script d ms) writes
]

-- What it does then.
abbrev pub does : ℤ → Message → Write
does d m = if m.from ==ℤ d then Write.to_server m.text else Write.to_screen m.text

-- The texts of the others.
abbrev pub heard : ℤ → List Message → List (List ℕ)
heard d [] = []
heard d (m ∷ ms) = let rest = heard d ms in if m.from ==ℤ d then rest else m.text ∷ rest

-- What the server writes to a socket.
abbrev pub written_to : ℤ → List Effect → List (List ℕ)
written_to d [] = []
written_to d (Effect.write sock bytes ∷ out) =
    let rest = written_to d out in if sock ==ℤ d then bytes ∷ rest else rest
written_to d (Effect.write_all sock ∷ out) = written_to d out
written_to d (Effect.epoll_add sock ∷ out) = written_to d out
written_to d (Effect.epoll_del sock ∷ out) = written_to d out
written_to d (Effect.close sock ∷ out) = written_to d out

written_to-append :
    (d : ℤ) (out more : List Effect)
    → written_to d (out ++ more) ≡ written_to d out ++ written_to d more
written_to-append d [] more = refl
written_to-append d (Effect.write sock bytes ∷ out) more = elim (Bool-cases (sock ==ℤ d)) [
  | inl e ↦ rw e (ap (◌∷◌ bytes) (written_to-append d out more))
  | inr e ↦ rw e (written_to-append d out more)
]
written_to-append d (Effect.write_all sock ∷ out) more = written_to-append d out more
written_to-append d (Effect.epoll_add sock ∷ out) more = written_to-append d out more
written_to-append d (Effect.epoll_del sock ∷ out) more = written_to-append d out more
written_to-append d (Effect.close sock ∷ out) more = written_to-append d out more

written_to_sender :
    (d : ℤ) (text : List ℕ) (socks : List ℤ) → written_to d (broadcast d (some text) socks) ≡ []
unfolding broadcast
written_to_sender d text [] = refl
written_to_sender d text (sock ∷ socks) = elim (Bool-cases (sock ==ℤ d)) [
  | inl e ↦ rw e (written_to_sender d text socks)
  | inr e ↦ rw e (rw e (written_to_sender d text socks))
]

abbrev pub entries : ℤ → List ℤ → ℕ
entries d = count (λ sock. sock ==ℤ d)

written_to_other :
    (d fd : ℤ) (text : List ℕ) (socks : List ℤ)
    → fd ≢ d
    → written_to d (broadcast fd (some text) socks) ≡ replicate (entries d socks) text
unfolding broadcast count
written_to_other d fd text [] h = refl
written_to_other d fd text (sock ∷ socks) h =
    let rest = written_to_other d fd text socks h in
    elim (Bool-cases (sock ==ℤ d)) [
      | inl e ↦
          let other : (sock ==ℤ fd) ≡ false =
            ground (arith, h, e, ==ℤ_iff sock d, ==ℤ_iff sock fd) in
          rw other (rw e (ap (◌∷◌ text) rest ∙ replicate_counted (entries d socks) text))
      | inr e ↦ elim (Bool-cases (sock ==ℤ fd)) [
        | inl g ↦ rw (g, e) (rest ∙ replicate_uncounted (entries d socks) text)
        | inr g ↦ rw g (rw e (rest ∙ replicate_uncounted (entries d socks) text))
      ]
    ]

-- A text that a read of 1024 bytes takes whole, from another socket than the server's own.
pub record IsSpoken (s : Server) (m : Message) : Type 0 where
  pub not_server : m.from ≢ s.server_socket
  pub filled : 0 < length m.text
  pub fits : length m.text ≤ buffer_size

read_text :
    (fd : ℤ) (text : List ℕ) (s : Server)
    → 0 < length text
    → length text ≤ buffer_size
    → read_client fd (some text) s ≡ (s, broadcast fd (some text) (clients s))
unfolding read_client
read_text fd [] s h fits = absurd (omega arith)
read_text fd (b ∷ bs) s h fits =
    ap (λ bytes. handle_read fd (some bytes) s) (take_all buffer_size (b ∷ bs) fits)

message_turn :
    (s : Server) (m : Message)
    → IsSpoken s m
    → turn s (message_event m) ≡ some (s, broadcast m.from (some m.text) (clients s))
unfolding turn
message_turn s m h =
    let foreign : (m.from ==ℤ s.server_socket) ≡ false =
      ground (arith, h.not_server, ==ℤ_iff m.from s.server_socket) in
    rw foreign (ap some (read_text m.from m.text s h.filled h.fits))

serve_messages :
    (s : Server) (ms : List Message)
    → All (IsSpoken s) ms
    → (out : List Effect) × (serve (map message_event ms) s ≡ some (s, out))
      × ((d : ℤ) → entries d (clients s) ≡ 1 → written_to d out ≡ heard d ms)
unfolding serve
serve_messages s [] h = ([], refl, λ d e. refl)
serve_messages s (m ∷ ms) h =
    let (out, run, got) = serve_messages s ms h.1 in
    let now = broadcast m.from (some m.text) (clients s) in
    (
      now ++ out,
      ap (next_turn (serve (map message_event ms))) (message_turn s m h.0) ∙ ap (behind now) run,
      λ d e. written_to-append d now out ∙ elim (Bool-cases (m.from ==ℤ d)) [
        | inl own ↦
            let same : m.from ≡ d = (==ℤ_iff m.from d).0 own in
            rw own (
              ap (λ f. written_to d (broadcast f (some m.text) (clients s)) ++ written_to d out)
                same
              ∙ ap (λ ts. ts ++ written_to d out) (written_to_sender d m.text (clients s))
              ∙ got d e)
        | inr foreign ↦ rw foreign (
            ap (λ ts. ts ++ written_to d out)
              (written_to_other d m.from m.text (clients s)
                  (λ q. ground (arith, foreign, q, ==ℤ_iff m.from d))
                ∙ ap (λ n. replicate n m.text) e)
            ∙ ap (◌∷◌ m.text) (got d e))
      ],
    )

take_text :
    (later : ClientRun) (text : List ℕ)
    → 0 < length text
    → take_message later (some text) ≡ write_first (Write.to_screen text) later
unfolding take_message
take_text later [] h = absurd (omega arith)
take_text later (b ∷ bs) h = refl

client_script :
    (s : Server) (d : ℤ) (ms : List Message)
    → All (IsSpoken s) ms
    → epoll_client (script d ms (heard d ms)) ≡ (map (does d) ms, polling)
unfolding epoll_client script
client_script s d [] h = refl
client_script s d (m ∷ ms) h =
    let whole : take buffer_size m.text ≡ m.text = take_all buffer_size m.text h.0.fits in
    let later = epoll_client (script d ms (heard d ms)) in
    elim (Bool-cases (m.from ==ℤ d)) [
      | inl e ↦
          rw (script, e)
            (rw e (
              ap (λ text. write_first (Write.to_server text) later) whole
              ∙ ap (write_first (Write.to_server m.text)) (client_script s d ms h.1)))
      | inr e ↦
          rw (script, e)
            (rw e (
              ap (λ text. take_message later (some text)) whole
              ∙ take_text later m.text h.0.filled
              ∙ ap (write_first (Write.to_screen m.text)) (client_script s d ms h.1)))
    ]

-- Texts of 1 to 1024 bytes, sent one after the other by clients on other sockets than the server's
-- own, each taken by the server with one read: the loops of the epoll server return with the
-- clients unchanged, and a socket that stands once among the clients is written the texts of the
-- others, whole and in their order, and none of its own. The epoll client on that socket, which
-- reads its own texts from the keyboard and each of those writes with one read in the place of its
-- text, forwards the ones and prints the others, in the order in which all were sent.
pub relay_talk :
    (s : Server) (ms : List Message) (d : ℤ)
    → All (IsSpoken s) ms
    → entries d (clients s) ≡ 1
    → (out : List Effect) × (serve (map message_event ms) s ≡ some (s, out))
      × (written_to d out ≡ heard d ms)
      × (epoll_client (script d ms (written_to d out)) ≡ (map (does d) ms, polling))
relay_talk s ms d h once =
    let (out, run, got) = serve_messages s ms h in
    (
      out,
      run,
      got d once,
      ap (λ writes. epoll_client (script d ms writes)) (got d once) ∙ client_script s d ms h,
    )
