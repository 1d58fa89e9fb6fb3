-- ===== src/Game/Inbox.antt =====
-- The packets that the server sends to one connection, in their order.
use game_network.Prelude.{
  ℕ, ◌≡◌, ◌≢◌, refl, ap, ◌∙◌, Bool-cases, inl, inr, true, false, if◌then◌else◌, List, [], ◌∷◌, ◌++◌,
  arith, ℤ, minus_one, ◌==ℤ◌, ==ℤ_iff, replicate, count, replicate_counted, replicate_uncounted,
}
use game_network.Game.Types.{Player, Packet, Effect, send, sendto, epoll_add, epoll_del, close_fd}
use game_network.Game.Table.{broadcast_tcp, broadcast_udp, hears_udp, hears_tcp}
use game_network.Game.Delivery.{sessions_on, plays_on}

abbrev pub packets_to : ℤ → List Effect → List Packet
packets_to d [] = []
packets_to d (send fd pkt ∷ out) =
    let more = packets_to d out in if fd ==ℤ d then pkt ∷ more else more
packets_to d (sendto addr pkt ∷ out) = packets_to d out
packets_to d (epoll_add fd ∷ out) = packets_to d out
packets_to d (epoll_del fd ∷ out) = packets_to d out
packets_to d (close_fd fd ∷ out) = packets_to d out

pub packets_to-append :
    (d : ℤ) (out more : List Effect)
    → packets_to d (out ++ more) ≡ packets_to d out ++ packets_to d more
packets_to-append d [] more = refl
packets_to-append d (send fd pkt ∷ out) more = elim (Bool-cases (fd ==ℤ d)) [
  | inl e ↦ rw e (ap (◌∷◌ pkt) (packets_to-append d out more))
  | inr e ↦ rw e (packets_to-append d out more)
]
packets_to-append d (sendto addr pkt ∷ out) more = packets_to-append d out more
packets_to-append d (epoll_add fd ∷ out) more = packets_to-append d out more
packets_to-append d (epoll_del fd ∷ out) more = packets_to-append d out more
packets_to-append d (close_fd fd ∷ out) more = packets_to-append d out more

pub packets_to-broadcast_tcp :
    (d : ℤ) (pkt : Packet) (players : List Player)
    → d ≢ minus_one
    → packets_to d (broadcast_tcp pkt players) ≡ replicate (sessions_on d players) pkt
unfolding broadcast_tcp count
packets_to-broadcast_tcp d pkt [] h = refl
packets_to-broadcast_tcp d pkt (p ∷ ps) h =
    let rest = packets_to-broadcast_tcp d pkt ps h in
    elim (Bool-cases (plays_on d p)) [
      | inl e ↦
          let heard : hears_tcp p ≡ true =
            ground (arith, e, ==ℤ_iff p.tcp_fd d, ==ℤ_iff p.tcp_fd minus_one) in
          let active : p.is_active ≡ true = ground (arith, e) in
          let same : (p.tcp_fd ==ℤ d) ≡ true = ground (arith, e) in
          rw (heard, same, active) (ap (◌∷◌ pkt) rest ∙ replicate_counted (sessions_on d ps) pkt)
      | inr e ↦ elim (Bool-cases (hears_tcp p)) [
        | inl g ↦
            let active : p.is_active ≡ true = ground (arith, g) in
            let other : (p.tcp_fd ==ℤ d) ≡ false = ground (arith, e, g) in
            rw (g, other, active) (rest ∙ replicate_uncounted (sessions_on d ps) pkt)
        | inr g ↦ rw (g, e) (rest ∙ replicate_uncounted (sessions_on d ps) pkt)
      ]
    ]

-- Datagrams go to no connection.
pub packets_to-broadcast_udp :
    (d : ℤ) (pkt : Packet) (players : List Player) → packets_to d (broadcast_udp pkt players) ≡ []
unfolding broadcast_udp
packets_to-broadcast_udp d pkt [] = refl
packets_to-broadcast_udp d pkt (p ∷ ps) = elim (Bool-cases (hears_udp p)) [
  | inl e ↦ rw e (packets_to-broadcast_udp d pkt ps)
  | inr e ↦ rw e (packets_to-broadcast_udp d pkt ps)
]

pub packets_to_relayed :
    (d : ℤ) (pkt : Packet) (players : List Player) (n : ℕ) (more : List Effect)
    → d ≢ minus_one
    → sessions_on d players ≡ n
    → packets_to d (broadcast_tcp pkt players ++ more) ≡ replicate n pkt ++ packets_to d more
packets_to_relayed d pkt players n more h e =
    packets_to-append d (broadcast_tcp pkt players) more
    ∙ ap (λ ps. ps ++ packets_to d more)
        (packets_to-broadcast_tcp d pkt players h ∙ ap (λ k. replicate k pkt) e)

pub packets_to_datagrams :
    (d : ℤ) (pkt : Packet) (players : List Player) (more : List Effect)
    → packets_to d (broadcast_udp pkt players ++ more) ≡ packets_to d more
packets_to_datagrams d pkt players more =
    packets_to-append d (broadcast_udp pkt players) more
    ∙ ap (λ ps. ps ++ packets_to d more) (packets_to-broadcast_udp d pkt players)
