-- ===== src/Game/Delivery.antt =====
-- How often a packet is sent to each connection, and how many sessions a connection has.
use game_network.Prelude.{
  ℕ, ◌+◌, ◌-◌, ◌*◌, ◌<◌, ◌≡◌, ◌≢◌, ◌⊎◌, inl, inr, refl, sym, ap, ◌∙◌, Bool, Bool-cases, true, false,
  ◌&&◌, some, List, [], ◌∷◌, arith, ℤ, pos, minus_one, ◌==ℤ◌, ==ℤ_iff, ==ℤ_refl, get_elem?, modify,
  All, to_ℕ, count, count-cons, count-modify, count-eq-zero, All-get_elem?, get_elem?-modify_at,
  IsFirst, All-mono,
}
use game_network.Game.Types.{Player, Packet, Effect, send}
use game_network.Game.Table.{free_player, broadcast_tcp, activate, deactivate, hears_tcp, holds_fd}
use game_network.Game.Handlers.{on_tcp, login_as, rename}
use game_network.Game.Cases.{on_tcp_login, on_tcp_relay}
use game_network.Game.Alloc.{Allocated, free_player_cases}
use game_network.Game.Invariant.{IsTable, IsSlot, IsSlot-active}

abbrev pub is_send_to : ℤ → Effect → Bool
is_send_to d (send fd pkt) = fd ==ℤ d
is_send_to d _ = false

abbrev pub sends_to : ℤ → List Effect → ℕ
sends_to d = count (is_send_to d)

abbrev pub plays_on : ℤ → Player → Bool
plays_on d p = p.is_active && p.tcp_fd ==ℤ d

abbrev pub sessions_on : ℤ → List Player → ℕ
sessions_on d = count (plays_on d)

-- Every send carries this packet.
abbrev pub Carries : Packet → Effect → Type 0
Carries pkt e = (fd : ℤ) × (e ≡ send fd pkt)

broadcast_tcp-Carries :
    (pkt : Packet) (players : List Player) → All (Carries pkt) (broadcast_tcp pkt players)
unfolding broadcast_tcp
broadcast_tcp-Carries pkt [] = tt
broadcast_tcp-Carries pkt (p ∷ ps) = elim (Bool-cases (hears_tcp p)) [
  | inl h ↦ rw h ((p.tcp_fd, refl), broadcast_tcp-Carries pkt ps)
  | inr h ↦ rw h (broadcast_tcp-Carries pkt ps)
]

-- A broadcast reaches each connection once for each session on it.
pub sends_to-broadcast_tcp :
    (d : ℤ) (pkt : Packet) (players : List Player)
    → d ≢ minus_one
    → sends_to d (broadcast_tcp pkt players) ≡ sessions_on d players
unfolding broadcast_tcp count
sends_to-broadcast_tcp d pkt [] h = refl
sends_to-broadcast_tcp d pkt (p ∷ ps) h =
    ground
      (arith, sends_to-broadcast_tcp d pkt ps h, ==ℤ_iff p.tcp_fd d, ==ℤ_iff p.tcp_fd minus_one)

sessions_on-activate :
    (d fd : ℤ) (players : List Player) (i : ℕ)
    → Allocated fd players i
    → sessions_on d (modify i (activate fd) players) ≡ sessions_on d players + to_ℕ (fd ==ℤ d)
sessions_on-activate d fd players i a =
    ground (arith, a.was_free, count-modify (plays_on d) i (activate fd) players a.stood)

sessions_on-rename :
    (d : ℤ) (name : List ℕ) (players : List Player) (i : ℕ) {p : Player}
    → get_elem? players i ≡ some p
    → sessions_on d (modify i (rename name) players) ≡ sessions_on d players
sessions_on-rename d name players i e =
    omega (arith, count-modify (plays_on d) i (rename name) players e)

pub sessions_on_none :
    (d fd : ℤ) (players : List Player)
    → fd ≡ d
    → All (λ p. p.tcp_fd ≢ fd) players
    → sessions_on d players ≡ 0
sessions_on_none d fd players e all =
    count-eq-zero (plays_on d) players
      (All-mono {P = λ p. p.tcp_fd ≢ fd} players (λ p h. ground (arith, ==ℤ_iff p.tcp_fd d)) all)

-- On a table that satisfies IsTable, free_player of a descriptor other than -1 lowers the number of
-- sessions on that descriptor by one, if there is one, and leaves the number on every other
-- descriptor.
sessions_on-free_player :
    (d fd : ℤ) (players : List Player)
    → fd ≢ minus_one
    → IsTable players
    → sessions_on d (free_player fd players) ≡ sessions_on d players - to_ℕ (fd ==ℤ d)
sessions_on-free_player d fd players open_fd t = elim (free_player_cases fd players) [
  | inl (e, all) ↦
      rw e (ground (arith, ==ℤ_iff fd d, λ (q : fd ≡ d). sessions_on_none d fd players q all))
  | inr (i, e, f) ↦ rw e (
      ground (
        arith,
        online i f,
        ==ℤ_iff fd d,
        ==ℤ_iff f.found.tcp_fd fd,
        ==ℤ_iff f.found.tcp_fd d,
        count-modify (plays_on d) i deactivate players f.stands,
      ))
]
  where
    online : (i : ℕ) (f : IsFirst (holds_fd fd) players i) → f.found.is_active ≡ true
    online i f =
        IsSlot-active (All-get_elem? IsSlot players i t.slots f.stands)
          (λ e. open_fd (sym ((==ℤ_iff f.found.tcp_fd fd).0 f.passes) ∙ e))

-- A login packet on a connection that finds a free slot i: all that on_tcp sends is the packet with
-- player_id i, and a connection d other than -1 gets it once for each session that was on d before,
-- and twice more if d is the newcomer's.
pub login_delivery :
    (fd : ℤ) (pkt : Packet) (players : List Player) (i : ℕ) (d : ℤ)
    → Allocated fd players i
    → pkt.type ≡ pos 1
    → d ≢ minus_one
    → All (Carries (record pkt { player_id = pos i })) (on_tcp pkt fd players).1
      × (sends_to d (on_tcp pkt fd players).1 ≡ sessions_on d players + 2 * to_ℕ (fd ==ℤ d))
unfolding login_as
login_delivery fd pkt players i d a e h =
    rw (on_tcp_login pkt fd players e, a.result)
      (
        ((fd, refl), broadcast_tcp-Carries resp named),
        omega (
          arith,
          count-cons (is_send_to d) (send fd resp) (broadcast_tcp resp named),
          sends_to-broadcast_tcp d resp named h,
          sessions_on-rename d pkt.username (modify i (activate fd) players) i
              (get_elem?-modify_at i (activate fd) players a.stood),
          sessions_on-activate d fd players i a,
        ),
      )
  where
    resp : Packet
    resp = record pkt { player_id = pos i }

    named : List Player
    named = modify i (rename pkt.username) (modify i (activate fd) players)

-- An attack or item packet leaves the table as it is, and on_tcp sends that packet, unchanged, to
-- each connection other than -1 once for each session on it, the sender's among them.
relay_delivery :
    (fd : ℤ) (pkt : Packet) (players : List Player) (d : ℤ)
    → (pkt.type ≡ pos 4) ⊎ (pkt.type ≡ pos 5)
    → d ≢ minus_one
    → ((on_tcp pkt fd players).0 ≡ players)
      × All (Carries pkt) (on_tcp pkt fd players).1
      × (sends_to d (on_tcp pkt fd players).1 ≡ sessions_on d players)
relay_delivery fd pkt players d e h =
    rw (on_tcp_relay pkt fd players e)
      (refl, broadcast_tcp-Carries pkt players, sends_to-broadcast_tcp d pkt players h)

-- Where more than one session is on a descriptor other than -1 of a table that satisfies IsTable,
-- free_player of it leaves a session behind: an attack packet that is served afterwards is sent to
-- that descriptor.
pub ghost_session :
    (fd fd' : ℤ) (pkt : Packet) (players : List Player)
    → fd ≢ minus_one
    → IsTable players
    → 1 < sessions_on fd players
    → pkt.type ≡ pos 4
    → 0 < sends_to fd (on_tcp pkt fd' (free_player fd players)).1
ghost_session fd fd' pkt players open_fd t twice e = omega (
  arith,
  (relay_delivery fd' pkt (free_player fd players) fd (inl e) open_fd).2,
  sessions_on-free_player fd fd players open_fd t,
  ap to_ℕ (==ℤ_refl fd),
)
