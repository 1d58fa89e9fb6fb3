-- ===== src/Game/Refines.antt =====
-- The event loop of `main` refines the abstract server of `Game.Lobby`.
use game_network.Prelude.{
  ℕ, ◌<◌, ◌≡◌, refl, ◌≢◌, inl, inr, true, none, some, Option, List, arith, ℤ, pos, negsuc,
  minus_one, get_elem?, modify, All, ◌∙◌, sym, get_elem?-modify_at, get_elem?_within,
  get_elem?_bound, All-get_elem?, Option-cases, ==ℤ_iff, IsFirst,
}
use game_network.Game.Types.{Player, Packet, SockAddr, strncpy, name_size, max_players}
use game_network.Game.Table.{holds_fd, alloc_player, free_player, activate, deactivate}
use game_network.Game.Handlers.{
  on_tcp, on_udp, login_as, logout, rename, move_to, slot, active_slot,
}
use game_network.Game.Server.{Event, Server, turn}
use game_network.Game.Cases.{on_tcp_cases, serve_client_cases, turn_cases}
use game_network.Game.Alloc.{alloc_player_cases, free_player_cases, Allocated}
use game_network.Game.Invariant.{IsTable, IsSlot, IsSlot-active, IsReady}
use game_network.Game.Lobby.{
  Session, session_of, Lobby, session, view, Put, TcpStep, UdpStep, EndStep, Step, join, refuse,
  leave, bad_leave, other, move, stray, drop, unknown, accepts, datagram, ends, packet,
  view-modify_at, view-modify_other, view_session, view_free, view_active,
}

-- A slot changed by `f`, as a step of the view.
modify-Put :
    (i : ℕ) (f : Player → Player) (players : List Player) {p : Player}
    → get_elem? players i ≡ some p
    → Put (view players) i (session (f p)) (view (modify i f players))
modify-Put i f players e = (view-modify_at i f players e, λ j h. view-modify_other i j f players h)

Put-trans :
    {u v w : Lobby} (i : ℕ) {o o' : Option Session} → Put u i o v → Put v i o' w → Put u i o' w
Put-trans i p q = (q.0, λ j h. q.1 j h ∙ p.1 j h)

slot-some : (pid : ℤ) {i : ℕ} → slot pid ≡ some i → (pid ≡ pos i) × (i < max_players)
slot-some (pos n) e = (ground arith, ground arith)
slot-some (negsuc n) e = cc

slot-none : (pid : ℤ) (i : ℕ) → slot pid ≡ none → i < max_players → pid ≢ pos i
slot-none (pos n) i e h q = ground arith
slot-none (negsuc n) i e h q = cc

-- What the newcomer finds in the slot of `old`.
abbrev newcomer : ℤ → Packet → Player → Session
newcomer fd pkt old = record {
  fd = fd;
  hp = 100;
  username = strncpy name_size pkt.username;
  x = old.x;
  y = old.y;
  udp_addr = old.udp_addr;
}

module _ (players : List Player) (t : IsTable players) where
  occupant : (i : ℕ) → i < max_players → (p : Player) × (get_elem? players i ≡ some p)
  occupant i h = get_elem?_within players i (omega (arith, t.full))

  active_view :
      (i : ℕ) → All (λ p. p.is_active ≡ true) players → i < max_players → view players i ≢ none
  active_view i all h =
      let (p, at) = occupant i h in
      λ n.
        ground (
          arith,
          view_active players i at (All-get_elem? (λ p. p.is_active ≡ true) players i all at),
        )

  earlier_view : (fd : ℤ) (i j : ℕ) → Allocated fd players i → j < i → view players j ≢ none
  earlier_view fd i j a h =
      let (p, at) = occupant j (omega (arith, get_elem?_bound players i a.stood, t.full)) in
      λ n. ground (arith, view_active players j at (a.lowest j p h at))

  login_joins :
      (fd : ℤ) (pkt : Packet) (i : ℕ)
      → pkt.type ≡ pos 1
      → Allocated fd players i
      → TcpStep fd pkt (view players) (view (login_as (alloc_player fd players) pkt fd).0)
  unfolding login_as
  login_joins fd pkt i e a = rw a.result (
      join i (newcomer fd pkt a.old) e (omega (arith, get_elem?_bound players i a.stood, t.full))
        (view_free players i a.stood a.was_free) (λ j h. earlier_view fd i j a h)
        (record { connection = refl; health = refl; name = refl })
        (Put-trans i (modify-Put i (activate fd) players a.stood) (
          modify-Put i (rename pkt.username) (modify i (activate fd) players)
            (get_elem?-modify_at i (activate fd) players a.stood))))

  login-TcpStep :
      (fd : ℤ) (pkt : Packet)
      → pkt.type ≡ pos 1
      → TcpStep fd pkt (view players) (view (login_as (alloc_player fd players) pkt fd).0)
  unfolding login_as
  login-TcpStep fd pkt e = elim (alloc_player_cases fd players) [
    | inl (full, all) ↦ rw full (refuse e (λ i h. active_view i all h) (λ j. refl))
    | inr (i, a) ↦ login_joins fd pkt i e a
  ]

  logout-TcpStep :
      (fd : ℤ) (pkt : Packet)
      → pkt.type ≡ pos 2
      → TcpStep fd pkt (view players) (view (logout pkt players).0)
  unfolding logout
  logout-TcpStep fd pkt e = elim (Option-cases (slot pkt.player_id)) [
    | inl no_slot ↦
        rw (no_slot, logout) (bad_leave e (λ i h. slot-none pkt.player_id i no_slot h) (λ j. refl))
    | inr (i, at) ↦
        let (is_i, within) = slot-some pkt.player_id at in
        let (p, stands) = occupant i within in
        rw (at, logout) (leave i e is_i within (modify-Put i deactivate players stands))
  ]

  on_tcp-TcpStep :
      (fd : ℤ) (pkt : Packet) → TcpStep fd pkt (view players) (view (on_tcp pkt fd players).0)
  on_tcp-TcpStep fd pkt =
      on_tcp_cases (λ r. TcpStep fd pkt (view players) (view r.0)) pkt fd players
        (login-TcpStep fd pkt) (logout-TcpStep fd pkt)
        (λ relayed. other (λ e. ground arith) (λ e. ground arith) (λ j. refl))
        (λ n1 n2. other n1 n2 (λ j. refl))

  active_slot-some :
      (pid : ℤ) {i : ℕ}
      → active_slot pid players ≡ some i
      → (p : Player) × (pid ≡ pos i)
        × (i < max_players)
        × (get_elem? players i ≡ some p)
        × (p.is_active ≡ true)
  active_slot-some (pos n) e = elim (Option-cases (get_elem? players n)) [
    | inl free ↦ absurd (ground arith)
    | inr (p, at) ↦ (p, ground arith, ground arith, ground arith, ground arith)
  ]
  active_slot-some (negsuc n) e = cc

  active_slot-none :
      (pid : ℤ) (i : ℕ)
      → active_slot pid players ≡ none
      → i < max_players
      → pid ≡ pos i
      → view players i ≡ none
  active_slot-none (pos n) i e h q = ground arith
  active_slot-none (negsuc n) i e h q = cc

  on_udp-UdpStep :
      (pkt : Packet) (src : SockAddr)
      → UdpStep pkt src (view players) (view (on_udp pkt src players).0)
  unfolding on_udp
  on_udp-UdpStep pkt src = elim (Option-cases (active_slot pkt.player_id players)) [
    | inl n ↦ rw (n, on_udp) (stray (λ i h q. active_slot-none pkt.player_id i n h q) (λ j. refl))
    | inr (i, at) ↦
        let (p, is_i, within, stands, active) = active_slot-some pkt.player_id at in
        rw (at, on_udp)
          (move i (session_of p) is_i within (view_active players i stands active)
            (rw active at (modify-Put i (move_to pkt src) players stands)))
  ]

  free_player-EndStep :
      (fd : ℤ) → fd ≢ minus_one → EndStep fd (view players) (view (free_player fd players))
  free_player-EndStep fd open_fd = elim (free_player_cases fd players) [
    | inl (e, all) ↦ rw e (unknown (λ j s v q. nobody all j v q) (λ j. refl))
    | inr (i, e, f) ↦ rw e (
        drop i (session_of f.found) (view_active players i f.stands (is_online f)) (held f)
          (λ j s h v q. earlier f j h v q) (modify-Put i deactivate players f.stands))
  ]
    where
      nobody :
          All (λ p. p.tcp_fd ≢ fd) players
          → (j : ℕ) {s : Session} → view players j ≡ some s
          → s.fd ≡ fd
          → ⊥
      nobody all j v q =
          let (p, at, active, same) = view_session players j v in
          All-get_elem? (λ p. p.tcp_fd ≢ fd) players j all at (same ∙ q)

      held : {i : ℕ} (f : IsFirst (holds_fd fd) players i) → f.found.tcp_fd ≡ fd
      held f = (==ℤ_iff f.found.tcp_fd fd).0 f.passes

      is_online : {i : ℕ} (f : IsFirst (holds_fd fd) players i) → f.found.is_active ≡ true
      is_online {i} f =
          IsSlot-active (All-get_elem? IsSlot players i t.slots f.stands)
            (λ e. open_fd (sym (held f) ∙ e))

      earlier :
          {i : ℕ} (f : IsFirst (holds_fd fd) players i) (j : ℕ) {s : Session}
          → j < i
          → view players j ≡ some s
          → s.fd ≡ fd
          → ⊥
      earlier f j h v q =
          let (p, at, active, same) = view_session players j v in
          ground (arith, f.earlier j p h at, ==ℤ_iff p.tcp_fd fd, same, q)

-- On a table that satisfies IsTable, for an event on a descriptor other than -1, every turn of the
-- event loop is a step of the abstract lobby: an accepted connection changes no session; a login
-- takes the lowest free identifier, with the connection, 100 hit points and the name, or is refused
-- when all are taken; a logout ends the session of the identifier in the packet; a packet of
-- another type changes none; a datagram moves the player of its identifier, if one is online; the
-- end of a connection ends the first session on it.
pub turn-Step :
    (s : Server) (e : Event)
    → IsReady e
    → IsTable s.players
    → Step s e (view s.players) (view (turn s e).0)
turn-Step s e ready t =
    turn_cases (λ r. Step s e (view s.players) (view r.0)) s e (λ a. accepts a (λ j. refl))
      (λ n u. datagram n u (on_udp-UdpStep s.players t e.pkt e.src))
      λ n1 n2.
        serve_client_cases (λ r. Step s e (view s.players) (view r.0)) e s.players
          (λ over. ends n1 n2 over (free_player-EndStep s.players t e.fd ready))
          (λ got. packet n1 n2 got (on_tcp-TcpStep s.players t e.fd e.pkt))
