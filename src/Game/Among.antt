-- ===== src/Game/Among.antt =====
-- A client of week13/client.c among others: its session on the server of week13/lserver.c, with any
-- events of the others between its own.
use game_network.Game.Alloc.{Allocated}
use game_network.Game.Cases.{on_tcp_relay}
use game_network.Game.Client.{
  Sent, send_tcp, send_udp, logout_packet, login_packet, move_packet, attack_packet, item_packet,
  user_name,
}
use game_network.Game.Persist.{IsForeign, session_persists}
use game_network.Game.Invariant.{IsReady, IsTable, turn-IsTable, serve-IsTable}
use game_network.Game.Table.{deactivate}
use game_network.Game.Visit.{
  on_tcp_leaves, on_udp_moves, IsConnection, event_of, turn_tcp, arrived, on_tcp_arrives, turn_udp,
}
use game_network.Game.Handlers.{on_udp, on_tcp, move_to}
use game_network.Game.Server.{Server, serve, Event, turn}
use game_network.Prelude.{
  ℕ, ◌<◌, ◌≡◌, ◌≢◌, refl, sym, ap, ◌∙◌, none, some, some_same, List, [], ◌∷◌, ◌++◌, arith, ℤ, pos,
  minus_one, All, inl, inr, ◌⊎◌, All-mono, get_elem?_bound,
}
use game_network.Game.Types.{Player, Packet, SockAddr, max_players, strncpy, name_size}
use game_network.Game.Lobby.{Session, view, view_session, session_of, view_active, view-modify_at}

abbrev moved_to : Packet → SockAddr → Session → Session
moved_to pkt src x = record x { x = pkt.x; y = pkt.y; udp_addr = src }

-- A move of a player who is online.
moved_view :
    (players : List Player) (pkt : Packet) (src : SockAddr) (i : ℕ) (x : Session)
    → i < max_players
    → pkt.player_id ≡ pos i
    → view players i ≡ some x
    → view (on_udp pkt src players).0 i ≡ some (moved_to pkt src x)
moved_view players pkt src i x small pid at =
    let (p, there, active, _) = view_session players i at in
    let same : some (session_of p) ≡ some x = sym (view_active players i there active) ∙ at in
    ap (λ r. view r.0 i) (on_udp_moves pkt src players i p pid small there active)
    ∙ view-modify_at i (move_to pkt src) players there
    ∙ rw active (ap (λ z. some (moved_to pkt src z)) (some_same same))

-- A logout of that player.
left_view :
    (players : List Player) (pkt : Packet) (c : ℤ) (i : ℕ) (x : Session)
    → pkt.type ≡ pos 2
    → pkt.player_id ≡ pos i
    → i < max_players
    → view players i ≡ some x
    → view (on_tcp pkt c players).0 i ≡ none
left_view players pkt c i x type pid small at =
    let (p, there, active, _) = view_session players i at in
    ap (λ r. view r.0 i) (on_tcp_leaves pkt c players i type pid small)
    ∙ view-modify_at i deactivate players there

module _ (tcp_sock udp_sock c : ℤ) (i : ℕ) where
  abbrev server : List Player → Server
  server players = record { tcp_sock = tcp_sock; udp_sock = udp_sock; players = players }

  -- The players behind the events.
  abbrev pub later : List Player → List Event → List Player
  later players es = (serve (server players) es).0.players

  later-append :
      (es fs : List Event) (players : List Player)
      → later players (es ++ fs) ≡ later (later players es) fs
  unfolding serve
  later-append [] fs players = refl
  later-append (e ∷ es) fs players = later-append es fs (turn (server players) e).0

  -- An event of the client itself, and those of others behind it.
  own_then :
      (players : List Player) (e : Event) (es : List Event) (x : Session)
      → IsReady e
      → IsTable players
      → view (turn (server players) e).0 i ≡ some x
      → All (IsForeign udp_sock x.fd i) es
      → (view (later players (e ∷ es)) i ≡ some x) × IsTable (later players (e ∷ es))
  unfolding serve
  own_then players e es x ready t at h =
      let after = (turn (server players) e).0 in
      let table = turn-IsTable (server players) e ready t in
      (
        session_persists (server after) es i x table at h,
        serve-IsTable (server after) es
            (All-mono {P = IsForeign udp_sock x.fd i} es (λ z k. k.ready) h) table,
      )

  module _ (src : SockAddr) (h : IsConnection tcp_sock udp_sock c) where
    abbrev own : Sent → Event
    own = event_of (server []) c src

    relay_view :
        (players : List Player) (pkt : Packet) (x : Session)
        → (pkt.type ≡ pos 4) ⊎ (pkt.type ≡ pos 5)
        → view players i ≡ some x
        → view (turn (server players) (own (send_tcp pkt))).0 i ≡ some x
    relay_view players pkt x e at =
        ap (λ r. view r.0 i) (turn_tcp (server players) c src pkt h ∙ on_tcp_relay pkt c players e)
        ∙ at

    -- The session behind the login; where the slot's last player stood is what it shows of a place.
    abbrev pub newcomer : ℕ → Player → Session
    newcomer rand old = session_of (arrived c (login_packet rand) old)

    login_view :
        (players : List Player) (rand : ℕ) (a : Allocated c players i)
        → view (turn (server players) (own (send_tcp (login_packet rand)))).0 i
          ≡ some (newcomer rand a.old)
    login_view players rand a =
        ap (λ r. view r.0 i)
          (turn_tcp (server players) c src (login_packet rand) h
            ∙ on_tcp_arrives c (login_packet rand) players i refl a)
        ∙ view-modify_at i (arrived c (login_packet rand)) players a.stood

    move_view :
        (players : List Player) (x : Session)
        → i < max_players
        → view players i ≡ some x
        → view (turn (server players) (own (send_udp (move_packet (pos i))))).0 i
          ≡ some (moved_to (move_packet (pos i)) src x)
    move_view players x small at =
        ap (λ r. view r.0 i) (turn_udp (server players) c src (move_packet (pos i)) h)
        ∙ moved_view players (move_packet (pos i)) src i x small refl at

    logout_view :
        (players : List Player) (x : Session)
        → i < max_players
        → view players i ≡ some x
        → view (later players (own (send_tcp (logout_packet (pos i))) ∷ [])) i ≡ none
    unfolding serve
    logout_view players x small at =
        ap (λ r. view r.0 i) (turn_tcp (server players) c src (logout_packet (pos i)) h)
        ∙ left_view players (logout_packet (pos i)) c i x refl refl small at

-- The client's own events up to the item use, with the events of others behind each.
abbrev pub stay :
    Server → ℤ → SockAddr → ℕ → ℕ → List Event → List Event → List Event → List Event → List Event
stay s c src rand i a b d f =
    (event_of s c src (send_tcp (login_packet rand)) ∷ a)
    ++ ((event_of s c src (send_udp (move_packet (pos i))) ∷ b)
        ++ ((event_of s c src (send_tcp (attack_packet (pos i))) ∷ d)
            ++ (event_of s c src (send_tcp (item_packet (pos i))) ∷ f)))

-- The game client among others, on a table that satisfies IsTable and has the free slot i as its
-- lowest: between its login, its move, its attack, its item use and its logout the server may
-- handle any events that neither come from its connection or the descriptor -1 nor are a datagram
-- or a logout with player_id i. When the descriptor of the datagrams is not -1, the lobby has, just
-- before the logout, its session i with 100 hp, its name, position and address, and right behind
-- the logout none.
pub visit_among :
    (s : Server) (c : ℤ) (src : SockAddr) (rand i : ℕ) (a b d f : List Event)
    → IsConnection s.tcp_sock s.udp_sock c
    → s.udp_sock ≢ minus_one
    → IsTable s.players
    → Allocated c s.players i
    → All (IsForeign s.udp_sock c i) a
    → All (IsForeign s.udp_sock c i) b
    → All (IsForeign s.udp_sock c i) d
    → All (IsForeign s.udp_sock c i) f
    → (view (serve s (stay s c src rand i a b d f)).0.players i
        ≡ some (record {
          fd = c;
          hp = 100;
          username = strncpy name_size (strncpy name_size (user_name rand));
          x = 1093140480;
          y = 1101162086;
          udp_addr = src;
        }))
      × (view
            (serve s (
              stay s c src rand i a b d f
              ++ (event_of s c src (send_tcp (logout_packet (pos i))) ∷ []))).0.players
            i
          ≡ none)
visit_among s c src rand i a b d f h udp_open t alloc ha hb hd hf =
    let small : i < max_players = omega (arith, t.full, get_elem?_bound s.players i alloc.stood) in
    let T = s.tcp_sock in
    let U = s.udp_sock in
    let e1 = event_of s c src (send_tcp (login_packet rand)) in
    let e2 = event_of s c src (send_udp (move_packet (pos i))) in
    let e3 = event_of s c src (send_tcp (attack_packet (pos i))) in
    let e4 = event_of s c src (send_tcp (item_packet (pos i))) in
    let e5 = event_of s c src (send_tcp (logout_packet (pos i))) in
    let x0 = newcomer T U c i src h rand alloc.old in
    let x1 = moved_to (move_packet (pos i)) src x0 in
    let p1 =
      own_then T U c i s.players e1 a x0 h.is_open t (login_view T U c i src h s.players rand alloc)
        ha in
    let q1 = later T U c i s.players (e1 ∷ a) in
    let p2 =
      own_then T U c i q1 e2 b x1 udp_open p1.1 (move_view T U c i src h q1 x0 small p1.0) hb in
    let q2 = later T U c i q1 (e2 ∷ b) in
    let p3 =
      own_then T U c i q2 e3 d x1 h.is_open p2.1
        (relay_view T U c i src h q2 (attack_packet (pos i)) x1 (inl refl) p2.0) hd in
    let q3 = later T U c i q2 (e3 ∷ d) in
    let p4 =
      own_then T U c i q3 e4 f x1 h.is_open p3.1
        (relay_view T U c i src h q3 (item_packet (pos i)) x1 (inr refl) p3.0) hf in
    let q4 = later T U c i q3 (e4 ∷ f) in
    let tail = (e3 ∷ d) ++ (e4 ∷ f) in
    let joined : later T U c i s.players (stay s c src rand i a b d f) ≡ q4 =
      later-append T U c i (e1 ∷ a) ((e2 ∷ b) ++ tail) s.players
      ∙ later-append T U c i (e2 ∷ b) tail q1
      ∙ later-append T U c i (e3 ∷ d) (e4 ∷ f) q2 in
    (
      ap (λ ps. view ps i) joined ∙ p4.0,
      ap (λ ps. view ps i) (later-append T U c i (stay s c src rand i a b d f) (e5 ∷ []) s.players)
          ∙ ap (λ ps. view (later T U c i ps (e5 ∷ [])) i) joined
          ∙ logout_view T U c i src h q4 x1 small p4.0,
    )
