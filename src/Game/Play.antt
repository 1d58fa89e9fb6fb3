-- ===== src/Game/Play.antt =====
-- The whole session of a client of week13/client.c with the server of week13/lserver.c.
use game_network.Game.Handlers.{move_to}
use game_network.Game.Cases.{on_tcp_relay}
use game_network.Game.Lobby.{Same, view, view-modify_at, view_free, view-modify_other}
use game_network.Game.Table.{free_player, broadcast_udp, broadcast_tcp, deactivate}
use game_network.Game.Delivery.{sessions_on, sessions_on_none, plays_on}
use game_network.Game.Alloc.{Allocated, free_player_cases}
use game_network.Game.Invariant.{IsTable}
use game_network.Game.Visit.{
  arrived, moved, gone, IsConnection, event_of, end_of, turn_tcp, turn_udp, turn_end,
  on_tcp_arrives, on_udp_moves, on_tcp_leaves,
}
use game_network.Game.Client.{login_packet, move_packet, send_tcp, send_udp, logout_packet}
use game_network.Game.Server.{Server, turn}
use game_network.Prelude.{
  ℕ, ◌<◌, ◌≡◌, ◌≢◌, refl, sym, ap, ◌∙◌, ◌==◌, Bool-cases, inl, inr, List, [], ◌∷◌, arith, ℤ, pos,
  ==ℤ_iff, ==ℤ_refl, count-modify, modify, modify-modify, All, get_elem?-modify_at, get_elem?_bound,
  All-modify, All-get_elem?, ◌⊎◌,
}
use game_network.Game.Types.{Player, Packet, SockAddr, max_players, epoll_del, send, close_fd}

module _ (s : Server) (c : ℤ) (src : SockAddr) (rand i : ℕ) where
  abbrev pub resp : Packet
  resp = record (login_packet rand) { player_id = pos i }

  abbrev pub there : List Player
  there = modify i (arrived c (login_packet rand)) s.players

  abbrev pub further : List Player
  further = modify i (moved c (login_packet rand) (move_packet (pos i)) src) s.players

  abbrev pub without : List Player
  without = modify i (gone c (login_packet rand) (move_packet (pos i)) src) s.players

  module _ (h : IsConnection s.tcp_sock s.udp_sock c) (t : IsTable s.players)
      (unheld : All (λ p. p.tcp_fd ≢ c) s.players) (a : Allocated c s.players i) where
    pub small : i < max_players
    small = omega (arith, t.full, get_elem?_bound s.players i a.stood)

    sessions_before : sessions_on c s.players ≡ 0
    sessions_before = sessions_on_none c c s.players refl unheld

    pub sessions_there : sessions_on c there ≡ 1
    sessions_there = ground (
      arith,
      a.was_free,
      sessions_before,
      ==ℤ_refl c,
      count-modify (plays_on c) i (arrived c (login_packet rand)) s.players a.stood,
    )

    pub sessions_further : sessions_on c further ≡ 1
    sessions_further = ground (
      arith,
      a.was_free,
      sessions_before,
      ==ℤ_refl c,
      count-modify (plays_on c) i (moved c (login_packet rand) (move_packet (pos i)) src) s.players
          a.stood,
    )

    pub sessions_without : sessions_on c without ≡ 0
    sessions_without = ground (
      arith,
      a.was_free,
      sessions_before,
      count-modify (plays_on c) i (gone c (login_packet rand) (move_packet (pos i)) src) s.players
          a.stood,
    )

    unheld_without : All (λ p. p.tcp_fd ≢ c) without
    unheld_without =
        All-modify (λ p. p.tcp_fd ≢ c) i (gone c (login_packet rand) (move_packet (pos i)) src)
          s.players (λ p _ _ e. h.is_open (sym e)) unheld

    free_player-without : free_player c without ≡ without
    free_player-without = elim (free_player_cases c without) [
      | inl (e, _) ↦ e
      | inr (j, e, f) ↦ absurd (
          All-get_elem? (λ p. p.tcp_fd ≢ c) without j unheld_without f.stands
            ((==ℤ_iff f.found.tcp_fd c).0 f.passes))
    ]

    pub without-view : Same (view s.players) (view without)
    without-view j = elim (Bool-cases (j == i)) [
      | inl e ↦
          let q : j ≡ i = ground (arith, e) in
          rw q (
            view-modify_at i (gone c (login_packet rand) (move_packet (pos i)) src) s.players
              a.stood
            ∙ sym (view_free s.players i a.stood a.was_free))
      | inr e ↦
          view-modify_other i j (gone c (login_packet rand) (move_packet (pos i)) src) s.players
            (ground (arith, e))
    ]

    -- The turns.
    pub login_turn :
        turn s (event_of s c src (send_tcp (login_packet rand)))
        ≡ (there, send c resp ∷ broadcast_tcp resp there)
    login_turn =
        turn_tcp s c src (login_packet rand) h
        ∙ on_tcp_arrives c (login_packet rand) s.players i refl a

    pub move_turn :
        turn (record s { players = there }) (event_of s c src (send_udp (move_packet (pos i))))
        ≡ (further, broadcast_udp (move_packet (pos i)) further)
    move_turn =
        turn_udp (record s { players = there }) c src (move_packet (pos i)) h
        ∙ on_udp_moves (move_packet (pos i)) src there i (arrived c (login_packet rand) a.old) refl
            small (get_elem?-modify_at i (arrived c (login_packet rand)) s.players a.stood) refl
        ∙ ap (λ u. (u, broadcast_udp (move_packet (pos i)) u))
            (modify-modify i (move_to (move_packet (pos i)) src) (arrived c (login_packet rand))
              s.players)

    pub relay_turn :
        (pkt : Packet)
        → (pkt.type ≡ pos 4) ⊎ (pkt.type ≡ pos 5)
        → turn (record s { players = further }) (event_of s c src (send_tcp pkt))
          ≡ (further, broadcast_tcp pkt further)
    relay_turn pkt e =
        turn_tcp (record s { players = further }) c src pkt h ∙ on_tcp_relay pkt c further e

    pub logout_turn :
        turn (record s { players = further }) (event_of s c src (send_tcp (logout_packet (pos i))))
        ≡ (without, broadcast_tcp (logout_packet (pos i)) without)
    logout_turn =
        turn_tcp (record s { players = further }) c src (logout_packet (pos i)) h
        ∙ on_tcp_leaves (logout_packet (pos i)) c further i refl refl small
        ∙ ap (λ u. (u, broadcast_tcp (logout_packet (pos i)) u))
            (modify-modify i deactivate (moved c (login_packet rand) (move_packet (pos i)) src)
              s.players)

    pub end_turn :
        turn (record s { players = without }) (end_of c src)
        ≡ (without, epoll_del c ∷ close_fd c ∷ [])
    end_turn =
        turn_end (record s { players = without }) c src h
        ∙ ap (λ u. (u, epoll_del c ∷ close_fd c ∷ [])) free_player-without
