-- ===== src/Game/Whole.antt =====
-- What a whole session of the client of week13/client.c leaves behind, and what the client gets.
use game_network.Game.Lobby.{view, view-modify_at, Same}
use game_network.Game.Inbox.{packets_to, packets_to_relayed, packets_to_datagrams}
use game_network.Game.Table.{broadcast_udp, broadcast_tcp}
use game_network.Game.Play.{
  resp, there, further, without, login_turn, move_turn, relay_turn, logout_turn, end_turn,
  sessions_further, sessions_without, sessions_there, without-view,
}
use game_network.Game.Alloc.{Allocated}
use game_network.Game.Invariant.{IsTable}
use game_network.Game.Visit.{IsConnection, event_of, end_of, serve_step, serve_none, moved}
use game_network.Game.Server.{Server, Event, serve}
use game_network.Game.Client.{
  Received, client, move_packet, logout_packet, attack_packet, item_packet, send_tcp, send_udp,
  login_packet, recv_loop, user_name,
}
use game_network.Prelude.{
  ℕ, ◌≡◌, ◌≢◌, refl, ap, ◌∙◌, inl, inr, some, List, [], ◌∷◌, ◌++◌, ℤ, pos, All, map, take, drop,
  ==ℤ_refl,
}
use game_network.Game.Types.{
  Player, Packet, SockAddr, Effect, send, epoll_del, close_fd, strncpy, name_size,
}

-- A packet that a `recv` of the thread returns whole.
abbrev pub whole : Packet → Received
whole pkt = record { len = pos 84; pkt = pkt }

-- The events of a client that gets the identifier `i`.
abbrev pub visit : Server → ℤ → SockAddr → ℕ → ℕ → List Event
visit s c src rand i =
    map (event_of s c src) (client rand (some (resp s c src rand i))) ++ (end_of c src ∷ [])

module _ (s : Server) (c : ℤ) (src : SockAddr) (rand i : ℕ)
    (h : IsConnection s.tcp_sock s.udp_sock c) (t : IsTable s.players)
    (unheld : All (λ p. p.tcp_fd ≢ c) s.players) (a : Allocated c s.players i) where
  abbrev at : List Player → Server
  at players = record s { players = players }

  abbrev out_login : List Effect
  out_login =
      send c (resp s c src rand i) ∷ broadcast_tcp (resp s c src rand i) (there s c src rand i)

  abbrev out_move : List Effect
  out_move = broadcast_udp (move_packet (pos i)) (further s c src rand i)

  abbrev out_relay : Packet → List Effect
  out_relay pkt = broadcast_tcp pkt (further s c src rand i)

  abbrev out_logout : List Effect
  out_logout = broadcast_tcp (logout_packet (pos i)) (without s c src rand i)

  abbrev ending : List Event
  ending = end_of c src ∷ []

  abbrev leaving : List Event
  leaving = event_of s c src (send_tcp (logout_packet (pos i))) ∷ ending

  abbrev using : List Event
  using = event_of s c src (send_tcp (item_packet (pos i))) ∷ leaving

  abbrev attacking : List Event
  attacking = event_of s c src (send_tcp (attack_packet (pos i))) ∷ using

  abbrev moving : List Event
  moving = event_of s c src (send_udp (move_packet (pos i))) ∷ attacking

  abbrev last : Server
  last = at (without s c src rand i)

  abbrev out_end : List Effect
  out_end = epoll_del c ∷ close_fd c ∷ []

  abbrev out_leaving : List Effect
  out_leaving = out_logout ++ (out_end ++ [])

  abbrev out_using : List Effect
  out_using = out_relay (item_packet (pos i)) ++ out_leaving

  abbrev out_attacking : List Effect
  out_attacking = out_relay (attack_packet (pos i)) ++ out_using

  visit_run : serve s (visit s c src rand i) ≡ (last, out_login ++ (out_move ++ out_attacking))
  unfolding client
  visit_run =
      let gone_end =
        serve_step last (end_of c src) [] (without s c src rand i) out_end [] last
          (end_turn s c src rand i h t unheld a) (serve_none last) in
      let left =
        serve_step (at (further s c src rand i))
          (event_of s c src (send_tcp (logout_packet (pos i)))) ending (without s c src rand i)
          out_logout (out_end ++ []) last (logout_turn s c src rand i h t unheld a) gone_end in
      let used =
        serve_step (at (further s c src rand i)) (event_of s c src (send_tcp (item_packet (pos i))))
          leaving (further s c src rand i) (out_relay (item_packet (pos i))) out_leaving last
          (relay_turn s c src rand i h t unheld a (item_packet (pos i)) (inr refl)) left in
      let attacked =
        serve_step (at (further s c src rand i))
          (event_of s c src (send_tcp (attack_packet (pos i)))) using (further s c src rand i)
          (out_relay (attack_packet (pos i))) out_using last
          (relay_turn s c src rand i h t unheld a (attack_packet (pos i)) (inl refl)) used in
      let went =
        serve_step (at (there s c src rand i)) (event_of s c src (send_udp (move_packet (pos i))))
          attacking (further s c src rand i) out_move out_attacking last
          (move_turn s c src rand i h t unheld a) attacked in
      serve_step s (event_of s c src (send_tcp (login_packet rand))) moving (there s c src rand i)
        out_login (out_move ++ out_attacking) last (login_turn s c src rand i h t unheld a) went

  inbox :
      packets_to c (out_login ++ (out_move ++ out_attacking))
      ≡ resp s c src rand i ∷ resp s c src rand i ∷ attack_packet (pos i) ∷ item_packet (pos i) ∷ []
  inbox =
      let after = further s c src rand i in
      let one = sessions_further s c src rand i h t unheld a in
      let none_left = sessions_without s c src rand i h t unheld a in
      rw (==ℤ_refl c) (
        ap (◌∷◌ (resp s c src rand i)) (
          packets_to_relayed c (resp s c src rand i) (there s c src rand i) 1
            (out_move ++ out_attacking) h.is_open (sessions_there s c src rand i h t unheld a)
          ∙ ap (◌∷◌ (resp s c src rand i)) (
              packets_to_datagrams c (move_packet (pos i)) after out_attacking
              ∙ packets_to_relayed c (attack_packet (pos i)) after 1 out_using h.is_open one
              ∙ ap (◌∷◌ (attack_packet (pos i))) (
                  packets_to_relayed c (item_packet (pos i)) after 1 out_leaving h.is_open one
                  ∙ ap (◌∷◌ (item_packet (pos i))) (
                      packets_to_relayed c (logout_packet (pos i)) (without s c src rand i) 0
                        (out_end ++ []) h.is_open none_left)))))

  seen :
      view (serve s (take 2 (visit s c src rand i))).0.players i
      ≡ some (record {
        fd = c;
        hp = 100;
        username = strncpy name_size (strncpy name_size (user_name rand));
        x = 1093140480;
        y = 1101162086;
        udp_addr = src;
      })
  unfolding client
  seen =
      ap (λ r. view r.0.players i)
        (serve_step s (event_of s c src (send_tcp (login_packet rand)))
          (event_of s c src (send_udp (move_packet (pos i))) ∷ []) (there s c src rand i) out_login
          (out_move ++ []) (at (further s c src rand i)) (login_turn s c src rand i h t unheld a)
          (serve_step (at (there s c src rand i))
            (event_of s c src (send_udp (move_packet (pos i)))) [] (further s c src rand i) out_move
            [] (at (further s c src rand i)) (move_turn s c src rand i h t unheld a)
            (serve_none (at (further s c src rand i)))))
      ∙ view-modify_at i (moved c (login_packet rand) (move_packet (pos i)) src) s.players a.stood

-- A session of the game client on a fresh connection of a server whose table satisfies IsTable and
-- has the free slot i as its lowest, with no other client's event in between. The connection gets
-- four packets: the login with player_id i, which is what the client takes its identifier from, and
-- behind it the same login, the attack and the item use, which are what its thread shows. Behind
-- the move the lobby has the session i with 100 hp, the client's name, position and address, and at
-- the end the lobby is what it was at the beginning.
pub game_visit :
    (s : Server) (c : ℤ) (src : SockAddr) (rand i : ℕ)
    → IsConnection s.tcp_sock s.udp_sock c
    → IsTable s.players
    → All (λ p. p.tcp_fd ≢ c) s.players
    → Allocated c s.players i
    → (packets_to c (serve s (visit s c src rand i)).1
        ≡ resp s c src rand i
          ∷ resp s c src rand i
          ∷ attack_packet (pos i)
          ∷ item_packet (pos i)
          ∷ [])
      × (recv_loop (map whole (drop 1 (packets_to c (serve s (visit s c src rand i)).1)))
          ≡ resp s c src rand i ∷ attack_packet (pos i) ∷ item_packet (pos i) ∷ [])
      × (view (serve s (take 2 (visit s c src rand i))).0.players i
          ≡ some (record {
            fd = c;
            hp = 100;
            username = strncpy name_size (strncpy name_size (user_name rand));
            x = 1093140480;
            y = 1101162086;
            udp_addr = src;
          }))
      × Same (view s.players) (view (serve s (visit s c src rand i)).0.players)
unfolding recv_loop
game_visit s c src rand i h t unheld a =
    let run = visit_run s c src rand i h t unheld a in
    let got = ap (λ r. packets_to c r.1) run ∙ inbox s c src rand i h t unheld a in
    (
      got,
      ap (λ ps. recv_loop (map whole (drop 1 ps))) got,
      seen s c src rand i h t unheld a,
      λ j. ap (λ r. view r.0.players j) run ∙ without-view s c src rand i h t unheld a j,
    )
