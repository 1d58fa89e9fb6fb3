-- ===== src/Game/AmongTests.antt =====
-- A client whose session another client's events run through.
use game_network.Game.Types.{strncpy, name_size}
use game_network.Game.Among.{stay, visit_among}
use game_network.Game.Client.{
  send_tcp, send_udp, login_packet, move_packet, user_name, logout_packet,
}
use game_network.Game.Visit.{event_of, end_of}
use game_network.Game.Lobby.{view}
use game_network.Game.Server.{Event, serve}
use game_network.Game.Persist.{IsForeign}
use game_network.Prelude.{◌≡◌, some, none, List, [], ◌∷◌, ◌++◌, arith, pos}
use game_network.Game.VisitTests.{
  new_server, new_server-IsTable, connection, first_free, client_addr,
}

login_of_eight :
    IsForeign
      (pos 4)
      (pos 7)
      0
      (event_of new_server (pos 8) client_addr (send_tcp (login_packet 7)))
login_of_eight = record {
  ready = λ e. cc;
  elsewhere = λ e. ground (arith, e);
  no_move = λ e q. ground (arith, e);
  no_logout = λ e q. ground (arith, e);
}

move_of_eight :
    IsForeign
      (pos 4)
      (pos 7)
      0
      (event_of new_server (pos 8) client_addr (send_udp (move_packet (pos 1))))
move_of_eight = record {
  ready = λ e. cc;
  elsewhere = λ e. ground (arith, e);
  no_move = λ e q. ground (arith, q);
  no_logout = λ e q. ground (arith, e);
}

end_of_eight : IsForeign (pos 4) (pos 7) 0 (end_of (pos 8) client_addr)
end_of_eight = record {
  ready = λ e. cc;
  elsewhere = λ e. ground (arith, e);
  no_move = λ e q. ground (arith, e);
  no_logout = λ e q. ground (arith, e);
}

abbrev first : List Event
first = event_of new_server (pos 8) client_addr (send_tcp (login_packet 7)) ∷ []

abbrev second : List Event
second = event_of new_server (pos 8) client_addr (send_udp (move_packet (pos 1))) ∷ []

abbrev third : List Event
third = end_of (pos 8) client_addr ∷ []

visit_among_example :
    (view
        (serve new_server
          (stay new_server (pos 7) client_addr 12345 0 first second third [])).0.players
        0
      ≡ some (record {
        fd = pos 7;
        hp = 100;
        username = strncpy name_size (strncpy name_size (user_name 12345));
        x = 1093140480;
        y = 1101162086;
        udp_addr = client_addr;
      }))
    × (view
          (serve new_server (
            stay new_server (pos 7) client_addr 12345 0 first second third []
            ++ (event_of new_server (pos 7) client_addr (send_tcp (logout_packet (pos 0)))
                ∷ []))).0.players
          0
        ≡ none)
visit_among_example =
    visit_among new_server (pos 7) client_addr 12345 0 first second third [] connection (λ e. cc)
      new_server-IsTable first_free (login_of_eight, tt) (move_of_eight, tt) (end_of_eight, tt) tt
