-- ===== src/Game/VisitTests.antt =====
-- A client at a server that has just started, and one at a full server.
use game_network.Game.Persist.{session_persists, IsForeign}
use game_network.Game.Lobby.{view, Same, Session, session_of}
use game_network.Game.Full.{game_full}
use game_network.Game.Client.{
  client, attack_packet, item_packet, recv_loop, user_name, send_tcp, login_packet, send_udp,
  move_packet,
}
use game_network.Game.Play.{resp}
use game_network.Game.Whole.{visit, whole, game_visit}
use game_network.Game.Alloc.{Allocated}
use game_network.Game.Invariant.{IsTable, start-IsTable, alloc_player-IsTable}
use game_network.Game.Inbox.{packets_to}
use game_network.Game.Table.{alloc_player, activate}
use game_network.Game.Visit.{IsConnection, event_of, end_of}
use game_network.Game.Server.{Server, start, serve, blank, Event}
use game_network.Prelude.{
  ◌≡◌, ◌≢◌, refl, true, some, none, [], ◌∷◌, arith, pos, replicate, All-replicate, map, drop, take,
  first_index, modify, List, All,
}
use game_network.Game.Types.{SockAddr, max_players, strncpy, name_size}

abbrev pub client_addr : SockAddr
client_addr = record { sin_family = 2; sin_addr = 0x0100007f; sin_port = 40001 }

abbrev pub new_server : Server
new_server = record { tcp_sock = pos 3; udp_sock = pos 4; players = replicate max_players blank }

pub new_server-IsTable : IsTable new_server.players
unfolding start
new_server-IsTable = start-IsTable (pos 3) (pos 4)

pub connection : IsConnection (pos 3) (pos 4) (pos 7)
connection = record {
  is_open = λ e. cc;
  not_tcp = λ e. ground (arith, e);
  not_udp = λ e. ground (arith, e);
  udp_tcp = λ e. ground (arith, e);
}

pub first_free : Allocated (pos 7) new_server.players 0
unfolding alloc_player first_index
first_free = record {
  old = blank;
  stood = refl;
  was_free = refl;
  lowest = λ j p h e. absurd (omega (arith, h));
  result = refl;
}

game_visit_example :
    (packets_to (pos 7) (serve new_server (visit new_server (pos 7) client_addr 12345 0)).1
      ≡ resp new_server (pos 7) client_addr 12345 0
        ∷ resp new_server (pos 7) client_addr 12345 0
        ∷ attack_packet (pos 0)
        ∷ item_packet (pos 0)
        ∷ [])
    × (recv_loop (
          map whole (
            drop 1 (
              packets_to
                (pos 7)
                (serve new_server (visit new_server (pos 7) client_addr 12345 0)).1)))
        ≡ resp new_server (pos 7) client_addr 12345 0
          ∷ attack_packet (pos 0)
          ∷ item_packet (pos 0)
          ∷ [])
    × (view (serve new_server (take 2 (visit new_server (pos 7) client_addr 12345 0))).0.players 0
        ≡ some (record {
          fd = pos 7;
          hp = 100;
          username = strncpy name_size (strncpy name_size (user_name 12345));
          x = 1093140480;
          y = 1101162086;
          udp_addr = client_addr;
        }))
    × Same
        (view new_server.players)
        (view (serve new_server (visit new_server (pos 7) client_addr 12345 0)).0.players)
game_visit_example =
    game_visit new_server (pos 7) client_addr 12345 0 connection new_server-IsTable
      (All-replicate (λ p. p.tcp_fd ≢ pos 7) max_players blank (λ e. cc)) first_free

abbrev full_server : Server
full_server = record {
  tcp_sock = pos 3;
  udp_sock = pos 4;
  players = replicate max_players (activate (pos 6) blank);
}

game_full_example :
    serve full_server (map (event_of full_server (pos 7) client_addr) (client 12345 none))
    ≡ (full_server, [])
game_full_example =
    game_full full_server (pos 7) client_addr 12345 connection
      (All-replicate (λ p. p.is_active ≡ true) max_players (activate (pos 6) blank) refl)

-- A player on connection 6, and others who come, attack and go.
abbrev played_server : Server
played_server = record {
  tcp_sock = pos 3;
  udp_sock = pos 4;
  players = modify 0 (activate (pos 6)) new_server.players;
}

played_server-IsTable : IsTable played_server.players
unfolding alloc_player first_index
played_server-IsTable = alloc_player-IsTable (pos 6) new_server.players (λ e. cc) new_server-IsTable

abbrev other_events : List Event
other_events =
    event_of played_server (pos 7) client_addr (send_tcp (login_packet 12345))
    ∷ event_of played_server (pos 7) client_addr (send_udp (move_packet (pos 1)))
    ∷ event_of played_server (pos 7) client_addr (send_tcp (attack_packet (pos 0)))
    ∷ end_of (pos 7) client_addr
    ∷ []

abbrev player : Session
player = session_of (activate (pos 6) blank)

other_events-IsForeign : All (IsForeign (pos 4) (pos 6) 0) other_events
other_events-IsForeign = (
  record {
    ready = λ e. cc;
    elsewhere = λ e. ground (arith, e);
    no_move = λ e q. ground (arith, e);
    no_logout = λ e q. ground (arith, e);
  },
  (
    record {
      ready = λ e. cc;
      elsewhere = λ e. ground (arith, e);
      no_move = λ e q. ground (arith, q);
      no_logout = λ e q. ground (arith, e);
    },
    (
      record {
        ready = λ e. cc;
        elsewhere = λ e. ground (arith, e);
        no_move = λ e q. ground (arith, e);
        no_logout = λ e q. ground (arith, e);
      },
      (
        record {
          ready = λ e. cc;
          elsewhere = λ e. ground (arith, e);
          no_move = λ e q. ground (arith, e);
          no_logout = λ e q. ground (arith, e);
        },
        tt,
      ),
    ),
  ),
)

session_persists_example : view (serve played_server other_events).0.players 0 ≡ some player
session_persists_example =
    session_persists played_server other_events 0 player played_server-IsTable refl
      other_events-IsForeign
