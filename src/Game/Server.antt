-- ===== src/Game/Server.antt =====
-- week13/lserver.c, lines 38 to 95: `main`. What the kernel answers is an argument of each turn:
-- the ready descriptor, the results of `accept` and `recv`, and the content of the local packet
-- and address after the call, whatever part of them the call has filled.
use game_network.Prelude.{
  if◌then◌else◌, false, List, [], ◌∷◌, ◌++◌, ℤ, minus_one, ◌==ℤ◌, le_zero, replicate,
}
use game_network.Game.Types.{
  Player, Packet, SockAddr, Effect, epoll_add, epoll_del, close_fd, max_players,
}
use game_network.Game.Table.{free_player}
use game_network.Game.Handlers.{on_tcp, on_udp}

pub record Event : Type 0 where
  pub fd : ℤ  -- events[i].data.fd
  pub cfd : ℤ  -- result of accept
  pub len : ℤ  -- result of recv
  pub pkt : Packet
  pub src : SockAddr

-- The descriptors that `main` opens, and the table.
pub record Server : Type 0 where
  pub tcp_sock : ℤ
  pub udp_sock : ℤ
  pub players : List Player

-- A static `Player` after the loop at the head of `main`.
abbrev pub blank : Player
blank = record {
  x = 0;
  y = 0;
  hp = 0;
  is_active = false;
  tcp_fd = minus_one;
  udp_addr = record { sin_family = 0; sin_addr = 0; sin_port = 0 };
  username = replicate 32 0;
}

unfoldable pub start : ℤ → ℤ → Server
start tcp_sock udp_sock = record {
  tcp_sock = tcp_sock;
  udp_sock = udp_sock;
  players = replicate max_players blank;
}

-- The `else` of the loop body: data, or the end of a connection.
unfoldable pub serve_client : Event → List Player → List Player × List Effect
serve_client e players =
    if le_zero e.len
    then (free_player e.fd players, epoll_del e.fd ∷ close_fd e.fd ∷ [])
    else on_tcp e.pkt e.fd players

-- One turn of the inner loop.
unfoldable pub turn : Server → Event → List Player × List Effect
turn s e =
    if e.fd ==ℤ s.tcp_sock
    then (s.players, epoll_add e.cfd ∷ [])
    else if e.fd ==ℤ s.udp_sock
    then on_udp e.pkt e.src s.players
    else serve_client e s.players

-- The loops of `main` over the events that `epoll_wait` returns, one batch after another.
unfoldable pub serve : Server → List Event → Server × List Effect
serve s [] = (s, [])
serve s (e ∷ es) =
    let (players, out) = turn s e in
    let (last, more) = serve (record s { players = players }) es in (last, out ++ more)
