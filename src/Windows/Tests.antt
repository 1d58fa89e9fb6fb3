-- ===== src/Windows/Tests.antt =====
-- A login on the Windows build, and the theorem on its rounds applied to it.
use mathlib.Core.Logic.Or
use game_network.Prelude.{[], ◌∷◌, replicate, pos}
use game_network.Game.Types.{Packet}
use game_network.Windows.Types.{IoContext, tcp_recv}
use game_network.Windows.Worker.{Server, Completion, start, worker_round, accept_client}
use game_network.Windows.View.{fd_of}
use game_network.Windows.Rounds.{Apart}

abbrev login : Packet
login = record {
  type = pos 1;
  player_id = pos 0;
  x = 0;
  y = 0;
  target_id = pos 0;
  username = replicate 32 65;
  password = replicate 32 66;
}

-- The receive of the first connection completes with a whole packet.
abbrev login_done : Completion
login_done = record {
  index = 0;
  bytes = 84;
  pkt = login;
  src = record { sin_family = 0; sin_addr = 0; sin_port = 0 };
}

abbrev connected : IoContext
connected = record { op_type = tcp_recv; socket = 7; player_id = pos 0 }

abbrev server : Server
server = record { players = start.players; pending = connected ∷ [] }

apart : Apart (pos 3) (pos 4) (fd_of 7)
apart = record { two = λ e. cc; not_tcp = λ e. cc; not_udp = λ e. cc }

abbrev after_login : Server
after_login = (worker_round login_done (accept_client 8 (accept_client 7 start))).0
