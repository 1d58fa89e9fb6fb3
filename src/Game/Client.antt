-- ===== src/Game/Client.antt =====
-- week13/client.c, lines 27 to 99: the packets of the client's session, and what it shows of those
-- that come. A `float` is its bit pattern.
use game_network.Prelude.{
  ℕ, ◌%◌, if◌then◌else◌, Option, none, some, List, [], ◌∷◌, ◌++◌, ℤ, pos, le_zero, codes,
  print_decimal, replicate,
}
use game_network.Game.Types.{Packet, strncpy, name_size}

-- Lines 93 to 99: a packet on the connection, and one as a datagram.
pub data Sent : Type 0 where
  send_tcp send_udp : Packet → Sent

-- `{0}`: the fields that an initializer does not name.
abbrev pub no_packet : Packet
no_packet = record {
  type = pos 0;
  player_id = pos 0;
  x = 0;
  y = 0;
  target_id = pos 0;
  username = replicate name_size 0;
  password = replicate name_size 0;
}

-- `snprintf(username, sizeof(username), "user%d", rand() % 10000)`
abbrev pub user_name : ℕ → List ℕ
user_name rand = codes "user" ++ print_decimal (rand % 10000)

abbrev pub login_packet : ℕ → Packet
login_packet rand = record no_packet {
  type = pos 1;
  username = strncpy name_size (user_name rand);
  password = strncpy name_size (codes "1234");
}

-- 10.5f and 20.3f.
abbrev pub move_packet : ℤ → Packet
move_packet my_id = record no_packet {
  type = pos 3;
  player_id = my_id;
  x = 1093140480;
  y = 1101162086;
}

abbrev pub attack_packet : ℤ → Packet
attack_packet my_id = record no_packet { type = pos 4; player_id = my_id; target_id = pos 1 }

abbrev pub item_packet : ℤ → Packet
item_packet my_id = record no_packet { type = pos 5; player_id = my_id }

abbrev pub logout_packet : ℤ → Packet
logout_packet my_id = record no_packet { type = pos 2; player_id = my_id }

-- `main`, with what `rand` returns and what the first `recv` leaves in `resp`: nothing, as long as
-- it has not returned.
unfoldable pub client : ℕ → Option Packet → List Sent
client rand none = send_tcp (login_packet rand) ∷ []
client rand (some resp) =
    let my_id = resp.player_id in
    send_tcp (login_packet rand)
    ∷ send_udp (move_packet my_id)
    ∷ send_tcp (attack_packet my_id)
    ∷ send_tcp (item_packet my_id)
    ∷ send_tcp (logout_packet my_id)
    ∷ []

-- What a `recv` of the thread returns, with the packet that it leaves.
pub record Received : Type 0 where
  pub len : ℤ
  pub pkt : Packet

-- The packets that the thread prints.
unfoldable pub recv_loop : List Received → List Packet
recv_loop [] = []
recv_loop (r ∷ rs) = let more = recv_loop rs in if le_zero r.len then [] else r.pkt ∷ more
