-- ===== src/Windows/Types.antt =====
-- week13/wserver.c, lines 9 to 49: the player table and the contexts of the receives that are under
-- way. Packets and addresses are those of lserver.c, field by field. A SOCKET is an unsigned
-- number.
use game_network.Prelude.{ℕ, Bool, List, ℤ}
use game_network.Game.Types.{Packet, SockAddr}

-- `INVALID_SOCKET`, which is `~0` in 64 bits.
abbrev pub invalid_socket : ℕ
invalid_socket = 18446744073709551615

pub record Player : Type 0 where
  pub x : ℕ
  pub y : ℕ
  pub hp : ℕ
  pub is_active : Bool
  pub tcp_sock : ℕ
  pub udp_addr : SockAddr
  pub username : List ℕ

-- `OP_TCP_RECV`, `OP_UDP_RECV`
pub data Op : Type 0 where
  tcp_recv udp_recv : Op

-- The buffer and the address of a context hold what the receive has filled in, and are arguments of
-- the round that takes its completion.
pub record IoContext : Type 0 where
  pub op_type : Op
  pub socket : ℕ
  pub player_id : ℤ

-- The calls whose effect is outside the process.
pub data Call : Type 0 where
  send : ℕ → Packet → Call
  sendto : SockAddr → Packet → Call
  closesocket : ℕ → Call
