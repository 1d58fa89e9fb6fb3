-- ===== src/Game/Types.antt =====
-- week13/lserver.c, lines 7 to 29: the player table and the packets, and what a handler does to
-- the outside. A `float` is its bit pattern: the server copies coordinates and computes nothing
-- with them. A `char` array is the list of its bytes.
use game_network.Prelude.{
  ℕ, zero, suc, ◌≡◌, refl, ◌==◌, if◌then◌else◌, Bool, List, [], ◌∷◌, arith, ℤ, length, replicate,
  length-replicate,
}

abbrev pub max_players : ℕ
max_players = 1000

abbrev pub name_size : ℕ
name_size = 32

abbrev pub af_inet : ℕ
af_inet = 2

-- `struct sockaddr_in`
pub record SockAddr : Type 0 where
  pub sin_family : ℕ
  pub sin_addr : ℕ
  pub sin_port : ℕ

pub record Player : Type 0 where
  pub x : ℕ
  pub y : ℕ
  pub hp : ℕ
  pub is_active : Bool
  pub tcp_fd : ℤ
  pub udp_addr : SockAddr
  pub username : List ℕ

pub record Packet : Type 0 where
  pub type : ℤ
  pub player_id : ℤ
  pub x : ℕ
  pub y : ℕ
  pub target_id : ℤ
  pub username : List ℕ
  pub password : List ℕ

-- The system calls whose effect is outside the process.
pub data Effect : Type 0 where
  send : ℤ → Packet → Effect
  sendto : SockAddr → Packet → Effect
  epoll_add epoll_del close_fd : ℤ → Effect

-- `strncpy(dst, src, n)`: at most `n` bytes, up to the NUL of the source, and NULs behind it. A
-- source of `n` bytes without a NUL leaves the copy without one.
unfoldable pub strncpy : ℕ → List ℕ → List ℕ
strncpy zero src = []
strncpy (suc n) [] = replicate (suc n) 0
strncpy (suc n) (c ∷ cs) = if c == 0 then replicate (suc n) 0 else c ∷ strncpy n cs

pub length-strncpy : (n : ℕ) (src : List ℕ) → length (strncpy n src) ≡ n
unfolding strncpy
length-strncpy zero src = refl
length-strncpy (suc n) [] = length-replicate (suc n) 0
length-strncpy (suc n) (c ∷ cs) = ground (arith, length-strncpy n cs, length-replicate {A = ℕ} n 0)
