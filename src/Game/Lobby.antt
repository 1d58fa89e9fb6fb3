-- ===== src/Game/Lobby.antt =====
-- The abstract server: who is online, by identifier. A free slot has no session, so the view
-- forgets what an earlier player left in it.
use game_network.Prelude.{
  ℕ, ◌<◌, ◌≡◌, ◌≢◌, true, false, none, some, Option, List, ℤ, pos, le_zero, get_elem?,
  if◌then◌else◌, arith, Option-cases, inl, inr, modify, get_elem?-modify_at, get_elem?-modify_other,
}
use game_network.Game.Types.{Player, Packet, SockAddr, strncpy, name_size, max_players}
use game_network.Game.Server.{Event, Server}

pub record Session : Type 0 where
  pub fd : ℤ
  pub hp : ℕ
  pub username : List ℕ
  pub x : ℕ
  pub y : ℕ
  pub udp_addr : SockAddr

abbrev pub Lobby : Type 0
Lobby = ℕ → Option Session

abbrev pub session_of : Player → Session
session_of p = record {
  fd = p.tcp_fd;
  hp = p.hp;
  username = p.username;
  x = p.x;
  y = p.y;
  udp_addr = p.udp_addr;
}

abbrev pub session : Player → Option Session
session p = if p.is_active then some (session_of p) else none

abbrev pub view : List Player → Lobby
view players i = elim (get_elem? players i) [ none ↦ none | some p ↦ session p ]

-- `w` is `v` with the session at one identifier replaced.
abbrev pub Put : Lobby → ℕ → Option Session → Lobby → Type 0
Put v i o w = (w i ≡ o) × ((j : ℕ) → j ≢ i → w j ≡ v j)

abbrev pub Same : Lobby → Lobby → Type 0
Same v w = (j : ℕ) → w j ≡ v j

-- What a newcomer gets. Its position and UDP address are not settled by the login.
pub record Joined (fd : ℤ) (pkt : Packet) (s : Session) : Type 0 where
  pub connection : s.fd ≡ fd
  pub health : s.hp ≡ 100
  pub name : s.username ≡ strncpy name_size pkt.username

-- What a packet on the client connection `fd` may do to the lobby.
pub data TcpStep (fd : ℤ) (pkt : Packet) (v w : Lobby) : Type 0 where
  join :
      (i : ℕ) (s : Session)
      → pkt.type ≡ pos 1
      → i < max_players
      → v i ≡ none
      → ((j : ℕ) → j < i → v j ≢ none)
      → Joined fd pkt s
      → Put v i (some s) w
      → TcpStep fd pkt v w
  refuse :
      pkt.type ≡ pos 1 → ((i : ℕ) → i < max_players → v i ≢ none) → Same v w → TcpStep fd pkt v w
  leave :
      (i : ℕ)
      → pkt.type ≡ pos 2
      → pkt.player_id ≡ pos i
      → i < max_players
      → Put v i none w
      → TcpStep fd pkt v w
  bad_leave :
      pkt.type ≡ pos 2
      → ((i : ℕ) → i < max_players → pkt.player_id ≢ pos i)
      → Same v w
      → TcpStep fd pkt v w
  other : pkt.type ≢ pos 1 → pkt.type ≢ pos 2 → Same v w → TcpStep fd pkt v w

-- What a datagram does.
pub data UdpStep (pkt : Packet) (src : SockAddr) (v w : Lobby) : Type 0 where
  move :
      (i : ℕ) (s : Session)
      → pkt.player_id ≡ pos i
      → i < max_players
      → v i ≡ some s
      → Put v i (some (record s { x = pkt.x; y = pkt.y; udp_addr = src })) w
      → UdpStep pkt src v w
  stray :
      ((i : ℕ) → i < max_players → pkt.player_id ≡ pos i → v i ≡ none)
      → Same v w
      → UdpStep pkt src v w

-- What the end of the connection `fd` does: the first session on it ends.
pub data EndStep (fd : ℤ) (v w : Lobby) : Type 0 where
  drop :
      (i : ℕ) (s : Session)
      → v i ≡ some s
      → s.fd ≡ fd
      → ((j : ℕ) (t : Session) → j < i → v j ≡ some t → t.fd ≢ fd)
      → Put v i none w
      → EndStep fd v w
  unknown : ((j : ℕ) (t : Session) → v j ≡ some t → t.fd ≢ fd) → Same v w → EndStep fd v w

-- One event of the loop.
pub data Step (s : Server) (e : Event) (v w : Lobby) : Type 0 where
  accepts : e.fd ≡ s.tcp_sock → Same v w → Step s e v w
  datagram : e.fd ≢ s.tcp_sock → e.fd ≡ s.udp_sock → UdpStep e.pkt e.src v w → Step s e v w
  ends :
      e.fd ≢ s.tcp_sock → e.fd ≢ s.udp_sock → le_zero e.len ≡ true → EndStep e.fd v w → Step s e v w
  packet :
      e.fd ≢ s.tcp_sock
      → e.fd ≢ s.udp_sock
      → le_zero e.len ≡ false
      → TcpStep e.fd e.pkt v w
      → Step s e v w

pub view-modify_at :
    (i : ℕ) (f : Player → Player) (players : List Player) {p : Player}
    → get_elem? players i ≡ some p
    → view (modify i f players) i ≡ session (f p)
view-modify_at i f players e = rw (get_elem?-modify_at i f players e, view)

pub view-modify_other :
    (i j : ℕ) (f : Player → Player) (players : List Player)
    → j ≢ i
    → view (modify i f players) j ≡ view players j
view-modify_other i j f players h = rw (get_elem?-modify_other i j f players h, view)

-- A session in the lobby is an active slot of the table.
pub view_session :
    (players : List Player) (i : ℕ) {s : Session}
    → view players i ≡ some s
    → (p : Player) × (get_elem? players i ≡ some p) × (p.is_active ≡ true) × (p.tcp_fd ≡ s.fd)
view_session players i e = elim (Option-cases (get_elem? players i)) [
  | inl n ↦ absurd (ground arith)
  | inr (p, q) ↦ (p, q, ground arith, ground arith)
]

pub view_free :
    (players : List Player) (i : ℕ) {p : Player}
    → get_elem? players i ≡ some p
    → p.is_active ≡ false
    → view players i ≡ none
view_free players i e f = rw (e, view) (rw f)

pub view_active :
    (players : List Player) (i : ℕ) {p : Player}
    → get_elem? players i ≡ some p
    → p.is_active ≡ true
    → view players i ≡ some (session_of p)
view_active players i e f = rw (e, view) (rw f)
