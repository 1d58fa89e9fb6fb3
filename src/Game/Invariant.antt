-- ===== src/Game/Invariant.antt =====
-- The well-formed tables, kept by every handler and by every turn of the event loop.
use game_network.Prelude.{
  ℕ, ◌≡◌, Bool-cases, inl, inr, ◌∙◌, refl, ◌≢◌, inl, inr, true, false, List, [], ◌∷◌, ℤ, pos,
  negsuc, minus_one, All, All-modify, All-replicate, length, modify, length-modify,
  length-replicate, Option-cases,
}
use game_network.Game.Types.{Player, Packet, SockAddr, max_players, name_size, length-strncpy}
use game_network.Game.Table.{alloc_player, free_player, activate, deactivate}
use game_network.Game.Handlers.{
  on_tcp, on_udp, login_as, logout, rename, move_to, active_slot, slot,
}
use game_network.Game.Server.{Event, Server, start, blank, turn, serve}
use game_network.Game.Cases.{on_tcp_cases, serve_client_cases, turn_cases}
use game_network.Game.Alloc.{alloc_player_cases, free_player_cases}

-- A slot is active exactly when it has a connection, and its name fills the array.
pub record IsSlot (p : Player) : Type 0 where
  pub online : p.is_active ≡ true → p.tcp_fd ≢ minus_one
  pub offline : p.is_active ≡ false → p.tcp_fd ≡ minus_one
  pub named : length p.username ≡ name_size

-- A slot with a connection is active.
pub IsSlot-active : {p : Player} → IsSlot p → p.tcp_fd ≢ minus_one → p.is_active ≡ true
IsSlot-active {p} s open_fd = elim (Bool-cases p.is_active) [
  | inl on ↦ on
  | inr off ↦ absurd (open_fd (s.offline off))
]

pub record IsTable (players : List Player) : Type 0 where
  pub full : length players ≡ max_players
  pub slots : All IsSlot players

modify-IsTable :
    (i : ℕ) (f : Player → Player) (players : List Player)
    → ((p : Player) → IsSlot p → IsSlot (f p))
    → IsTable players
    → IsTable (modify i f players)
modify-IsTable i f players k t = record {
  full = length-modify i f players ∙ t.full;
  slots = All-modify IsSlot i f players (λ p _ h. k p h) t.slots;
}

activate-IsSlot : (fd : ℤ) → fd ≢ minus_one → (p : Player) → IsSlot p → IsSlot (activate fd p)
activate-IsSlot fd open_fd p s = record {
  online = λ e. open_fd;
  offline = λ e. cc;
  named = s.named;
}

deactivate-IsSlot : (p : Player) → IsSlot p → IsSlot (deactivate p)
deactivate-IsSlot p s = record { online = λ e. cc; offline = λ e. refl; named = s.named }

rename-IsSlot : (name : List ℕ) (p : Player) → IsSlot p → IsSlot (rename name p)
rename-IsSlot name p s = record {
  online = s.online;
  offline = s.offline;
  named = length-strncpy name_size name;
}

move_to-IsSlot :
    (pkt : Packet) (src : SockAddr) (p : Player) → IsSlot p → IsSlot (move_to pkt src p)
move_to-IsSlot pkt src p s = record { online = s.online; offline = s.offline; named = s.named }

pub alloc_player-IsTable :
    (fd : ℤ) (players : List Player)
    → fd ≢ minus_one
    → IsTable players
    → IsTable (alloc_player fd players).0
alloc_player-IsTable fd players open_fd t = elim (alloc_player_cases fd players) [
  | inl (e, _) ↦ rw e t
  | inr (i, a) ↦ rw a.result (modify-IsTable i (activate fd) players (activate-IsSlot fd open_fd) t)
]

pub free_player-IsTable :
    (fd : ℤ) (players : List Player) → IsTable players → IsTable (free_player fd players)
free_player-IsTable fd players t = elim (free_player_cases fd players) [
  | inl (e, _) ↦ rw e t
  | inr (i, e, _) ↦ rw e (modify-IsTable i deactivate players deactivate-IsSlot t)
]

login_as-IsTable :
    (r : List Player × ℤ) (pkt : Packet) (fd : ℤ) → IsTable r.0 → IsTable (login_as r pkt fd).0
unfolding login_as
login_as-IsTable (players, negsuc n) pkt fd t = t
login_as-IsTable (players, pos i) pkt fd t =
    modify-IsTable i (rename pkt.username) players (rename-IsSlot pkt.username) t

logout-IsTable :
    (pkt : Packet) (players : List Player) → IsTable players → IsTable (logout pkt players).0
unfolding logout
logout-IsTable pkt players t = elim (Option-cases (slot pkt.player_id)) [
  | inl e ↦ rw (e, logout) t
  | inr (i, e) ↦ rw (e, logout) (modify-IsTable i deactivate players deactivate-IsSlot t)
]

-- A packet on a client's connection leaves a well-formed table well-formed, whatever it holds.
pub on_tcp-IsTable :
    (pkt : Packet) (fd : ℤ) (players : List Player)
    → fd ≢ minus_one
    → IsTable players
    → IsTable (on_tcp pkt fd players).0
on_tcp-IsTable pkt fd players open_fd t =
    on_tcp_cases (λ r. IsTable r.0) pkt fd players
      (λ _.
        login_as-IsTable (alloc_player fd players) pkt fd
          (alloc_player-IsTable fd players open_fd t))
      (λ _. logout-IsTable pkt players t) (λ _. t) (λ _ _. t)

pub on_udp-IsTable :
    (pkt : Packet) (src : SockAddr) (players : List Player)
    → IsTable players
    → IsTable (on_udp pkt src players).0
unfolding on_udp
on_udp-IsTable pkt src players t = elim (Option-cases (active_slot pkt.player_id players)) [
  | inl e ↦ rw (e, on_udp) t
  | inr (i, e) ↦
      rw (e, on_udp) (modify-IsTable i (move_to pkt src) players (move_to-IsSlot pkt src) t)
]

-- `epoll_wait` reports open descriptors only.
abbrev pub IsReady : Event → Type 0
IsReady e = e.fd ≢ minus_one

pub turn-IsTable : (s : Server) (e : Event) → IsReady e → IsTable s.players → IsTable (turn s e).0
turn-IsTable s e ready t =
    turn_cases (λ r. IsTable r.0) s e (λ _. t) (λ _ _. on_udp-IsTable e.pkt e.src s.players t)
      λ _ _.
        serve_client_cases (λ r. IsTable r.0) e s.players
          (λ _. free_player-IsTable e.fd s.players t)
          (λ _. on_tcp-IsTable e.pkt e.fd s.players ready t)

pub serve-IsTable :
    (s : Server) (es : List Event)
    → All IsReady es
    → IsTable s.players
    → IsTable (serve s es).0.players
unfolding serve
serve-IsTable s [] ready t = t
serve-IsTable s (e ∷ es) ready t =
    serve-IsTable (record s { players = (turn s e).0 }) es ready.1 (turn-IsTable s e ready.0 t)

pub start-IsTable : (tcp_sock udp_sock : ℤ) → IsTable (start tcp_sock udp_sock).players
unfolding start
start-IsTable tcp_sock udp_sock = record {
  full = length-replicate max_players blank;
  slots =
      All-replicate IsSlot max_players blank
        (record { online = λ e. cc; offline = λ e. refl; named = refl });
}

-- From the start of main, after any events on descriptors other than -1, the table has 1000 slots,
-- a slot is active exactly when its descriptor is not -1, and each name fills its 32 bytes.
pub serve-start-IsTable :
    (tcp_sock udp_sock : ℤ) (es : List Event)
    → All IsReady es
    → IsTable (serve (start tcp_sock udp_sock) es).0.players
serve-start-IsTable tcp_sock udp_sock es ready =
    serve-IsTable _ es ready (start-IsTable tcp_sock udp_sock)
