-- ===== src/Game/Persist.antt =====
-- What the events of others do to a session of the game server of week13/lserver.c.
use game_network.Game.Refines.{turn-Step}
use game_network.Game.Invariant.{IsReady, IsTable, turn-IsTable}
use game_network.Game.Server.{Event, Server, serve, turn}
use game_network.Prelude.{
  ℕ, ◌≡◌, ◌≢◌, sym, ap, ◌∙◌, none, some, some_same, List, [], ◌∷◌, ℤ, pos, All,
}
use game_network.Game.Lobby.{
  Session, Lobby, UdpStep, EndStep, TcpStep, Step, move, drop, join, accepts, view, stray, unknown,
  refuse, datagram, leave, ends, bad_leave, packet, other,
}

-- An event that neither comes from the connection `c` nor names the identifier `i` in a datagram or
-- a logout.
pub record IsForeign (udp_sock c : ℤ) (i : ℕ) (e : Event) : Type 0 where
  pub ready : IsReady e
  pub elsewhere : e.fd ≢ c
  pub no_move : e.fd ≡ udp_sock → e.pkt.player_id ≢ pos i
  pub no_logout : e.pkt.type ≡ pos 2 → e.pkt.player_id ≢ pos i

module _ (s : Server) (e : Event) (i : ℕ) (x : Session) (h : IsForeign s.udp_sock x.fd i e) where
  udp_persists :
      (v w : Lobby) → e.fd ≡ s.udp_sock → v i ≡ some x → UdpStep e.pkt e.src v w → w i ≡ some x
  udp_persists v w u at (move j y pid small found put) =
      put.1 i (λ q. h.no_move u (pid ∙ ap pos (sym q))) ∙ at
  udp_persists v w u at (stray free same) = same i ∙ at

  end_persists : (v w : Lobby) → v i ≡ some x → EndStep e.fd v w → w i ≡ some x
  end_persists v w at (drop j y found on first put) =
      put.1 i (λ q.
        let same : some y ≡ some x = sym found ∙ ap v (sym q) ∙ at in
        h.elsewhere (sym on ∙ ap (λ z. z.fd) (some_same same)))
      ∙ at
  end_persists v w at (unknown none_there same) = same i ∙ at

  tcp_persists : (v w : Lobby) → v i ≡ some x → TcpStep e.fd e.pkt v w → w i ≡ some x
  tcp_persists v w at (join j y type small free first joined put) =
      put.1 i (λ q. let gone : some x ≡ none = sym at ∙ ap v q ∙ free in cc) ∙ at
  tcp_persists v w at (refuse type full same) = same i ∙ at
  tcp_persists v w at (leave j type pid small put) =
      put.1 i (λ q. h.no_logout type (pid ∙ ap pos (sym q))) ∙ at
  tcp_persists v w at (bad_leave type bad same) = same i ∙ at
  tcp_persists v w at (other not_login not_logout same) = same i ∙ at

  step_persists : (v w : Lobby) → v i ≡ some x → Step s e v w → w i ≡ some x
  step_persists v w at (accepts own same) = same i ∙ at
  step_persists v w at (datagram foreign u step) = udp_persists v w u at step
  step_persists v w at (ends not_own not_udp over step) = end_persists v w at step
  step_persists v w at (packet not_own not_udp got step) = tcp_persists v w at step

-- On a table that satisfies IsTable, a session i on a connection is what it was, with its hp, name,
-- position and address, after any events that neither come from that connection or the descriptor
-- -1 nor are a datagram or a logout with player_id i: logins, ends of connections, attacks and the
-- moves and logouts of others do not touch it.
pub session_persists :
    (s : Server) (es : List Event) (i : ℕ) (x : Session)
    → IsTable s.players
    → view s.players i ≡ some x
    → All (IsForeign s.udp_sock x.fd i) es
    → view (serve s es).0.players i ≡ some x
unfolding serve
session_persists s [] i x t at h = at
session_persists s (e ∷ es) i x t at h =
    session_persists (record s { players = (turn s e).0 }) es i x (turn-IsTable s e h.0.ready t)
      (step_persists s e i x h.0 (view s.players) (view (turn s e).0) at
        (turn-Step s e h.0.ready t))
      h.1
