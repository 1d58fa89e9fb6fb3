-- ===== src/Sockets/InOrder.antt =====
-- The programs that look at no result: each run is in order until a call fails.
use game_network.Prelude.{ℕ, Bool, false, List, ◌∷◌, pos, refl}
use game_network.Sockets.Calls.{stream, poll, talk, close, ret, make_call, ◌>>◌}
use game_network.Sockets.Monitor.{
  at_start, is_poll, talks, made, listening, joined, lookup, is_open,
}
use game_network.Sockets.Rules.{Safe}
use game_network.Sockets.Heads.{
  opens, binds, listens_on, accepts, connects, closes, at_stage, holds-head, is_open-head,
}
use game_network.Sockets.Orderly.{
  orderly, quiet, stays, ends, is_open-later, holds-later, creates_poll, adds, talks_with,
  closes_one,
}
use game_network.Sockets.Streams.{echo_server_main, echo_client_main}
use game_network.Sockets.Polling.{
  epoll_server_setup, epoll_client_main, select_client_main, practice_select_client_main,
}

pub echo_server_main-Safe : Safe orderly at_start false echo_server_main
unfolding echo_server_main
echo_server_main-Safe = opens orderly make_call quiet _ stream λ s e.
    binds orderly make_call quiet _ stream _ refl λ n. listens_on orderly make_call quiet _ 5 λ m.
      accepts orderly make_call quiet _ λ c.
        let o = at_stage (pos c) stream joined in
        let p = at_stage (pos s) stream listening in
        talks_with _ (pos c) (holds-head talks o _ refl)
          λ r f. closes orderly o λ q. closes orderly p λ t. ends _ _ 0

-- A connected socket: the conversation, and the end.
talk_close :
    (fails : Bool) (s : ℕ)
    → Safe orderly
        (at_stage (pos s) stream joined ∷ at_start)
        fails
        (make_call (talk (pos s)) >> (make_call (close (pos s)) >> ret 0))
talk_close fails s =
    let o = at_stage (pos s) stream joined in
    talks_with _ (pos s) (holds-head talks o _ refl) λ r f. closes orderly o λ q. ends _ _ 0

pub echo_client_main-Safe : Safe orderly at_start false echo_client_main
unfolding echo_client_main
echo_client_main-Safe =
    opens orderly make_call quiet _ stream
      λ s e. connects orderly make_call quiet _ _ λ n. talk_close _ s

pub select_client_main-Safe : Safe orderly at_start false select_client_main
unfolding select_client_main
select_client_main-Safe =
    opens orderly make_call quiet _ stream
      λ s e. connects orderly make_call quiet _ _ λ n. talk_close _ s

pub practice_select_client_main-Safe :
    (address : List ℕ) → Safe orderly at_start false (practice_select_client_main address)
unfolding practice_select_client_main
practice_select_client_main-Safe address = opens orderly make_call quiet _ stream λ s e.
    connects orderly make_call quiet _ _ λ n.
      talks_with _ (pos s) (holds-head talks (at_stage (pos s) stream joined) _ refl)
        λ r f. stays _ _

pub epoll_server_setup-Safe : Safe orderly at_start false epoll_server_setup
unfolding epoll_server_setup
epoll_server_setup-Safe = opens orderly make_call quiet _ stream λ s e.
    binds orderly make_call quiet _ stream _ refl λ n. listens_on orderly make_call quiet _ 5 λ m.
      creates_poll _ λ p e'.
        let server = at_stage (pos s) stream listening in
        let epfd = at_stage (pos p) poll made in
        adds _ (pos p) (pos s) (holds-head is_poll epfd _ refl)
          (is_open-later epfd (server ∷ at_start) (pos s) (is_open-head server _)) λ k. stays _ _

pub epoll_client_main-Safe : Safe orderly at_start false epoll_client_main
unfolding epoll_client_main is_open lookup
epoll_client_main-Safe = opens orderly make_call quiet _ stream λ s e.
    connects orderly make_call quiet _ _ λ n. creates_poll _ λ p new.
      let o = at_stage (pos s) stream joined in
      let epfd = at_stage (pos p) poll made in
      let is_epfd = holds-head is_poll epfd (o ∷ at_start) refl in
      let socket_open = is_open-later epfd (o ∷ at_start) (pos s) (is_open-head o at_start) in
      adds _ (pos p) (pos 0) is_epfd
        (is_open-later epfd (o ∷ at_start) (pos 0) (is_open-later o at_start (pos 0) refl))
        λ k. adds _ (pos p) (pos s) is_epfd socket_open λ l.
          talks_with _ (pos s)
            (holds-later talks epfd (o ∷ at_start) (pos s) new (holds-head talks o at_start refl))
            λ r f. closes_one _ (pos s) socket_open λ q f. ends _ _ 0
