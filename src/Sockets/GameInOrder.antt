-- ===== src/Sockets/GameInOrder.antt =====
-- The programs of week13 and week9's client on Windows: each run is in order until a call fails.
use mathlib.Core.Path.{subst}
use game_network.Prelude.{ℕ, zero, suc, Bool, true, false, List, ◌∷◌, pos, ◌==ℤ◌, ◌≡◌, refl, ◌∙◌}
use game_network.Sockets.Calls.{datagram, startup, cleanup, stream, poll, make_call}
use game_network.Sockets.Monitor.{
  at_start, listens, is_poll, talks, made, bound, listening, joined, Open, is_open, holds, in_order,
  answers, open_after, is_failure,
}
use game_network.Sockets.Rules.{Safe, Safe-call}
use game_network.Sockets.Heads.{opens, binds, connects, closes, at_stage, holds-head, is_open-head}
use game_network.Sockets.Orderly.{
  orderly, quiet, stays, ends, shut-next, is_open-later, fresh_apart, holds-later, holds-next,
  creates_poll, adds, accepts_on, talks_with, closes_one, binds_behind, listens_behind,
}
use game_network.Sockets.Streams.{any_at}
use game_network.Sockets.Polling.{
  winsock_client_main, game_server_setup, game_client_main, windows_rounds,
  windows_game_server_main,
}

pub winsock_client_main-Safe : Safe orderly at_start false winsock_client_main
unfolding winsock_client_main in_order answers open_after is_failure
winsock_client_main-Safe = Safe-call orderly at_start false startup _ refl λ v a.
    opens orderly make_call quiet _ datagram λ s e.
      talks_with _ (pos s) (holds-head talks (at_stage (pos s) datagram made) at_start refl) λ r f.
        closes orderly (at_stage (pos s) datagram made)
          λ q. Safe-call orderly at_start _ cleanup _ refl λ t b. ends _ _ 0

-- Two sockets of one program, the first of them at the head of the list before the second.
socket_apart :
    (s u : ℕ) (o : Open)
    → o.fd ≡ pos s
    → is_open (pos u) (o ∷ at_start) ≡ false
    → (pos u ==ℤ pos s) ≡ false
socket_apart s u o e new =
    fresh_apart (o ∷ at_start) (at_stage (pos u) datagram made) (pos s) new
      (subst (λ x. is_open x (o ∷ at_start) ≡ true) e (is_open-head o at_start))

pub game_server_setup-Safe : Safe orderly at_start false game_server_setup
unfolding game_server_setup
game_server_setup-Safe = opens orderly make_call quiet _ stream λ s e.
    opens orderly make_call quiet _ datagram λ u new.
      let apart = socket_apart s u (at_stage (pos s) stream made) refl new in
      binds_behind _ (at_stage (pos u) datagram made) (pos s) (any_at 8000) apart λ n.
        listens_behind _ (at_stage (pos u) datagram made) (pos s) 5 apart λ m.
          binds orderly make_call quiet _ datagram _ refl λ k. creates_poll _ λ p fresh.
            let tcp = at_stage (pos s) stream listening in
            let udp = at_stage (pos u) datagram bound in
            let epfd = at_stage (pos p) poll made in
            let is_epfd = holds-head is_poll epfd (udp ∷ tcp ∷ at_start) refl in
            adds _ (pos p) (pos s) is_epfd
              (is_open-later epfd _ _ (is_open-later udp _ _ (is_open-head tcp at_start)))
              λ a.
                adds _ (pos p) (pos u) is_epfd
                  (is_open-later epfd _ _ (is_open-head udp (tcp ∷ at_start))) λ b. stays _ _

pub game_client_main-Safe : Safe orderly at_start false game_client_main
unfolding game_client_main
game_client_main-Safe = opens orderly make_call quiet _ stream λ s e.
    connects orderly make_call quiet _ _ λ n. opens orderly make_call quiet _ datagram λ u new.
      let tcp = at_stage (pos s) stream joined in
      let udp = at_stage (pos u) datagram made in
      let apart = socket_apart s u tcp refl new in
      talks_with _ (pos s)
        (holds-later talks udp (tcp ∷ at_start) (pos s) new (holds-head talks tcp at_start refl))
        λ r f. talks_with _ (pos u) (holds-head talks udp (tcp ∷ at_start) refl) λ q f.
          closes_one _ (pos s) (is_open-later udp _ _ (is_open-head tcp at_start)) λ t f.
            rw (shut-next udp (tcp ∷ at_start) (pos s) apart) (closes orderly udp λ v. ends _ _ 0)

windows_rounds-Safe :
    (rounds : ℕ) (os : List Open) (fails : Bool) (s p : ℕ)
    → holds listens (pos s) os ≡ true
    → holds is_poll (pos p) os ≡ true
    → Safe orderly os fails (windows_rounds rounds (pos s) (pos p))
unfolding windows_rounds
windows_rounds-Safe zero os fails s p l q = stays _ _
windows_rounds-Safe (suc rounds) os fails s p l q = accepts_on _ (pos s) l λ c new.
    let client = at_stage (pos c) stream joined in
    let l' = holds-later listens client os (pos s) new l in
    let q' = holds-later is_poll client os (pos p) new q in
    adds _ (pos p) (pos c) q' (is_open-head client os) λ n.
      talks_with _ (pos c) (holds-head talks client os refl)
        λ r f. windows_rounds-Safe rounds (client ∷ os) f s p l' q'

pub windows_game_server_main-Safe :
    (rounds : ℕ) → Safe orderly at_start false (windows_game_server_main rounds)
unfolding windows_game_server_main in_order answers open_after is_failure
windows_game_server_main-Safe rounds = Safe-call orderly at_start false startup _ refl λ v a.
    creates_poll _ λ p old.
      let epfd = at_stage (pos p) poll made in
      let base = epfd ∷ at_start in
      opens orderly make_call quiet _ stream λ s fresh.
        let new_tcp = at_stage (pos s) stream made in
        opens orderly make_call quiet _ datagram λ u new.
          let new_udp = at_stage (pos u) datagram made in
          let apart =
            fresh_apart (new_tcp ∷ base) new_udp (pos s) new (is_open-head new_tcp base) in
          let apart_poll =
            fresh_apart (new_tcp ∷ base) new_udp (pos p) new
              (is_open-later new_tcp base (pos p) (is_open-head epfd at_start)) in
          binds_behind _ new_udp (pos s) (any_at 8000) apart λ n.
            listens_behind _ new_udp (pos s) 5 apart λ m.
              binds orderly make_call quiet _ datagram _ refl λ k.
                let tcp = at_stage (pos s) stream listening in
                let udp = at_stage (pos u) datagram bound in
                let is_epfd =
                  holds-next is_poll udp (tcp ∷ base) (pos p) apart_poll
                  ∙ holds-later is_poll tcp base (pos p) fresh
                      (holds-head is_poll epfd at_start refl) in
                let is_listening =
                  holds-next listens udp (tcp ∷ base) (pos s) apart
                  ∙ holds-head listens tcp base refl in
                adds _ (pos p) (pos u) is_epfd (is_open-head udp (tcp ∷ base)) λ l.
                  talks_with _ (pos u) (holds-head talks udp (tcp ∷ base) refl)
                    λ r f. windows_rounds-Safe rounds (udp ∷ tcp ∷ base) f s p is_listening is_epfd
