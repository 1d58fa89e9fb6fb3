-- ===== src/Broadcast/Run.antt =====
-- The loops of `main` of week11/epoll_server.c over any events, as long as the array has room.
use mathlib.Mathlib.Data.Multiset.{Multiset}
use game_network.Prelude.{
  ℕ, ◌+◌, ◌≤◌, ◌≡◌, refl, ap, ◌∙◌, Bool, none, some, Option, List, [], ◌∷◌, ◌++◌, arith, to_ℕ, inl,
  inr, ℤ, ◌==ℤ◌, count, Option-cases, first_index, count-cons,
}
use game_network.Broadcast.Server.{
  Server, Event, Effect, epoll_add, clients, remove_client, read_client, turn, serve, array_size,
  accepted,
}
use game_network.Broadcast.Swap.{IsArray, bag}
use game_network.Broadcast.Delivery.{bag_turn, turn-bag, turn_cases, add_client_cases, added}

abbrev pub is_accept : ℤ → Event → Bool
is_accept server_socket e = e.current_fd ==ℤ server_socket

-- The events in turn, as the bag sees them.
abbrev pub bag_serve : ℤ → List Event → Multiset ℤ → Multiset ℤ
bag_serve server_socket [] b = b
bag_serve server_socket (e ∷ es) b = bag_serve server_socket es (bag_turn server_socket e b)

-- What a turn keeps, whatever it does: the server socket, and the room that the array needs.
record Turned (s : Server) (e : Event) : Type 0 where
  after : Server
  out : List Effect
  returned : turn s e ≡ some (after, out)
  socket : after.server_socket ≡ s.server_socket
  grown : after.client_count ≤ s.client_count + to_ℕ (is_accept s.server_socket e)

remove_client_keeps :
    (fd : ℤ) (s : Server)
    → ((remove_client fd s).server_socket ≡ s.server_socket)
      × ((remove_client fd s).client_count ≤ s.client_count)
unfolding remove_client
remove_client_keeps fd s = elim (Option-cases (first_index (λ sock. sock ==ℤ fd) (clients s))) [
  | inl e ↦ rw (remove_client, e) (refl, omega arith)
  | inr (j, e) ↦ rw (remove_client, e) (refl, omega arith)
]

read_client_keeps :
    (fd : ℤ) (message : Option (List ℕ)) (s : Server)
    → ((read_client fd message s).0.server_socket ≡ s.server_socket)
      × ((read_client fd message s).0.client_count ≤ s.client_count)
unfolding read_client
read_client_keeps fd none s = (refl, omega arith)
read_client_keeps fd (some []) s = remove_client_keeps fd s
read_client_keeps fd (some (b ∷ bytes)) s = (refl, omega arith)

turn-Turned :
    (s : Server) (e : Event)
    → s.client_count + to_ℕ (is_accept s.server_socket e) ≤ array_size
    → Turned s e
turn-Turned s e room = elim (turn_cases s e) [
  | inl (own, step) ↦
      let one : to_ℕ (is_accept s.server_socket e) ≡ 1 = ap to_ℕ own in
      elim (add_client_cases e.client_socket s) [
        | inl (full, bound) ↦ absurd (omega arith)
        | inr (free, bound) ↦ record {
          after = added e.client_socket s;
          out = epoll_add e.client_socket ∷ [];
          returned = step ∙ ap (accepted e.client_socket) free;
          socket = refl;
          grown = omega arith;
        }
      ]
  | inr (other, step) ↦
      let keeps = read_client_keeps e.current_fd e.message s in
      let zero_more : to_ℕ (is_accept s.server_socket e) ≡ 0 = ap to_ℕ other in
      record {
        after = (read_client e.current_fd e.message s).0;
        out = (read_client e.current_fd e.message s).1;
        returned = step;
        socket = keeps.0;
        grown = omega (arith, keeps.1);
      }
]

serve_next :
    (e : Event) (es : List Event) (s t u : Server) (out more : List Effect)
    → turn s e ≡ some (t, out)
    → serve es t ≡ some (u, more)
    → serve (e ∷ es) s ≡ some (u, out ++ more)
unfolding serve
serve_next e es s t u out more h g = rw (serve, h) (rw g)

serve-bag_at :
    (k : ℤ) (es : List Event) (s : Server)
    → s.server_socket ≡ k
    → IsArray s
    → s.client_count + count (is_accept k) es ≤ array_size
    → (t : Server) × (out : List Effect) × (serve es s ≡ some (t, out))
      × (bag t ≡ bag_serve k es (bag s))
      × IsArray t
unfolding serve
serve-bag_at k [] s own a room = (s, [], refl, refl, a)
serve-bag_at k (e ∷ es) s own a room =
    let counted = count-cons (is_accept k) e es in
    let here : to_ℕ (is_accept s.server_socket e) ≡ to_ℕ (is_accept k e) =
      ap (λ q. to_ℕ (is_accept q e)) own in
    let turned = turn-Turned s e (omega arith) in
    let (same, array) = turn-bag s turned.after e turned.out a turned.returned in
    let (t, out, served, bags, last) =
      serve-bag_at k es turned.after (turned.socket ∙ own) array (omega (arith, turned.grown)) in
    (
      t,
      turned.out ++ out,
      serve_next e es s turned.after t turned.out out turned.returned served,
      bags ∙ ap (bag_serve k es) (same ∙ ap (λ q. bag_turn q e (bag s)) own),
      last,
    )

-- From an array in its bounds, and as long as the clients that are there and the connections that
-- the events accept are at most 100, the loops of main return without a write behind the array, and
-- the clients as a multiset are what the events say: each accepted connection comes in, each end of
-- a connection erases it once, and a message changes nothing.
pub serve-bag :
    (es : List Event) (s : Server)
    → IsArray s
    → s.client_count + count (is_accept s.server_socket) es ≤ array_size
    → (t : Server) × (out : List Effect) × (serve es s ≡ some (t, out))
      × (bag t ≡ bag_serve s.server_socket es (bag s))
      × IsArray t
serve-bag es s a room = serve-bag_at s.server_socket es s refl a room
