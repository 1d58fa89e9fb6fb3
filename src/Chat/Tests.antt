-- ===== src/Chat/Tests.antt =====
-- A run of the chat server's threads, and its theorems applied to it.
use game_network.Prelude.{ℕ, ◌≤◌, ◌≡◌, refl, [], ◌∷◌, ◌++◌, arith, ℕ_discrete}
use mathlib.Core.List.{Mem, Perm, Nodup, not-mem-nil, mem-cons}
use mathlib.Core.HLevel.{⊥_prop}
use mathlib.Core.Logic.Or
use game_network.Chat.Table.{
  Table, append_client, register, roll_back, remove, send_msg, clients, max_client,
}
use game_network.Chat.Shift.{IsArray, clients-remove}
use game_network.Chat.Threads.{
  registered, failed, System, accept, spawn, fail, leave, init, Reach, start, later,
}
use game_network.Chat.Safety.{send_msg-perm, roll_back_own}

abbrev one : Table
one = append_client 5 init.table

abbrev two : Table
two = append_client 6 one

-- Client 5 is served, and client 6 has just been registered.
abbrev before_fork : System
before_fork = record { table = two; main = registered 6; serving = 5 ∷ []; leaving = [] }

six_fresh : ¬ Mem {A = ℕ} 6 (5 ∷ [])
six_fresh m = Or.elim ⊥_prop (mem-cons.0 m) (λ e. omega arith) not-mem-nil

before_fork_reached : Reach before_fork
unfolding register
before_fork_reached =
    later (later (later start (accept 5 one refl not-mem-nil refl)) (spawn 5 refl))
      (accept 6 two refl six_fresh refl)

-- `pthread_create` fails, and client 5 leaves before `main` takes the lock.
abbrev after_leave : System
after_leave = record { table = remove 5 two; main = failed 6; serving = []; leaving = 5 ∷ [] }

after_leave_reached : Reach after_leave
after_leave_reached = later (later before_fork_reached (fail 6 refl)) (leave 5 [] [] refl)

send_msg-perm_example :
    Perm (send_msg (b'h' ∷ b'i' ∷ []) two) ((6, b'h' ∷ b'i' ∷ []) ∷ (5, b'h' ∷ b'i' ∷ []) ∷ [])
    × Nodup (clients two)
    × (2 ≤ max_client)
send_msg-perm_example = send_msg-perm (b'h' ∷ b'i' ∷ []) before_fork_reached

roll_back_own_example : clients (remove 5 two) ≡ clients (roll_back (remove 5 two)) ++ 6 ∷ []
roll_back_own_example = roll_back_own 6 after_leave_reached refl

clients-remove_example : (clients (remove 5 two) ≡ 6 ∷ []) × IsArray (remove 5 two)
unfolding ℕ_discrete
clients-remove_example = clients-remove 5 two (record { cells = refl; counted = omega arith })
