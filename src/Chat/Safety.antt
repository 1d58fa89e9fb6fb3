-- ===== src/Chat/Safety.antt =====
-- What every interleaving of the server's threads keeps.
use game_network.Prelude.{ℕ, ◌≤◌, ◌≡◌, List, [], ◌∷◌, ◌++◌, map, append_assoc}
use mathlib.Core.List.{
  Mem, Perm, Nodup, mem-append_right, mem-cons_self, perm_append_comm, Nodup-cons, Nodup-append,
}
use mathlib.Core.List.Perm
use game_network.Chat.Table.{roll_back, send_msg, clients, max_client}
use game_network.Chat.Sections.{clients-roll_back}
use game_network.Chat.Threads.{failed, System, pending, open_socks, Reach}
use game_network.Chat.Invariant.{Inv, Reach-Inv}

clients-perm : {s : System} → Inv s → Perm (clients s.table) (pending s.main ++ s.serving)
clients-perm {s} inv =
    Perm.trans (rw inv.shape (Perm.append_right (pending s.main) inv.same))
      (perm_append_comm s.serving (pending s.main))

clients_apart :
    {s : System}
    → Inv s
    → Nodup (pending s.main ++ s.serving)
      × Nodup s.leaving
      × ((fd : ℕ) → Mem fd (pending s.main ++ s.serving) → Mem fd s.leaving → ⊥)
clients_apart {s} inv =
    (Nodup-append {l₁ = pending s.main ++ s.serving} {l₂ = s.leaving}).0
      (rw (append_assoc (pending s.main) s.serving s.leaving) inv.distinct)

clients-Nodup : {s : System} → Inv s → Nodup (clients s.table)
clients-Nodup inv = Perm.nodup (Perm.symm (clients-perm inv)) (clients_apart inv).0

-- In every reachable state send_msg writes the message once to the socket of each thread that reads
-- and once to the socket that main has registered and not yet handed over, to no other and to none
-- twice, and client_count is at most MAX_CLIENT.
pub send_msg-perm :
    {s : System} (msg : List ℕ)
    → Reach s
    → Perm (send_msg msg s.table) (map (λ sock. (sock, msg)) (pending s.main ++ s.serving))
      × Nodup (clients s.table)
      × (s.table.client_count ≤ max_client)
unfolding send_msg
send_msg-perm msg r =
    let inv = Reach-Inv r in
    (Perm.map (λ sock. (sock, msg)) (clients-perm inv), clients-Nodup inv, inv.array.counted)

-- In every reachable state in which main is about to undo the registration of a socket, whatever
-- the threads did in between, that socket is the last client of the array: client_count-- takes out
-- just it and leaves the others in their order.
pub roll_back_own :
    {s : System} (fd : ℕ)
    → Reach s
    → s.main ≡ failed fd
    → clients s.table ≡ clients (roll_back s.table) ++ fd ∷ []
roll_back_own {s} fd r m =
    let inv = Reach-Inv r in
    rw (clients-roll_back fd s.table inv.served (rw m at inv.shape) inv.array).0 (rw m at inv.shape)

-- In every reachable state the socket of a thread that has left the table and not yet closed it is
-- no entry of the array.
leaving_not_client : {s : System} (fd : ℕ) → Reach s → Mem fd s.leaving → ¬ Mem fd (clients s.table)
leaving_not_client fd r m c =
    let inv = Reach-Inv r in (clients_apart inv).2 fd ((Perm.mem_iff (clients-perm inv)).0 c) m

-- In every reachable state between the close of a socket by main and the undoing of its
-- registration, the socket is still an entry of the array and is not open.
failed_write_closed :
    {s : System} (fd : ℕ)
    → Reach s
    → s.main ≡ failed fd
    → Mem fd (clients s.table) × (¬ Mem fd (open_socks s))
failed_write_closed {s} fd r m =
    let inv = Reach-Inv r in
    (
      rw inv.shape (rw m (mem-append_right inv.served mem-cons_self)),
      rw m (Nodup-cons.0 (rw m at inv.distinct)).0,
    )
