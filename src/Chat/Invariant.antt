-- ===== src/Chat/Invariant.antt =====
-- What holds of the table and the threads in every reachable state.
use game_network.Prelude.{
  ℕ, ◌≡◌, refl, sym, ap, ◌∙◌, some, List, [], ◌∷◌, ◌++◌, arith, length-replicate, append-nil,
  ℕ_discrete, erase-append_mem, append_assoc, erase-perm, Nodup-move, Nodup-take_out,
}
use mathlib.Core.List.{
  Mem, Perm, Nodup, erase, Nodup-nil, Nodup-cons, perm_append_singleton, mem-append_right,
  mem-cons_self,
}
use mathlib.Core.List.Perm
use game_network.Chat.Table.{Table, register, roll_back, remove, clients, max_client}
use game_network.Chat.Shift.{IsArray, clients-remove}
use game_network.Chat.Sections.{clients-register, clients-roll_back}
use game_network.Chat.Threads.{
  accepting, registered, failed, System, pending, open_socks, Step, accept_full, accept, spawn,
  fail, undo, message, leave, hang_up, init, Reach, start, later,
}

pub record Inv (s : System) : Type 0 where
  pub array : IsArray s.table
  -- The sockets of the threads that read, and behind them the one that `main` works on.
  pub served : List ℕ
  pub shape : clients s.table ≡ served ++ pending s.main
  pub same : Perm served s.serving
  pub distinct : Nodup (pending s.main ++ (s.serving ++ s.leaving))

Inv-init : Inv init
Inv-init = record {
  array = record { cells = length-replicate {A = ℕ} max_client 0; counted = omega arith };
  served = [];
  shape = refl;
  same = Perm.refl [];
  distinct = Nodup-nil;
}

accept-Inv :
    {s : System} (fd : ℕ) (t : Table)
    → s.main ≡ accepting
    → ¬ Mem fd (open_socks s)
    → register fd s.table ≡ some t
    → Inv s
    → Inv (record s { table = t; main = registered fd })
accept-Inv {s} fd t m fresh e inv = record {
  array = (clients-register fd s.table e inv.array).1;
  served = inv.served;
  shape =
      (clients-register fd s.table e inv.array).0
      ∙ ap (λ l. l ++ fd ∷ []) (rw m at inv.shape ∙ append-nil inv.served);
  same = inv.same;
  distinct = Nodup-cons.1 (rw m at fresh, rw m at inv.distinct);
}

spawn-Inv :
    {s : System} (fd : ℕ)
    → s.main ≡ registered fd
    → Inv s
    → Inv (record s { main = accepting; serving = fd ∷ s.serving })
spawn-Inv {s} fd m inv = record {
  array = inv.array;
  served = inv.served ++ fd ∷ [];
  shape = rw m at inv.shape ∙ sym (append-nil _);
  same = Perm.trans (Perm.append_right (fd ∷ []) inv.same) (perm_append_singleton fd s.serving);
  distinct = rw m at inv.distinct;
}

fail-Inv :
    {s : System} (fd : ℕ) → s.main ≡ registered fd → Inv s → Inv (record s { main = failed fd })
fail-Inv fd m inv = record {
  array = inv.array;
  served = inv.served;
  shape = rw m at inv.shape;
  same = inv.same;
  distinct = rw m at inv.distinct;
}

undo-Inv :
    {s : System} (fd : ℕ)
    → s.main ≡ failed fd
    → Inv s
    → Inv (record s { table = roll_back s.table; main = accepting })
undo-Inv {s} fd m inv = record {
  array = (clients-roll_back fd s.table inv.served (rw m at inv.shape) inv.array).1;
  served = inv.served;
  shape =
      (clients-roll_back fd s.table inv.served (rw m at inv.shape) inv.array).0
      ∙ sym (append-nil inv.served);
  same = inv.same;
  distinct = (Nodup-cons.0 (rw m at inv.distinct)).1;
}

leave-Inv :
    {s : System} (fd : ℕ) (before after : List ℕ)
    → s.serving ≡ before ++ (fd ∷ after)
    → Inv s
    → Inv (record s {
      table = remove fd s.table;
      serving = before ++ after;
      leaving = fd ∷ s.leaving;
    })
leave-Inv {s} fd before after e inv = record {
  array = (clients-remove fd s.table inv.array).1;
  served = erase ℕ_discrete inv.served fd;
  shape =
      (clients-remove fd s.table inv.array).0
      ∙ rw inv.shape (
          erase-append_mem ℕ_discrete fd inv.served (pending s.main)
            ((Perm.mem_iff inv.same).1 (rw e (mem-append_right before mem-cons_self))));
  same = erase-perm ℕ_discrete fd inv.served before after (rw e at inv.same);
  distinct = Nodup-move fd (pending s.main) before after s.leaving (rw e at inv.distinct);
}

hang_up-Inv :
    {s : System} (fd : ℕ) (before after : List ℕ)
    → s.leaving ≡ before ++ (fd ∷ after)
    → Inv s
    → Inv (record s { leaving = before ++ after })
hang_up-Inv {s} fd before after e inv = record {
  array = inv.array;
  served = inv.served;
  shape = inv.shape;
  same = inv.same;
  distinct = rw (← append_assoc (pending s.main) s.serving (before ++ after)) (
      Nodup-take_out fd (pending s.main ++ s.serving) before after (
        rw (append_assoc (pending s.main) s.serving (before ++ (fd ∷ after)))
          (rw e at inv.distinct)));
}

pub Step-Inv : {s t : System} → Step s t → Inv s → Inv t
Step-Inv (accept_full fd m fresh e) inv = inv
Step-Inv (accept fd t m fresh e) inv = accept-Inv fd t m fresh e inv
Step-Inv (spawn fd m) inv = spawn-Inv fd m inv
Step-Inv (fail fd m) inv = fail-Inv fd m inv
Step-Inv (undo fd m) inv = undo-Inv fd m inv
Step-Inv (message fd m) inv = inv
Step-Inv (leave fd before after e) inv = leave-Inv fd before after e inv
Step-Inv (hang_up fd before after e) inv = hang_up-Inv fd before after e inv

pub Reach-Inv : {s : System} → Reach s → Inv s
Reach-Inv start = Inv-init
Reach-Inv (later r st) = Step-Inv st (Reach-Inv r)
