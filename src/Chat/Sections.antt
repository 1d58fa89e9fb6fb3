-- ===== src/Chat/Sections.antt =====
-- What `main` does to the list of clients under the lock.
use game_network.Prelude.{
  ℕ, zero, suc, ◌-◌, ◌<◌, ◌≡◌, refl, ap, ◌∙◌, some, List, [], ◌∷◌, ◌++◌, arith, take, modify,
  length, length-modify, length-append, length-take,
}
use mathlib.Core.List.{tail-eq_of_cons-eq}
use game_network.Chat.Table.{Table, append_client, register, roll_back, clients, max_client}
use game_network.Chat.Shift.{IsArray}

take-modify_end :
    (n fd : ℕ) (xs : List ℕ)
    → n < length xs
    → take (suc n) (modify n (λ _. fd) xs) ≡ take n xs ++ fd ∷ []
take-modify_end n fd [] h = absurd (omega arith)
take-modify_end zero fd (x ∷ xs) h = refl
take-modify_end (suc n) fd (x ∷ xs) h = ap (◌∷◌ x) (take-modify_end n fd xs (omega arith))

take-suc :
    (n fd : ℕ) (xs front : List ℕ)
    → take (suc n) xs ≡ front ++ fd ∷ []
    → n < length xs
    → take n xs ≡ front
take-suc n fd [] front e h = absurd (omega arith)
take-suc zero fd (x ∷ xs) [] e h = refl
take-suc zero fd (x ∷ xs) (y ∷ []) e h = cc
take-suc zero fd (x ∷ xs) (y ∷ z ∷ front) e h = cc
take-suc (suc n) fd (x ∷ []) front e h = absurd (omega arith)
take-suc (suc n) fd (x ∷ z ∷ xs) [] e h = cc
take-suc (suc n) fd (x ∷ z ∷ xs) (y ∷ front) e h =
    cc (take-suc n fd (z ∷ xs) front (tail-eq_of_cons-eq e) (omega arith))

-- A registered client goes behind the others; a table with a hundred clients takes none.
pub clients-register :
    (fd : ℕ) (t : Table) {t' : Table}
    → register fd t ≡ some t'
    → IsArray t
    → (clients t' ≡ clients t ++ fd ∷ []) × IsArray t' × (t.client_count < max_client)
unfolding register
clients-register fd t {t'} e a = rw same (
  take-modify_end t.client_count fd t.client_socks (omega (arith, a.cells, room)),
  record {
    cells = length-modify t.client_count _ t.client_socks ∙ a.cells;
    counted = omega (arith, room);
  },
  room,
)
  where
    room : t.client_count < max_client
    room = ground arith

    same : t' ≡ append_client fd t
    same = ground arith

-- Taking one off the count drops the last client.
pub clients-roll_back :
    (fd : ℕ) (t : Table) (front : List ℕ)
    → clients t ≡ front ++ fd ∷ []
    → IsArray t
    → (clients (roll_back t) ≡ front) × IsArray (roll_back t)
unfolding roll_back
clients-roll_back fd t front e a = (
  take-suc (t.client_count - 1) fd t.client_socks front (rw counted e)
      (omega (arith, a.cells, a.counted, nonempty)),
  record { cells = a.cells; counted = omega (arith, a.counted) },
)
  where
    nonempty : 0 < t.client_count
    nonempty = omega (
      arith,
      ap length e,
      length-append front (fd ∷ []),
      length-take t.client_count t.client_socks,
    )

    counted : suc (t.client_count - 1) ≡ t.client_count
    counted = omega (arith, nonempty)
