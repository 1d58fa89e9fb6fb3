-- ===== src/Game/Alloc.antt =====
-- What `alloc_player` and `free_player` do to each slot of the table.
use game_network.Prelude.{
  ℕ, ◌<◌, ◌≡◌, ◌⊎◌, inl, inr, true, false, some, List, arith, ℤ, pos, minus_one, ==ℤ_iff, All,
  All-mono, get_elem?, modify, first_index_cases, IsFirst, ◌≢◌,
}
use game_network.Game.Types.{Player}
use game_network.Game.Table.{alloc_player, free_player, is_free, holds_fd, activate, deactivate}

-- The two ends of a call of `alloc_player`.
pub record Allocated (fd : ℤ) (players : List Player) (i : ℕ) : Type 0 where
  pub old : Player
  pub stood : get_elem? players i ≡ some old
  pub was_free : old.is_active ≡ false
  pub lowest : (j : ℕ) (p : Player) → j < i → get_elem? players j ≡ some p → p.is_active ≡ true
  pub result : alloc_player fd players ≡ (modify i (activate fd) players, pos i)

pub alloc_player_cases :
    (fd : ℤ) (players : List Player)
    → ((alloc_player fd players ≡ (players, minus_one)) × All (λ p. p.is_active ≡ true) players)
      ⊎ ((i : ℕ) × Allocated fd players i)
unfolding alloc_player
alloc_player_cases fd players = elim (first_index_cases is_free players) [
  | inl (e, all) ↦ inl (
    rw (e, alloc_player),
    All-mono {P = λ p. is_free p ≡ false} players (λ p h. ground arith) all,
  )
  | inr (i, e, f) ↦ inr (
    i,
    record {
      old = f.found;
      stood = f.stands;
      was_free = ground (arith, f.passes);
      lowest = λ j p h s. ground (arith, f.earlier j p h s);
      result = rw (e, alloc_player);
    },
  )
]

-- Either no slot holds the descriptor, or the first that does is cleared.
pub free_player_cases :
    (fd : ℤ) (players : List Player)
    → ((free_player fd players ≡ players) × All (λ p. p.tcp_fd ≢ fd) players)
      ⊎ ((i : ℕ) × (free_player fd players ≡ modify i deactivate players)
          × IsFirst (holds_fd fd) players i)
unfolding free_player
free_player_cases fd players = elim (first_index_cases (holds_fd fd) players) [
  | inl (e, all) ↦ inl (
    rw (e, free_player),
    All-mono {P = λ p. holds_fd fd p ≡ false} players (λ p h q. ground (arith, ==ℤ_iff p.tcp_fd fd))
        all,
  )
  | inr (i, e, f) ↦ inr (i, rw (e, free_player), f)
]
