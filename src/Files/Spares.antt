-- ===== src/Files/Spares.antt =====
-- Which paths a connection of the file server opens for writing, and that it leaves every other
-- file as it is.
use mathlib.Core.Path.{sym, subst}
use game_network.Prelude.{
  ℕ, zero, suc, ◌≡◌, refl, ap, ◌∙◌, Option, none, some, List, [], ◌∷◌, ◌++◌, All, until, ◌-◌, ◌≢◌,
  Option-cases, inl, inr, All-append_parts,
}
use game_network.Files.Line.{recv_line, buf_size}
use game_network.Files.Commands.{Disk, file_path}
use game_network.Files.Session.{Command, list, quit, unknown, get, load, command}
use game_network.Files.Disks.{Choice, kept_on_disk, command_end, line_end, round_end, disk_behind}
use game_network.Files.Left.{disk_behind-suc}

-- The path that a command opens for writing, if it opens one.
unfoldable pub command_saves : Command → List (List ℕ)
command_saves (load name) = file_path name ∷ []
command_saves _ = []

unfoldable pub line_saves : Option (List ℕ) → List (List ℕ)
unfolding command_saves
line_saves none = []
line_saves (some []) = []
line_saves (some (b ∷ bs)) = command_saves (command (until 0 (b ∷ bs)))

module _ (write : Disk → List ℕ → List ℕ → Disk) where
  -- The paths that a connection opens for writing.
  unfoldable pub saves : ℕ → Disk → (ℕ → Choice) → List ℕ → List (List ℕ)
  unfolding line_saves
  saves zero disk choices stream = []
  saves (suc fuel) disk choices stream =
      line_saves (recv_line (buf_size - 1) stream).0
      ++ (elim (round_end write disk (choices 0) stream) [
        | none ↦ []
        | some (after, rest) ↦ saves fuel after (λ n. choices (suc n)) rest
      ])

  -- The disk has at `path` what the other has.
  abbrev Same : List ℕ → Disk → Disk → Type 0
  Same path disk after = after.content path ≡ disk.content path

  -- `file_at` is the file that a path leads to: several paths may lead to one.
  module _ (file_at : List ℕ → List ℕ)
      (others : (d : Disk) (path bytes q : List ℕ)
        → file_at q ≢ file_at path
        → (write d path bytes).content q ≡ d.content q)
      (path : List ℕ) where
    abbrev Elsewhere : List ℕ → Type 0
    Elsewhere q = file_at q ≢ file_at path

    abbrev Spared : Disk → Option (Disk × List ℕ) → Type 0
    Spared disk none = Unit
    Spared disk (some (after, rest)) = Same path disk after

    kept_on_disk-Same :
        (disk : Disk) (q : List ℕ) (file : Option (List ℕ))
        → Elsewhere q
        → Same path disk (kept_on_disk write disk q file)
    unfolding kept_on_disk
    kept_on_disk-Same disk q none h = refl
    kept_on_disk-Same disk q (some bytes) h = others disk q bytes path (λ e. h (sym e))

    command_end-Spared :
        (disk : Disk) (choice : Choice) (c : Command) (rest : List ℕ)
        → All Elsewhere (command_saves c)
        → Spared disk (command_end write disk choice c rest)
    unfolding command_end command_saves
    command_end-Spared disk choice list rest h = refl
    command_end-Spared disk choice quit rest h = tt
    command_end-Spared disk choice unknown rest h = refl
    command_end-Spared disk choice (get name) rest h = refl
    command_end-Spared disk choice (load name) rest h =
        kept_on_disk-Same disk (file_path name) _ h.0

    line_end-Spared :
        (disk : Disk) (choice : Choice) (r : Option (List ℕ) × List ℕ)
        → All Elsewhere (line_saves r.0)
        → Spared disk (line_end write disk choice r)
    unfolding line_end line_saves
    line_end-Spared disk choice (none, rest) h = tt
    line_end-Spared disk choice (some [], rest) h = tt
    line_end-Spared disk choice (some (b ∷ bs), rest) h =
        command_end-Spared disk choice (command (until 0 (b ∷ bs))) rest h

    round_end-Spared :
        (disk : Disk) (choice : Choice) (stream : List ℕ)
        → All Elsewhere (line_saves (recv_line (buf_size - 1) stream).0)
        → Spared disk (round_end write disk choice stream)
    unfolding round_end
    round_end-Spared disk choice stream =
        line_end-Spared disk choice (recv_line (buf_size - 1) stream)

    pub disk_behind-Same :
        (fuel : ℕ) (disk : Disk) (choices : ℕ → Choice) (stream : List ℕ)
        → All Elsewhere (saves fuel disk choices stream)
        → Same path disk (disk_behind write fuel disk choices stream)
    unfolding disk_behind saves
    disk_behind-Same zero disk choices stream h = refl
    disk_behind-Same (suc fuel) disk choices stream h =
        let here = line_saves (recv_line (buf_size - 1) stream).0 in
        elim (Option-cases (round_end write disk (choices 0) stream)) [
          | inl e ↦ rw (disk_behind, e)
          | inr ((after, rest), e) ↦
              let later = saves fuel after (λ n. choices (suc n)) rest in
              let all : saves (suc fuel) disk choices stream ≡ here ++ later = rw (saves, e) in
              let (now, then) =
                All-append_parts Elsewhere here later (subst (All Elsewhere) all h) in
              let kept : Same path disk after =
                subst (Spared disk) e (round_end-Spared disk (choices 0) stream now) in
              ap (λ d. d.content path) (disk_behind-suc write fuel disk after choices stream rest e)
              ∙ disk_behind-Same fuel after (λ n. choices (suc n)) rest then
              ∙ kept
        ]
