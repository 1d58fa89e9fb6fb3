-- ===== src/Files/Disks.antt =====
-- week5/Iserver.c, lines 27 to 47: the server from one connection to the next. What an upload
-- leaves on the disk is there for the rounds and the connections behind it. `write` is the file
-- system's: the disk after a file has been written, under all paths that lead to it.
use game_network.Prelude.{ℕ, zero, suc, ◌-◌, Option, none, some, List, [], ◌∷◌, length, until, Bool}
use game_network.Files.Line.{buf_size, recv_line}
use game_network.Files.Commands.{Disk, file_path}
use game_network.Files.Upload.{cmd_uplode}
use game_network.Files.Session.{
  Command, list, quit, unknown, get, load, command, Round, handle_client,
}

-- What a round meets outside but for the disk.
pub record Choice : Type 0 where
  pub ready_sent : Bool
  pub sizes : ℕ → ℕ

-- A connection: what its rounds meet, and the bytes that the client sends before it closes.
pub record Connection : Type 0 where
  pub choices : ℕ → Choice
  pub stream : List ℕ

module _ (write : Disk → List ℕ → List ℕ → Disk) where
  -- A file that was opened holds what was written.
  unfoldable pub kept_on_disk : Disk → List ℕ → Option (List ℕ) → Disk
  kept_on_disk disk path none = disk
  kept_on_disk disk path (some bytes) = write disk path bytes

  -- The disk and the rest of the stream behind a command; `none` is the end of the loop.
  unfoldable pub command_end : Disk → Choice → Command → List ℕ → Option (Disk × List ℕ)
  unfolding kept_on_disk
  command_end disk choice list rest = some (disk, rest)
  command_end disk choice (get name) rest = some (disk, rest)
  command_end disk choice unknown rest = some (disk, rest)
  command_end disk choice quit rest = none
  command_end disk choice (load name) rest =
      let up = cmd_uplode disk choice.ready_sent (suc (length rest)) choice.sizes name rest in
      some (kept_on_disk disk (file_path name) up.file, up.rest)

  unfoldable pub line_end : Disk → Choice → Option (List ℕ) × List ℕ → Option (Disk × List ℕ)
  unfolding command_end
  line_end disk choice (none, rest) = none
  line_end disk choice (some [], rest) = none
  line_end disk choice (some (b ∷ bs), rest) =
      command_end disk choice (command (until 0 (b ∷ bs))) rest

  unfoldable pub round_end : Disk → Choice → List ℕ → Option (Disk × List ℕ)
  unfolding line_end
  round_end disk choice stream = line_end disk choice (recv_line (buf_size - 1) stream)

  -- What each round of `handle_client` meets; behind the last one nothing is asked.
  unfoldable pub rounds_from : Disk → (ℕ → Choice) → List ℕ → ℕ → Round
  unfolding round_end
  rounds_from disk choices stream zero = record {
    disk = disk;
    ready_sent = (choices 0).ready_sent;
    sizes = (choices 0).sizes;
  }
  rounds_from disk choices stream (suc k) = elim (round_end disk (choices 0) stream) [
    | none ↦ record { disk = disk; ready_sent = (choices 0).ready_sent; sizes = (choices 0).sizes }
    | some (after, rest) ↦ rounds_from after (λ n. choices (suc n)) rest k
  ]

  -- The disk at the end of a connection. Each round takes a byte, so the length of the stream is
  -- fuel enough.
  unfoldable pub disk_behind : ℕ → Disk → (ℕ → Choice) → List ℕ → Disk
  unfolding round_end
  disk_behind zero disk choices stream = disk
  disk_behind (suc fuel) disk choices stream = elim (round_end disk (choices 0) stream) [
    | none ↦ disk
    | some (after, rest) ↦ disk_behind fuel after (λ n. choices (suc n)) rest
  ]

  -- The loop of main: a failed `accept` is skipped, and the lines that the server sends on each
  -- connection are those of `handle_client`.
  unfoldable pub serve_clients : Disk → List (Option Connection) → List (List (List ℕ)) × Disk
  unfolding rounds_from disk_behind
  serve_clients disk [] = ([], disk)
  serve_clients disk (none ∷ more) = serve_clients disk more
  serve_clients disk (some c ∷ more) =
      let (lines, last) =
        serve_clients (disk_behind (suc (length c.stream)) disk c.choices c.stream) more in
      (handle_client (rounds_from disk c.choices c.stream) c.stream ∷ lines, last)
