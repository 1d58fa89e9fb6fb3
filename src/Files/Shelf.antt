-- ===== src/Files/Shelf.antt =====
-- An upload on one connection of the file server, and its download on a later one, with other
-- connections before them and between them.
use mathlib.Core.List.{map-append}
use game_network.Files.Left.{upload_acts, download_acts, disk_behind_upload}
use game_network.Files.Spares.{saves, disk_behind-Same}
use game_network.Prelude.{
  ℕ, suc, ◌<◌, ◌≡◌, refl, ap, ◌∙◌, true, Option, none, some, List, [], ◌∷◌, ◌++◌, map, length,
  codes, All, ◌≢◌, All-append_parts,
}
use game_network.Files.Commands.{Disk, file_path, send_lines}
use game_network.Files.Stream.{IsStored, unlines}
use game_network.Files.Session.{handle_client}
use game_network.Files.Client.{Prompt, Act, client, quitted}
use game_network.Files.Exchange.{Types, sent_bytes}
use game_network.Files.Uses.{IsWilling, gets, loads}
use game_network.Files.Talk.{file_session, then_uses, quits}
use game_network.Files.Disks.{Choice, Connection, rounds_from, disk_behind, serve_clients}

module _ (write : Disk → List ℕ → List ℕ → Disk) where
  -- What the loop of main sends, and the disk behind it, where more connections follow.
  serve_clients-append :
      (disk : Disk) (xs ys : List (Option Connection))
      → serve_clients write disk (xs ++ ys) ≡ (
        (serve_clients write disk xs).0
            ++ (serve_clients write (serve_clients write disk xs).1 ys).0,
        (serve_clients write (serve_clients write disk xs).1 ys).1,
      )
  unfolding serve_clients
  serve_clients-append disk [] ys = refl
  serve_clients-append disk (none ∷ xs) ys = serve_clients-append disk xs ys
  serve_clients-append disk (some c ∷ xs) ys =
      let after = disk_behind write (suc (length c.stream)) disk c.choices c.stream in
      ap (λ r. (handle_client (rounds_from write disk c.choices c.stream) c.stream ∷ r.0, r.1))
        (serve_clients-append after xs ys)

  -- The paths that connections open for writing.
  unfoldable pub all_saves : Disk → List (Option Connection) → List (List ℕ)
  unfolding saves
  all_saves disk [] = []
  all_saves disk (none ∷ more) = all_saves disk more
  all_saves disk (some c ∷ more) =
      saves write (suc (length c.stream)) disk c.choices c.stream
      ++ all_saves (disk_behind write (suc (length c.stream)) disk c.choices c.stream) more

  serve_clients-Same :
      (path : List ℕ) (file_at : List ℕ → List ℕ)
      → ((d : Disk) (q bytes other : List ℕ)
          → file_at other ≢ file_at q
          → (write d q bytes).content other ≡ d.content other)
      → (disk : Disk) (conns : List (Option Connection))
      → All (λ q. file_at q ≢ file_at path) (all_saves disk conns)
      → (serve_clients write disk conns).1.content path ≡ disk.content path
  unfolding serve_clients all_saves
  serve_clients-Same path file_at others disk [] h = refl
  serve_clients-Same path file_at others disk (none ∷ more) h =
      serve_clients-Same path file_at others disk more h
  serve_clients-Same path file_at others disk (some c ∷ more) h =
      let after = disk_behind write (suc (length c.stream)) disk c.choices c.stream in
      let (now, later) =
        All-append_parts (λ q. file_at q ≢ file_at path)
          (saves write (suc (length c.stream)) disk c.choices c.stream) (all_saves after more) h in
      serve_clients-Same path file_at others after more later
      ∙ disk_behind-Same write file_at others path (suc (length c.stream)) disk c.choices c.stream
          now

  -- What each client receives, `none` for a fault of a send; and the disk behind the connections.
  abbrev pub streams : Disk → List (Option Connection) → List (Option (List ℕ))
  streams disk conns = map send_lines (serve_clients write disk conns).0

  abbrev pub last_disk : Disk → List (Option Connection) → Disk
  last_disk disk conns = (serve_clients write disk conns).1

  abbrev pub answered : Disk → Connection → Option (List ℕ)
  answered disk c = send_lines (handle_client (rounds_from write disk c.choices c.stream) c.stream)

  streams_next :
      (disk : Disk) (xs ys : List (Option Connection)) (c : Connection)
      → streams disk (xs ++ (some c ∷ ys))
        ≡ streams disk xs
          ++ (answered (last_disk disk xs) c
              ∷ streams
                  (disk_behind write (suc (length c.stream)) (last_disk disk xs) c.choices c.stream)
                  ys)
  unfolding serve_clients
  streams_next disk xs ys c =
      ap (λ r. map send_lines r.0) (serve_clients-append disk xs (some c ∷ ys))
      ∙ map-append send_lines (serve_clients write disk xs).0 _

  streams_two :
      (disk uploaded : Disk) (before between : List (Option Connection)) (c d : Connection)
      (up down : List ℕ)
      → disk_behind write (suc (length c.stream)) (last_disk disk before) c.choices c.stream
        ≡ uploaded
      → answered (last_disk disk before) c ≡ some up
      → answered (last_disk uploaded between) d ≡ some down
      → streams disk (before ++ (some c ∷ (between ++ (some d ∷ []))))
        ≡ streams disk before ++ (some up ∷ (streams uploaded between ++ (some down ∷ [])))
  unfolding serve_clients
  streams_two disk uploaded before between c d up down left sent_up sent_down =
      let first = answered (last_disk disk before) c in
      streams_next disk before (between ++ (some d ∷ [])) c
      ∙ ap (λ q. streams disk before ++ (first ∷ streams q (between ++ (some d ∷ [])))) left
      ∙ ap (λ r. streams disk before ++ (first ∷ r)) (streams_next uploaded between [] d)
      ∙ ap
          (λ x.
            streams disk before
            ++ (x ∷ (streams uploaded between ++ (answered (last_disk uploaded between) d ∷ []))))
          sent_up
      ∙ ap (λ x. streams disk before ++ (some up ∷ (streams uploaded between ++ (x ∷ []))))
          sent_down

abbrev pub connection : (ℕ → Choice) → List Act → Connection
connection choices acts = record { choices = choices; stream = sent_bytes acts }

-- With a file system that says which file a path leads to (several paths may lead to one), whose
-- files read back as they were written, and in which writing one leaves the others as they are:
-- connections of any kind come first, then one of a client that types a load of a file and quit,
-- then connections of any kind of which none opens a path to that file for writing, then one of a
-- client that types a get of the same name and quit; accepts that fail may be anywhere among the
-- first and the third. The file is not empty, smaller than 2 GiB and of lines of 1 to 4094 bytes
-- without NUL, none of them START or the line of END, the server can write it by then and its send
-- of READY succeeds, and the two clients' own calls succeed. The server's loop sends on the two
-- clients' connections streams on which the first does its upload and quits, and the second stores
-- the file that the first had, byte for byte, and quits; what it sends on the others is what it
-- sends on the first ones alone, and on the third ones alone from a disk with the new file.
pub uploaded_download :
    (write : Disk → List ℕ → List ℕ → Disk) (file_at : List ℕ → List ℕ) (disk : Disk)
    (name : List ℕ) (ls : List (List ℕ)) (a a' b b' : Prompt) (cs ds : ℕ → Choice)
    (before between : List (Option Connection))
    → ((d : Disk) (path bytes : List ℕ) → (write d path bytes).content path ≡ some bytes)
    → ((d : Disk) (path bytes other : List ℕ)
        → file_at other ≢ file_at path
        → (write d path bytes).content other ≡ d.content other)
    → All IsStored ls
    → 0 < length (unlines ls)
    → length (unlines ls) < 2147483648
    → (last_disk write disk before).writable (file_path name) ≡ true
    → (cs 0).ready_sent ≡ true
    → All
        (λ path. file_at path ≢ file_at (file_path name))
        (all_saves write
          (write (last_disk write disk before) (file_path name) (unlines ls))
          between)
    → Types a (codes "load " ++ name)
    → IsWilling a (unlines ls)
    → Types a' (codes "quit")
    → a'.sends ≡ true
    → Types b (codes "get " ++ name)
    → b.sends ≡ true
    → b.opens ≡ true
    → Types b' (codes "quit")
    → b'.sends ≡ true
    → (up : List ℕ) × (down : List ℕ) × (streams write disk (
          before
          ++ (some (connection cs (upload_acts name (unlines ls)))
              ∷ (between ++ (some (connection ds (download_acts name (unlines ls))) ∷ []))))
        ≡ streams write disk before
          ++ (some up
              ∷ (streams write
                    (write (last_disk write disk before) (file_path name) (unlines ls))
                    between
                  ++ (some down ∷ []))))
      × (client (a ∷ a' ∷ []) up ≡ (upload_acts name (unlines ls), quitted))
      × (client (b ∷ b' ∷ []) down ≡ (download_acts name (unlines ls), quitted))
unfolding rounds_from serve_clients
uploaded_download write file_at disk name ls a a' b b' cs ds before between law others lines more
      small w ok spared ta wa qa sa tb sb ob qb sb' =
    let file = unlines ls in
    let path = file_path name in
    let ups = upload_acts name file in
    let downs = download_acts name file in
    let first = last_disk write disk before in
    let uploaded = write first path file in
    let later = last_disk write uploaded between in
    let there : later.content path ≡ some file =
      serve_clients-Same write path file_at others uploaded between spared ∙ law first path file in
    let (up, sent_up, client_up) =
      file_session (a ∷ a' ∷ []) (rounds_from write first cs (sent_bytes ups)) ups
        (then_uses (loads name file ta wa ok w more small) (quits qa sa)) in
    let (down, sent_down, client_down) =
      file_session (b ∷ b' ∷ []) (rounds_from write later ds (sent_bytes downs)) downs
        (then_uses (gets name ls tb sb ob there lines) (quits qb sb')) in
    (
      up,
      down,
      streams_two write disk uploaded before between (connection cs ups) (connection ds downs) up
          down
          (disk_behind_upload write (length (sent_bytes ups)) first cs name file ta.ok ok w more
            small)
          sent_up sent_down,
      client_up,
      client_down,
    )
