-- ===== src/Files/Uses.antt =====
-- What a user does with the file server, and that a round of the client and a round of the server
-- do it together.
use game_network.Prelude.{
  ℕ, ◌<◌, ◌≡◌, true, false, none, some, List, [], ◌∷◌, ◌++◌, All, length, map, newline, codes,
  same_text, print_decimal,
}
use game_network.Files.Commands.{Entry, command_list, file_path, end_line, regular_names}
use game_network.Files.Stream.{IsLine, IsStored, unlines}
use game_network.Files.Upload.{upload_done}
use game_network.Files.Session.{Round, handle_client}
use game_network.Files.Conversation.{later}
use game_network.Files.Client.{
  Prompt, Act, show, sent, stored, ask, ask_other, download_name, client,
}
use game_network.Files.Exchange.{sent_bytes, acts_then, Types}

-- A name that the listing shows.
pub record IsShown (l : List ℕ) : Type 0 where
  pub line : IsLine l
  pub filled : 0 < length l
  pub not_end : same_text l end_line ≡ false

-- A round in which all goes well with the upload of the file.
pub record IsWilling (p : Prompt) (file : List ℕ) : Type 0 where
  pub found : p.local ≡ some file
  pub command_sent : p.sends ≡ true
  pub sized : p.sized ≡ true
  pub size_sent : p.size_sent ≡ true
  pub uncut : p.cut ≡ none

-- One use of the server by the user: what the client shows, sends and stores for it.
pub data Use (p : Prompt) (r : Round) : List Act → Type 0 where
  lists :
      (entries : List Entry)
      → Types p (codes "list")
      → p.sends ≡ true
      → r.disk.files_dir ≡ some entries
      → All IsShown (regular_names entries)
      → Use p r (
          show command_list
          ∷ sent (codes "list" ++ (newline ∷ []))
          ∷ show (codes "Files:")
          ∷ (map show (regular_names entries) ++ (show end_line ∷ [])))
  gets :
      (name : List ℕ) (ls : List (List ℕ))
      → Types p (codes "get " ++ name)
      → p.sends ≡ true
      → p.opens ≡ true
      → r.disk.content (file_path name) ≡ some (unlines ls)
      → All IsStored ls
      → Use p r (
          show command_list
          ∷ sent ((codes "get " ++ name) ++ (newline ∷ []))
          ∷ stored (download_name name) (unlines ls)
          ∷ [])
  loads :
      (name file : List ℕ)
      → Types p (codes "load " ++ name)
      → IsWilling p file
      → r.ready_sent ≡ true
      → r.disk.writable (file_path name) ≡ true
      → 0 < length file
      → length file < 2147483648
      → Use p r (
          show command_list
          ∷ sent ((codes "load " ++ name) ++ (newline ∷ []))
          ∷ sent (print_decimal (length file) ++ (newline ∷ []))
          ∷ sent file
          ∷ show upload_done
          ∷ [])
  others :
      (line : List ℕ)
      → Types p line
      → p.sends ≡ true
      → ask line ≡ ask_other
      → Use p r
          (show command_list ∷ sent (line ++ (newline ∷ [])) ∷ show (codes "Unknown command") ∷ [])

-- A round of both sides: the server answers `up` with `down`, and the client, given that, does
-- `acts`.
pub record Exchange (p : Prompt) (r : Round) (acts : List Act) : Type 0 where
  pub down : List (List ℕ)
  pub lines : All IsLine down
  pub client_side :
      (ps : List Prompt) (rest : List ℕ)
      → client (p ∷ ps) (command_list ++ (newline ∷ (unlines down ++ rest)))
        ≡ acts_then acts (client ps rest)
  pub server_side :
      (rounds : ℕ → Round) (rest : List ℕ)
      → rounds 0 ≡ r
      → handle_client rounds (sent_bytes acts ++ rest)
        ≡ command_list ∷ (down ++ handle_client (later rounds) rest)
