-- ===== src/Sockets/Resolve.antt =====
-- week4/nyslookup.c, and week4_Parc/client.c: what is printed of a host that the resolver knows.
use Prim.Native.Nat.{ℕ}
use game_network.Prelude.{List, [], ◌∷◌, ◌++◌, Option, none, some, codes, map}
use game_network.Sockets.Address.{inet_ntoa}

-- `struct hostent`: the lists as long as their NULL at the end says.
pub record HostEnt : Type 0 where
  pub h_name : List ℕ
  pub h_addr_list : List (List ℕ)
  pub h_aliases : List (List ℕ)

unfoldable pub alias_lines : List (List ℕ) → List (List ℕ)
alias_lines [] = codes "No aliases found." ∷ []
alias_lines (alias ∷ aliases) = codes "Aliases : " ∷ map (λ a. codes " " ++ a) (alias ∷ aliases)

-- The lines and the status, with the message for a host that is not found; `none` when the first
-- address is read and there is none.
unfoldable pub show_host : List ℕ → List ℕ → Option HostEnt → Option (List (List ℕ) × ℕ)
unfolding inet_ntoa alias_lines
show_host message hostname none = some ((message ++ hostname) ∷ [], 1)
show_host message hostname (some host) = elim host.h_addr_list [
  | [] ↦ none
  | address ∷ rest ↦ some (
    (codes "Hostname : " ++ host.h_name)
        ∷ (codes "IP Address : " ++ inet_ntoa address)
        ∷ alias_lines host.h_aliases,
    0,
  )
]

-- What gethostbyname returns is the argument.
unfoldable pub nyslookup_main : Option HostEnt → Option (List (List ℕ) × ℕ)
unfolding show_host
nyslookup_main = show_host (codes "Error: Unable to reslove hostname ") (codes "www.naver.com")

unfoldable pub practice_lookup_main : Option HostEnt → Option (List (List ℕ) × ℕ)
unfolding show_host
practice_lookup_main =
    show_host (codes "Error: Unable to resolve hostname ") (codes "www.naver.com")
