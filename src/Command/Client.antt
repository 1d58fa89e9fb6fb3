-- ===== src/Command/Client.antt =====
-- week3/client.c, lines 28 to 52, and week3_Prac/client.c, lines 28 to 50: the loop of `main`, over
-- what the user types and what each `recv` returns.
use game_network.Prelude.{
  ℕ, if◌then◌else◌, Bool, Option, none, some, List, [], ◌∷◌, ◌++◌, until, codes, same_text,
}

-- What a round of the loop meets before its `recv`. A line that `fgets` returns has at most 1023
-- bytes.
pub record Typed : Type 0 where
  pub line : List ℕ
  pub sent : Bool  -- whether send succeeds

-- How the loop ended. `waiting` is in a `recv` that has not returned.
pub data ClientEnd : Type 0 where
  no_input quitted send_failed recv_failed server_closed waiting : ClientEnd

pub record ClientRun : Type 0 where
  pub sends : List (List ℕ)
  pub prints : List (List ℕ)
  pub end : ClientEnd

abbrev pub stopped : ClientEnd → ClientRun
stopped end = record { sends = []; prints = []; end = end }

abbrev pub send_first : List ℕ → ClientRun → ClientRun
send_first text run = record { sends = text ∷ run.sends; prints = run.prints; end = run.end }

abbrev pub print_first : List ℕ → ClientRun → ClientRun
print_first text run = record { sends = run.sends; prints = text ∷ run.prints; end = run.end }

-- The texts of the two programs: in front of an answer, and for the end of the connection.
pub record Texts : Type 0 where
  pub from_server : List ℕ
  pub closed_text : List ℕ

-- Behind the send, with what the `recv` calls still return.
unfoldable pub after_send :
    Texts → (List (Option (List ℕ)) → ClientRun) → List (Option (List ℕ)) → ClientRun
after_send texts next [] = stopped waiting
after_send texts next (none ∷ rest) = stopped recv_failed
after_send texts next (some [] ∷ rest) = print_first texts.closed_text (stopped server_closed)
after_send texts next (some (b ∷ bs) ∷ rest) =
    print_first (texts.from_server ++ until 0 (b ∷ bs)) (next rest)

unfoldable pub client_loop : Texts → List Typed → List (Option (List ℕ)) → ClientRun
client_loop texts [] received = stopped no_input
client_loop texts (typed ∷ more) received =
    let text = until 0 typed.line in
    let behind = send_first text (after_send texts (client_loop texts more) received) in
    if same_text text (codes "QUIT\n")
    then stopped quitted
    else if typed.sent
    then behind
    else stopped send_failed

abbrev pub client_texts : Texts
client_texts = record {
  from_server = codes "from server: ";
  closed_text = codes "server closed connection\n";
}

abbrev pub practice_texts : Texts
practice_texts = record {
  from_server = codes "From Server : ";
  closed_text = codes "Server Closed connection\n";
}

unfoldable pub command_client : List Typed → List (Option (List ℕ)) → ClientRun
command_client = client_loop client_texts

unfoldable pub practice_client : List Typed → List (Option (List ℕ)) → ClientRun
practice_client = client_loop practice_texts
