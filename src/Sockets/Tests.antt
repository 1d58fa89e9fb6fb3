-- ===== src/Sockets/Tests.antt =====
-- Runs of the mains at concrete answers.
use game_network.Sockets.Address.{
  inet_pton, htons, octets, inet_ntoa, octet, dotted_parts, four_bytes, ntohs,
}
use game_network.Sockets.Calls.{stream}
use game_network.Sockets.Heads.{at_stage}
use game_network.Prelude.{
  same_text, List, [], ◌∷◌, ℤ, pos, minus_one, true, false, ◌≡◌, refl, ℕ, codes, print_decimal,
  some, read_digits, same_text, ◌++◌, arith, none,
}
use game_network.Sockets.Streams.{command_server_main, file_client_main}
use game_network.Sockets.Monitor.{run, at_start, ended, made}
use game_network.Sockets.Orderly.{Orderly}
use game_network.Sockets.Tidy.{Tidy}
use game_network.Sockets.Shown.{
  struct_main, practice_struct_main, shown_lines, server_addr, shown_lines-server_addr, hex4,
}
use game_network.Sockets.Resolve.{nyslookup_main, practice_lookup_main, show_host, alias_lines}

-- Listening on 3, `accept` fails once, and then joins a client on 4.
abbrev two_rounds : List ℤ
two_rounds = pos 3 ∷ pos 0 ∷ pos 0 ∷ minus_one ∷ pos 4 ∷ pos 0 ∷ pos 0 ∷ []

-- Two sockets, their setup, and one client.
abbrev one_client : List ℤ
one_client =
    pos 0
    ∷ pos 5
    ∷ pos 6
    ∷ pos 7
    ∷ pos 0
    ∷ pos 0
    ∷ pos 0
    ∷ pos 0
    ∷ pos 0
    ∷ pos 8
    ∷ pos 0
    ∷ pos 0
    ∷ []

-- The whole run of week3's server.
served_once :
    run at_start false command_server_main
      (pos 3 ∷ pos 0 ∷ pos 0 ∷ pos 4 ∷ pos 0 ∷ pos 0 ∷ pos 0 ∷ [])
    ≡ ended 0 at_start false
unfolding run command_server_main
served_once = refl

-- No port: `bind` fails, and the process ends with 1.
bind_fails :
    run at_start false command_server_main (pos 3 ∷ minus_one ∷ [])
    ≡ ended 1 (at_stage (pos 3) stream made ∷ at_start) true
unfolding run command_server_main
bind_fails = refl

-- An upload that fails: the client's status is 1, and its socket is closed.
upload_fails :
    run at_start false file_client_main (pos 3 ∷ pos 0 ∷ minus_one ∷ pos 0 ∷ [])
    ≡ ended 1 at_start true
unfolding run file_client_main
upload_fails = refl

-- week4/struct.c
abbrev home : List ℕ
home = codes "127.0.0.1"

shown_lines-server_addr_example :
    struct_main
    ≡ (codes "server IP : " ++ home)
      ∷ (codes "Server Port : " ++ print_decimal 8080)
      ∷ (codes "port value in memory : 0x" ++ hex4 (htons 8080))
      ∷ (codes "real port value : 0x" ++ hex4 8080)
      ∷ []
unfolding struct_main inet_pton octets octet dotted_parts print_decimal read_digits same_text
    four_bytes
shown_lines-server_addr_example =
    shown_lines-server_addr (codes "server IP : ") (codes "port value in memory : 0x") home
      (127 ∷ 0 ∷ 0 ∷ 1 ∷ []) 8080 refl (omega arith)

practice_lines :
    practice_struct_main
    ≡ codes "Server IP : 127.0.0.1"
      ∷ codes "Server Port : 5000"
      ∷ codes "Port value in memory : 0x8813"
      ∷ codes "real port value : 0x1388"
      ∷ []
unfolding practice_struct_main shown_lines server_addr inet_pton inet_ntoa octets octet dotted_parts
    print_decimal read_digits same_text four_bytes htons ntohs hex4
practice_lines = refl

port_in_memory : hex4 (htons 8080) ≡ codes "901F"
unfolding hex4 htons
port_in_memory = refl

one_alias :
    nyslookup_main (
      some (record {
        h_name = codes "a.b";
        h_addr_list = (10 ∷ 0 ∷ 0 ∷ 7 ∷ []) ∷ [];
        h_aliases = codes "a" ∷ [];
      }))
    ≡ some (
      codes "Hostname : a.b" ∷ codes "IP Address : 10.0.0.7" ∷ codes "Aliases : " ∷ codes " a" ∷ [],
      0,
    )
unfolding nyslookup_main show_host alias_lines inet_ntoa print_decimal
one_alias = refl

not_found :
    practice_lookup_main none
    ≡ some (codes "Error: Unable to resolve hostname www.naver.com" ∷ [], 1)
unfolding practice_lookup_main show_host
not_found = refl
