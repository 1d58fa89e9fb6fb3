-- ===== src/Echo/Datagram.antt =====
-- The loops of week9 over datagrams: Iserver.c, lines 35 to 47, and Iclient.c, lines 29 to 41, for
-- Linux, wserver.c, lines 42 to 53, and wclient.c, lines 29 to 42, for Windows. What recvfrom and
-- the input return is an argument, none for an error and for NULL.
use game_network.Prelude.{
  ℕ, zero, suc, Option, none, some, List, [], ◌∷◌, until, newline, suc, length, ◌-◌,
}
use game_network.Files.Commands.{fgets}
use game_network.Echo.Stream.{
  Run, stop, send_first, show_first, terminated, closed, quitted, waiting, running, buf_size,
}

-- `sendto(..., strlen(buffer), ...)`: up to the first NUL. An error is not tested: the terminator
-- goes in front of the buffer, which is taken to touch nothing that the program reads, and the
-- string that the buffer holds is shown and sent again.
unfoldable pub linux_server : List ℕ → List (Option (List ℕ)) → Run
linux_server buffer [] = stop running
linux_server buffer (none ∷ more) = show_first buffer (send_first buffer (linux_server buffer more))
linux_server buffer (some bytes ∷ more) =
    let text = until 0 bytes in
    terminated bytes (show_first text (send_first text (linux_server text more)))

-- `sendto(..., n, ...)`
unfoldable pub windows_server : List (Option (List ℕ)) → Run
windows_server [] = stop running
windows_server (none ∷ more) = stop closed
windows_server (some bytes ∷ more) =
    terminated bytes (show_first (until 0 bytes) (send_first bytes (windows_server more)))

-- Behind the sendto of the Linux client: an error is not tested, and shows what was sent.
unfoldable pub linux_answer : (List (Option (List ℕ)) → Run) → List ℕ → List (Option (List ℕ)) → Run
linux_answer next buffer [] = stop waiting
linux_answer next buffer (none ∷ more) = show_first buffer (next more)
linux_answer next buffer (some bytes ∷ more) =
    terminated bytes (show_first (until 0 bytes) (next more))

-- The rounds of the loop over what the calls of `fgets` return.
unfoldable pub linux_rounds : List (Option (List ℕ)) → List (Option (List ℕ)) → Run
unfolding linux_answer
linux_rounds [] received = stop running
linux_rounds (none ∷ reads) received = stop quitted
linux_rounds (some line ∷ reads) received =
    let text = until newline (until 0 line) in
    send_first text (linux_answer (linux_rounds reads) text received)

-- What the calls of `fgets(buffer, BUFFER_SIZE, stdin)` return for all that is typed: at most 1023
-- bytes, up to a newline, and NULL at the end. Each takes a byte, so the length is fuel enough.
unfoldable pub typed_reads : ℕ → List ℕ → List (Option (List ℕ))
typed_reads zero stdin = none ∷ []
typed_reads (suc fuel) [] = none ∷ []
typed_reads (suc fuel) (b ∷ stdin) =
    let (chunk, rest) = fgets (buf_size - 1) (b ∷ stdin) in some chunk ∷ typed_reads fuel rest

unfoldable pub linux_client : List ℕ → List (Option (List ℕ)) → Run
unfolding linux_rounds typed_reads
linux_client stdin received = linux_rounds (typed_reads (length stdin) stdin) received

-- Behind the sendto of the Windows client: an error shows nothing.
unfoldable pub windows_answer : (List (Option (List ℕ)) → Run) → List (Option (List ℕ)) → Run
windows_answer next [] = stop waiting
windows_answer next (none ∷ more) = next more
windows_answer next (some bytes ∷ more) = terminated bytes (show_first (until 0 bytes) (next more))

-- `gets` takes a line of any length; the line and its NUL are in the buffer, or behind it.
unfoldable pub windows_client : List (Option (List ℕ)) → List (Option (List ℕ)) → Run
windows_client [] received = stop running
windows_client (none ∷ lines) received = stop quitted
windows_client (some line ∷ lines) received =
    terminated line (send_first (until 0 line) (windows_answer (windows_client lines) received))
