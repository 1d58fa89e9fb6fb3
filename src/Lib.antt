-- ===== src/Lib.antt =====
-- Game-Network is a course's collection of small network programs in C, one directory for each
-- week: each is a server and a client over BSD sockets (or Winsock), and they share no code. The
-- programs are modelled one by one; what the operating system answers (accept, recv, epoll_wait,
-- malloc, pthread_create) is an argument or a choice of the model, and what a program sends is a
-- list of effects.
--
-- Prelude: names of the libraries, tests on numbers, C's int as far as it is compared (Ints),
-- lists by index (Lists), the scan `for (i...) if (...) return i` (Search), counting (Count),
-- lists of distinct elements (Distinct), C strings as lists of bytes (Text), and numbers in
-- decimal (Decimal).
--
-- Game (week13/lserver.c): the multiplayer server. Types has the structs and the effects, Table
-- the slots (alloc_player, free_player, broadcast_tcp, broadcast_udp), Handlers on_tcp and
-- on_udp, Server the loops of main over the events of epoll_wait. A float is its bit pattern,
-- since the server only copies coordinates; a descriptor is an int with -1 for none; printf is
-- left out. Lobby is the abstract server, in which a free slot has no content, and Refines
-- relates the two. The table has MAX_PLAYERS = 1000 slots from the start of main, and no loop
-- needs fuel. Client has the packets of week13/client.c and its receiving thread. Visit turns
-- what it sends into events of the loop, in the order of the client; Inbox has the packets that
-- go to one connection, and Persist says which events leave a session as it is, Play, Whole and
-- Full have the whole session, on a server with a free slot and on a full one, and Among has it
-- with events of others in between.
--
-- Chat (week7/server.c): the chat server with a thread for each client. Table has the shared
-- array and the sections that hold mutx as functions; Threads interleaves main and the threads of
-- handle_clnt, a section for a step, with every result of malloc, pthread_create, read and close
-- that the source tests; accept returns a number that is not open. Shift and Sections say what
-- the sections do to the list of clients, Invariant and Safety what holds in every reachable
-- state. Client has the two threads of week7/client.c, and Hearing a client that is heard by
-- another through send_msg of the server, however the two streams are cut into reads.
--
-- Files (week5/Iserver.c, week5/Icommon.h, week5/Iclient.c): the file server and its client. A
-- stream is the list of the bytes that the peer sends before it closes. Line has send_line and
-- recv_line, Commands cmd_list and cmd_get, Upload cmd_uplode, Session the loop of handle_client,
-- Download and Send the client's loops over a file, and Client its prompt loop: what it shows,
-- sends and stores, for what the user types (Prompt) and the stream of the server. Uses says what
-- a user does with the server, Together and Loading that a round of the client and a round of the
-- server do each of these together, and Talk puts the rounds one behind the other. A prompt for
-- which no line comes is stream_over, be the connection closed or only silent. What recv returns
-- of a stream is cut by the kernel: the sizes are an argument of the upload. The loops take fuel:
-- file_chunks and send_chunks the length of the file, and receive, handle_loop, listing and
-- download more than the length of the stream; each round takes a byte at least, and
-- receive_ends, handle_loop_enough, listing_enough and download_enough (Receive, Fuel,
-- ClientFuel) are about this being enough. atol is modelled for numbers that a long holds. A send
-- on the way is complete, which blocking sockets on Linux give; its failure is modelled where the
-- source tests it.
--
-- Files.Disks follows week5/Iserver.c from one connection to the next: the disk behind each round
-- and each connection, with the file system's write as an argument, under all paths that lead to
-- the file, and the accepting loop of main; Left has the disk behind an upload, Spares the paths
-- that a connection opens for writing (saves) and that other files stay, and Shelf joins an
-- upload to a download on a later connection.
--
-- Windows (week13/wserver.c): the game server over a completion port. Types, Table and Handlers
-- follow the source as those of Game do, with SOCKET as an unsigned number; Worker has the
-- contexts of the receives under way, the accepting loop of main and a round of worker_thread.
-- View reads a table of this build as one of lserver.c, Port does so for the handlers, and Rounds
-- for the loops; Pending says what holds of the receives under way. Runs has the rounds of main
-- and of the worker in any order, and the events that lserver.c meets for them; Whole takes them
-- from the start of both builds. The buffer and the address of a context are arguments of the
-- round that takes its completion.
--
-- Broadcast (week11/epoll_server.c): the message server over epoll. Server has the array and the
-- loop of main; a turn gives none where the source writes behind the array. Swap takes the array
-- as a multiset of sockets, Delivery says what a turn does to it and who gets a message, and Run
-- does so for the loops. Clients has the clients over epoll and over select
-- (week11/epoll_client.c, week11/select_client_P.c, week11/s_c_p2.c) over what waits for their
-- reads, Selecting compares them, and Relay joins epoll clients to the server: a write of one
-- side is a read of the other.
--
-- Drawing (week6): the drawing messages. Message is the struct of common.h, written by client.c
-- and read by server.c, with memory as bytes from the lowest on; Wire has the round trip and the
-- order on the wire. Text is what var_client.c prints and var_server.c parses: strtok, strstr and
-- sscanf as functions on lists of bytes; Parse has their lemmas, Exchange the two ends together.
-- An argument lists the pieces that read returns, and a number that an int32_t does not hold is
-- cut to its low 32 bits (to_int).
--
-- Command (week3/server.c, week3_Prac/server.c): the command servers. Loop has the loop of main,
-- Server and Practice what the two answer, Bounds which bytes they answer inside their buffers,
-- Session a whole connection of the server, Talk commands as both sides have them, Client the
-- clients over what is typed and what their recv calls return, Answers that what the servers
-- answer is a text that a client takes and prints whole, Served and Unanswered a client with its
-- server: a command goes out with one send and comes in with one recv. The clock is an argument
-- of each round.
--
-- Echo (week2/server.c, week2/client.c, week9/Iserver.c, week9/Iclient.c, week9/wserver.c,
-- week9/wclient.c): the echo programs. Stream has those over a stream, Datagram those over
-- datagrams in their Linux and Windows builds, Talk a client with its server and Builds the two
-- builds against each other. A loop ends in fault where it writes the terminator behind its
-- buffer; behind a failed read it goes on with the string that the buffer holds. typed_reads cuts
-- what is typed into what fgets returns, with the length of it as fuel, since a call takes a
-- byte.
--
-- Sockets: the mains of all programs as calls on descriptors. Calls has the calls and programs
-- made of them (or_die is error_handling and printError, or_exit the perror and exit of week9),
-- Address htons and dotted text, Streams the mains of weeks 2 to 7 (week3/server.c,
-- week3/client.c, week5/Iserver.c, week5/Iclient.c, week6/server.c, week6/client.c,
-- week7/server.c, week7/client.c, and week2), and Polling those of week9, week10, week11 and
-- week13. `talk` stands for the loop of a program on its connection, which the other modules
-- model. Of week7/server.c, week11/epoll_server.c and week13/lserver.c there is the setup only:
-- the calls of their loops are in Chat.Threads, Broadcast.Server and Game.Server. Monitor keeps
-- what the system holds for a process, says which call is in order and which answers there are,
-- and runs a program on a list of answers; the rounds of the file server are as many as asked
-- for. Rules and Heads take all runs of a program apart along its calls, Tidy, Checked and
-- AllChecked treat the programs that test their calls; Orderly, InOrder, GameInOrder and
-- Unchecked those that test none. Practice has the mains of week2_Prac, week3_Prac and of the
-- text variants of week6.
--
-- Summing (week7/thread.c): Threads has main and its ten threads as steps that come in any order
-- (created, not_created, ran, joined), Results what they leave in the array, and Ends that every
-- schedule of them is finite and ends with main's return.
--
-- Sockets.Shown (week4/struct.c, week4_Parc/server.c) and Sockets.Resolve (week4/nyslookup.c,
-- week4_Parc/client.c) are the address exercises: what is printed of an address and of a host.
--
-- Not modelled: the select servers of week11, which do not compile; the versions in Rust and C#.
-- Trusted throughout: the kernel's calls, as far as each file says what they return, and printf,
-- which is left out except in the address exercises of week4, whose output it is.
pub mod Prelude
pub mod Game
pub mod Chat
pub mod Files
pub mod Broadcast
pub mod Drawing
pub mod Command
pub mod Echo
pub mod Windows
pub mod Sockets
pub mod Summing
