-- ===== src/Sockets/Calls.antt =====
-- The calls on descriptors that the programs make, as a program of calls: each call is answered
-- with a number, -1 for a failure, and what the program does next depends on the answer.
use game_network.Prelude.{
  ℕ, Bool, true, false, List, ℤ, pos, negsuc, ◌==ℤ◌, minus_one, if◌then◌else◌,
}

-- The socket types of the calls of `socket`, an epoll instance, and standard input.
pub data Kind : Type 0 where
  stream datagram poll input : Kind

-- A `sockaddr_in`: the address and the port as they lie in memory.
pub record SockAddrIn : Type 0 where
  pub host : List ℕ
  pub port : ℕ

-- Options of SOL_SOCKET.
pub data SockOpt : Type 0 where
  send_buffer receive_buffer reuse_address keep_alive : SockOpt

-- `talk` stands for the loop a program has around its descriptor: its conversation, which the
-- modules of the programs model. `poll_create` and `poll_add` are epoll_create, epoll_create1 and
-- EPOLL_CTL_ADD, and on Windows the two uses of CreateIoCompletionPort. `startup` and `cleanup` are
-- the calls of Winsock.
pub data SystemCall : Type 0 where
  startup cleanup : SystemCall
  socket : Kind → SystemCall
  bind : ℤ → SockAddrIn → SystemCall
  listen : ℤ → ℕ → SystemCall
  accept : ℤ → SystemCall
  connect : ℤ → SockAddrIn → SystemCall
  setsockopt : ℤ → SockOpt → ℕ → SystemCall
  getsockopt : ℤ → SockOpt → SystemCall
  poll_create : SystemCall
  poll_add : ℤ → ℤ → SystemCall
  talk : ℤ → SystemCall
  close : ℤ → SystemCall

-- A program: it returns from `main` or a function, leaves by `exit`, stays in a loop that the model
-- does not follow further, or calls the system.
pub data Program (A : Type 0) : Type 0 where
  ret : A → Program A
  exit : ℕ → Program A
  loop : Program A
  call : SystemCall → (ℤ → Program A) → Program A

infixl 5 ◌>>=◌ ◌>>◌
abbrev pub ◌>>=◌ : {A B : Type 0} → Program A → (A → Program B) → Program B
ret a >>= f = f a
exit n >>= f = exit n
loop >>= f = loop
call c k >>= f = call c (λ r. k r >>= f)

abbrev pub ◌>>◌ : {A B : Type 0} → Program A → Program B → Program B
m >> k = m >>= λ _. k

-- A call whose result is used, or not looked at.
abbrev pub make_call : SystemCall → Program ℤ
make_call c = call c ret

-- `x < 0`
abbrev pub below_zero : ℤ → Bool
below_zero (pos n) = false
below_zero (negsuc n) = true

-- `if (call == -1) error_handling(...)`: the message, and `exit(1)`.
unfoldable pub or_die : SystemCall → Program ℤ
or_die c = call c λ r. if r ==ℤ minus_one then exit 1 else ret r

-- `if (call < 0) { perror(...); exit(EXIT_FAILURE); }`
unfoldable pub or_exit : SystemCall → Program ℤ
or_exit c = call c λ r. if below_zero r then exit 1 else ret r
