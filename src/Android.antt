-- ===== src/Android.antt =====
-- androidServer/src/androidServer.c: a TCP server that restarts when the app says EXIT, and a
-- second thread that sends the lines typed at the terminal. The results of the system calls are
-- lists in the state, and the calls that it makes are logged there.
pub mod Messages
pub mod Exit
pub mod Restart
pub mod Quiet
pub mod Connected
pub mod Port
pub mod Fifo
pub mod Threads
pub mod Sending
pub mod Lines
pub mod Reading
use Prim.Native.String.{String}
use text.Mathlib.Text.{◌==◌ as str_eq}
use fagprojekt.Base.{
  ℕ, zero, suc, ◌+◌, ◌*◌, ◌-◌, ◌/◌, ◌%◌, ◌^◌, Bool, true, false, List, [], ◌∷◌, ◌++◌, ltb, leb,
  ◌==◌, if◌then◌else◌, Option, none, some, length, htons, Outcome, ok, fault, exits, pending,
}
use fagprojekt.Memory.{put_at}
use fagprojekt.Process.{Process, pure, lift, modify, ◌>>=◌, ◌>>◌}

-- MAX
abbrev pub max : ℕ
max = 64

-- The calls on the sockets, with the arguments that the program chooses.
pub data Call : Type 0 where
  socket : Call
  setsockopt bind listen : ℕ → ℕ → Call
  accept close : ℕ → Call
  write : ℕ → List ℕ → Call

-- The globals of androidServer.c but `servaddr`, `cli` and `len`; the results to come of the calls
-- that return one, of `read` (`none` on an error) and of `getchar`; and the calls made.
pub record AndroidServer : Type 0 where
  pub sockfd : ℕ
  pub connfd : ℕ
  pub connfd2 : ℕ
  pub connected : Bool
  pub port : ℕ
  pub results : List ℕ
  pub reads : List (Option (List ℕ))
  pub typed : List ℕ
  pub calls : List Call

abbrev pub minus_one : ℕ
minus_one = 2 ^ 32 - 1

unfoldable pub log : Call → Process AndroidServer (Unit {0})
log c = modify (λ s. record s { calls = s.calls ++ (c ∷ []) })

next_result : Process AndroidServer ℕ
next_result s = elim s.results [ [] ↦ pending | n ∷ rest ↦ ok (n, record s { results = rest }) ]

-- A call that returns an `int`; it blocks when there is no more result.
unfoldable pub call : Call → Process AndroidServer ℕ
unfolding log next_result
call c = log c >> next_result

unless_exit : Bool → Process AndroidServer (Unit {0})
unless_exit failed s = if failed then exits 0 else ok (tt, s)

-- SO_REUSEADDR is 2 and SO_REUSEPORT 15; a failure of either is only printed.
unfoldable pub open_socket : Process AndroidServer (Unit {0})
unfolding call unless_exit
open_socket = do
  fd ← call socket
  modify (λ s. record s { sockfd = fd })
  unless_exit (fd == minus_one)
  _ ← call (setsockopt fd 2)
  _ ← call (setsockopt fd 15)
  pure tt

unfoldable pub bind_and_listen : Process AndroidServer (Unit {0})
unfolding call unless_exit
bind_and_listen s =
    (do
      bound ← call (bind s.sockfd (htons s.port))
      unless_exit (if bound == 0 then false else true)
      listening ← call (listen s.sockfd 5)
      unless_exit (if listening == 0 then false else true))
      s

-- A failure of `accept` is only printed.
unfoldable pub accept_client : Process AndroidServer (Unit {0})
unfolding call
accept_client s =
    (do fd ← call (accept s.sockfd); modify (λ t. record t { connfd = fd; connected = true })) s

unfoldable pub start_server : Process AndroidServer (Unit {0})
unfolding open_socket bind_and_listen accept_client
start_server = open_socket >> (bind_and_listen >> accept_client)

-- `n` bytes of zero.
unfoldable pub zeros : ℕ → List ℕ
zeros zero = []
zeros (suc n) = 0 ∷ zeros n

-- strcmp(a, b) == 0 for arrays that need not be terminated.
unfoldable pub str_equal : List ℕ → List ℕ → Outcome Bool
str_equal [] b = fault
str_equal (x ∷ a) [] = fault
str_equal (x ∷ a) (y ∷ b) =
    let rest = str_equal a b in if x == y then (if x == 0 then ok true else rest) else ok false

-- What "%s" reads of an array: it must be terminated.
unfoldable pub print_string : List ℕ → Outcome (Unit {0})
print_string [] = fault
print_string (x ∷ a) = let rest = print_string a in if x == 0 then ok tt else rest

-- "EXIT"
abbrev pub exit_message : List ℕ
exit_message = 69 ∷ 88 ∷ 73 ∷ 84 ∷ []

unfoldable pub restart : Process AndroidServer (Unit {0})
unfolding log
restart s =
    (do
      log (close s.sockfd)
      log (close s.connfd)
      modify (λ t. record t { connected = false })
      start_server)
      s

-- The branches of `serverReadFunc` for an array that was read into.
unfoldable pub handle_message : List ℕ → Process AndroidServer (Unit {0})
unfolding str_equal print_string
handle_message buff = do
  leaving ← lift (str_equal (exit_message ++ (0 ∷ [])) buff)
  lift (print_string buff)
  if leaving then restart else pure tt

-- `read` gives at most as many bytes as the array holds; the others stay zero.
unfoldable pub server_read_func : Process AndroidServer (Unit {0})
unfolding zeros
server_read_func s = elim s.reads [
  | [] ↦ pending
  | none ∷ rest ↦ ok (tt, record s { reads = rest })
  | some [] ∷ rest ↦ ok (tt, record s { reads = rest })
  | some (x ∷ bytes) ∷ rest ↦
      handle_message ((x ∷ bytes) ++ zeros (max - length (x ∷ bytes))) (record s { reads = rest })
]

-- A pass of the loops of `serverRead`.
unfoldable pub server_read_pass : Process AndroidServer (Unit {0})
unfolding call log
server_read_pass s =
    if s.connected
    then (do
      fd ← call (accept s.sockfd)
      modify (λ t. record t { connfd2 = fd })
      server_read_func
      (λ t. log (close t.connfd2) t))
        s
    else ok (tt, s)

-- `serverRead` never returns: this is where it stands after some passes.
unfoldable pub server_read : ℕ → Process AndroidServer (Unit {0})
server_read zero = pure tt
server_read (suc passes) = server_read_pass >> server_read passes

-- `getchar`, cut to a `char`: EOF is 255.
unfoldable pub get_char : Process AndroidServer ℕ
get_char s = elim s.typed [ [] ↦ ok (255, s) | x ∷ rest ↦ ok (x, record s { typed = rest }) ]

-- The loop of `serverSendFunc` from index `n` on; there are `left` places from there to the end of
-- the array and one pass more.
unfoldable pub read_line : ℕ → ℕ → List ℕ → Process AndroidServer (List ℕ)
unfolding get_char
read_line zero n buff s = pending
read_line (suc left) n buff s =
    (do
      x ← get_char
      buff' ← lift (put_at buff n x)
      if x == 10 then pure buff' else read_line left (n + 1) buff')
      s

-- `serverSendFunc`: the whole array is written.
unfoldable pub server_send_func : Process AndroidServer (Unit {0})
unfolding read_line log
server_send_func s = (do buff ← read_line (max + 1) 0 (zeros max); log (write s.connfd buff)) s

-- A pass of the loops of `serverSend`.
unfoldable pub server_send_pass : Process AndroidServer (Unit {0})
unfolding server_send_func
server_send_pass s = if s.connected then server_send_func s else ok (tt, s)

-- `serverSend` never returns: this is where it stands after some passes.
unfoldable pub server_send : ℕ → Process AndroidServer (Unit {0})
unfolding server_send_pass
server_send zero = pure tt
server_send (suc passes) = server_send_pass >> server_send passes

-- `runServer` up to the start of the threads, after which it does not return.
unfoldable pub run_server : ℕ → Process AndroidServer (Unit {0})
unfolding start_server
run_server port = modify (λ s. record s { port = port }) >> start_server

-- `true` says that the threads run, `atoi` is the library's.
unfoldable pub main : (String → ℕ) → List String → Process AndroidServer Bool
main atoi [] = pure false
main atoi (a ∷ []) = if str_eq a "-p" then lift fault else pure false
main atoi (a ∷ v ∷ rest) =
    let next = main atoi (v ∷ rest) in
    if str_eq a "-p" then run_server (atoi v) >> pure true else next
