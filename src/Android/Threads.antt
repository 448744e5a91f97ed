-- ===== src/Android/Threads.antt =====
-- The two threads of androidServer.c over their shared variables, interleaved. A call on a socket, a
-- test of `connected` and an assignment to one of the shared variables is a step; what `startServer`
-- does before its `accept` touches nothing that the sending thread reads, and is two. The sending
-- thread calls `serverSendFunc` with the connection of that moment in one step, and has its line and
-- writes it in another.
pub mod Closing
pub mod Typed
use fagprojekt.Base.{
  ℕ, ◌+◌, ◌-◌, ◌≡◌, Bool, true, false, List, [], ◌∷◌, ◌++◌, length, Option, none, some, ok,
}
use fagprojekt.Android.{
  AndroidServer, accept, close, write, max, zeros, exit_message, str_equal, print_string, read_line,
  call, open_socket, bind_and_listen,
}

-- Where the reading thread stands: before its test of `connected`; with a connection of its own; in
-- the restart before each line up to the reset of `connected`, before the two parts of `startServer`
-- and its `accept`, and before `connected` is set again; and before it closes its connection.
pub data Reader : Type 0 where
  before_accept in_read_func : Reader
  closing_server closing_client resetting : Reader
  opening binding accepting setting : Reader
  closing_own : Reader

-- Where the sending thread stands: before the test of `connected`, before the read of `connfd` for
-- its call, or in `serverSendFunc` with the connection that was handed to it.
pub data Sender : Type 0 where
  before_test before_call : Sender
  in_send_func : ℕ → Sender

pub record System : Type 0 where
  pub server : AndroidServer
  pub reader : Reader
  pub sender : Sender

-- The array of `serverReadFunc` after `read`.
abbrev pub received : List ℕ → List ℕ
received bytes = bytes ++ zeros (max - length bytes)

-- A step of `serverRead` and `serverReadFunc`.
pub data ReadStep : System → System → Type 0 where
  find_closed : {s : System} → s.reader ≡ before_accept → s.server.connected ≡ false → ReadStep s s
  accept_own :
      {s : System} (fd : ℕ) (t : AndroidServer)
      → s.reader ≡ before_accept
      → s.server.connected ≡ true
      → call (accept s.server.sockfd) s.server ≡ ok (fd, t)
      → ReadStep s (record s { server = record t { connfd2 = fd }; reader = in_read_func })
  read_error :
      {s : System} (reads : List (Option (List ℕ)))
      → s.reader ≡ in_read_func
      → s.server.reads ≡ none ∷ reads
      → ReadStep s (record s { server = record (s.server) { reads = reads }; reader = closing_own })
  read_end :
      {s : System} (reads : List (Option (List ℕ)))
      → s.reader ≡ in_read_func
      → s.server.reads ≡ some [] ∷ reads
      → ReadStep s (record s { server = record (s.server) { reads = reads }; reader = closing_own })
  read_message :
      {s : System} (x : ℕ) (bytes : List ℕ) (reads : List (Option (List ℕ)))
      → s.reader ≡ in_read_func
      → s.server.reads ≡ some (x ∷ bytes) ∷ reads
      → str_equal (exit_message ++ (0 ∷ [])) (received (x ∷ bytes)) ≡ ok false
      → print_string (received (x ∷ bytes)) ≡ ok tt
      → ReadStep s (record s { server = record (s.server) { reads = reads }; reader = closing_own })
  read_exit :
      {s : System} (x : ℕ) (bytes : List ℕ) (reads : List (Option (List ℕ)))
      → s.reader ≡ in_read_func
      → s.server.reads ≡ some (x ∷ bytes) ∷ reads
      → str_equal (exit_message ++ (0 ∷ [])) (received (x ∷ bytes)) ≡ ok true
      → print_string (received (x ∷ bytes)) ≡ ok tt
      → ReadStep s
          (record s { server = record (s.server) { reads = reads }; reader = closing_server })
  close_own :
      {s : System}
      → s.reader ≡ closing_own
      → ReadStep s (record s {
        server = record (s.server) { calls = s.server.calls ++ (close s.server.connfd2 ∷ []) };
        reader = before_accept;
      })

-- A step of the restart.
pub data RestartStep : System → System → Type 0 where
  close_server :
      {s : System}
      → s.reader ≡ closing_server
      → RestartStep s (record s {
        server = record (s.server) { calls = s.server.calls ++ (close s.server.sockfd ∷ []) };
        reader = closing_client;
      })
  close_client :
      {s : System}
      → s.reader ≡ closing_client
      → RestartStep s (record s {
        server = record (s.server) { calls = s.server.calls ++ (close s.server.connfd ∷ []) };
        reader = resetting;
      })
  reset_connected :
      {s : System}
      → s.reader ≡ resetting
      → RestartStep s
          (record s { server = record (s.server) { connected = false }; reader = opening })
  open_anew :
      {s : System} (t : AndroidServer)
      → s.reader ≡ opening
      → open_socket s.server ≡ ok (tt, t)
      → RestartStep s (record s { server = t; reader = binding })
  listen_anew :
      {s : System} (t : AndroidServer)
      → s.reader ≡ binding
      → bind_and_listen s.server ≡ ok (tt, t)
      → RestartStep s (record s { server = t; reader = accepting })
  accept_anew :
      {s : System} (fd : ℕ) (t : AndroidServer)
      → s.reader ≡ accepting
      → call (accept s.server.sockfd) s.server ≡ ok (fd, t)
      → RestartStep s (record s { server = record t { connfd = fd }; reader = setting })
  set_connected :
      {s : System}
      → s.reader ≡ setting
      → RestartStep s
          (record s { server = record (s.server) { connected = true }; reader = closing_own })

-- A step of `serverSend` and `serverSendFunc`.
pub data SendStep : System → System → Type 0 where
  wait : {s : System} → s.sender ≡ before_test → s.server.connected ≡ false → SendStep s s
  find_connected :
      {s : System}
      → s.sender ≡ before_test
      → s.server.connected ≡ true
      → SendStep s (record s { sender = before_call })
  call_send_func :
      {s : System}
      → s.sender ≡ before_call
      → SendStep s (record s { sender = in_send_func s.server.connfd })
  write_line :
      {s : System} (fd : ℕ) (buff : List ℕ) (t : AndroidServer)
      → s.sender ≡ in_send_func fd
      → read_line (max + 1) 0 (zeros max) s.server ≡ ok (buff, t)
      → SendStep s (record s {
        server = record t { calls = t.calls ++ (write fd buff ∷ []) };
        sender = before_test;
      })

pub data Step (s t : System) : Type 0 where
  read : ReadStep s t → Step s t
  restart : RestartStep s t → Step s t
  send : SendStep s t → Step s t

-- The states that are reached from `s`.
pub data Reach (s : System) : System → Type 0 where
  start : Reach s s
  next : {t u : System} → Reach s t → Step t u → Reach s u

-- Both threads at the start of their loops.
abbrev pub threads : AndroidServer → System
threads s = record { server = s; reader = before_accept; sender = before_test }
