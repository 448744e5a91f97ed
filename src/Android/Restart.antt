-- ===== src/Android/Restart.antt =====
-- The restart of the server when the app says EXIT.
use fagprojekt.Base.{
  htons, ℕ, ◌≤◌, ◌≡◌, ◌≢◌, refl, ◌∙◌, ap, true, false, List, [], ◌∷◌, ◌++◌, ◌==◌, length, arith, ok,
  append_assoc, Option, some,
}
use fagprojekt.Process.{◌>>=◌, ◌>>◌, >>=_step}
use fagprojekt.Android.{
  AndroidServer, Call, socket, setsockopt, bind, listen, accept, close, minus_one, max,
  exit_message, server_read_func, restart, start_server, open_socket, bind_and_listen,
  accept_client, next_result, unless_exit, call, log, server_read_pass,
}
use fagprojekt.Android.Exit.{text, same_bytes, server_read_func_lem}

pub call_lem :
    (c : Call) (n : ℕ) (later : List ℕ) (s : AndroidServer)
    → s.results ≡ n ∷ later
    → call c s ≡ ok (n, record s { results = later; calls = s.calls ++ (c ∷ []) })
unfolding call next_result log
call_lem c n later s e = rw e refl

pub open_socket_lem :
    (fd r1 r2 : ℕ) (later : List ℕ) (s : AndroidServer)
    → fd ≢ minus_one
    → s.results ≡ fd ∷ r1 ∷ r2 ∷ later
    → open_socket s
      ≡ ok (
        tt,
        record s {
          sockfd = fd;
          results = later;
          calls = s.calls ++ (socket ∷ setsockopt fd 2 ∷ setsockopt fd 15 ∷ []);
        },
      )
unfolding open_socket call next_result unless_exit log
open_socket_lem fd r1 r2 later s good e =
    let opened : (fd == minus_one) ≡ false = ground arith in
    rw (e, ◌>>=◌, opened)
      (ap (λ l. ok (tt, record s { sockfd = fd; results = later; calls = l })) (simp append_assoc))

pub bind_and_listen_lem :
    (later : List ℕ) (s : AndroidServer)
    → s.results ≡ 0 ∷ 0 ∷ later
    → bind_and_listen s
      ≡ ok (
        tt,
        record s {
          results = later;
          calls = s.calls ++ (bind s.sockfd (htons s.port) ∷ listen s.sockfd 5 ∷ []);
        },
      )
unfolding bind_and_listen call next_result unless_exit log
bind_and_listen_lem later s e = rw (e, ◌>>=◌, append_assoc) refl

pub accept_client_lem :
    (c : ℕ) (later : List ℕ) (s : AndroidServer)
    → s.results ≡ c ∷ later
    → accept_client s
      ≡ ok (
        tt,
        record s {
          connfd = c;
          connected = true;
          results = later;
          calls = s.calls ++ (accept s.sockfd ∷ []);
        },
      )
unfolding accept_client call next_result log
accept_client_lem c later s e = rw e refl

-- The server that listens anew on the descriptor `fd` and has the connection `c`, after the calls
-- of a restart.
abbrev pub restarted : ℕ → ℕ → List ℕ → AndroidServer → AndroidServer
restarted fd c later s = record s {
  sockfd = fd;
  connfd = c;
  connected = true;
  results = later;
  calls =
      s.calls
      ++ (close s.sockfd
          ∷ close s.connfd
          ∷ socket
          ∷ setsockopt fd 2
          ∷ setsockopt fd 15
          ∷ bind fd (htons s.port)
          ∷ listen fd 5
          ∷ accept fd
          ∷ []);
}

restart_lem :
    (fd c r1 r2 : ℕ) (later : List ℕ) (s : AndroidServer)
    → fd ≢ minus_one
    → s.results ≡ fd ∷ r1 ∷ r2 ∷ 0 ∷ 0 ∷ c ∷ later
    → restart s ≡ ok (tt, restarted fd c later s)
unfolding restart start_server log
restart_lem fd c r1 r2 later s good e =
    let s1 : AndroidServer = record s {
      connected = false;
      calls = (s.calls ++ (close s.sockfd ∷ [])) ++ (close s.connfd ∷ []);
    } in
    let s2 : AndroidServer = record s1 {
      sockfd = fd;
      results = 0 ∷ 0 ∷ c ∷ later;
      calls = s1.calls ++ (socket ∷ setsockopt fd 2 ∷ setsockopt fd 15 ∷ []);
    } in
    let s3 : AndroidServer = record s2 {
      results = c ∷ later;
      calls = s2.calls ++ (bind fd (htons s.port) ∷ listen fd 5 ∷ []);
    } in
    >>=_step open_socket (λ _. bind_and_listen >> accept_client) s1
      (open_socket_lem fd r1 r2 (0 ∷ 0 ∷ c ∷ later) s1 good e)
    ∙ >>=_step bind_and_listen (λ _. accept_client) s2 (bind_and_listen_lem (c ∷ later) s2 refl)
    ∙ accept_client_lem c later s3 refl
    ∙ ap (λ l. ok (tt, record (restarted fd c later s) { calls = l })) (simp append_assoc)

-- A pass of the reading thread in which the app says EXIT, and the calls of the restart succeed but
-- for `setsockopt` and the last `accept`, whose results do not matter: both old sockets are closed,
-- the server listens anew on the same port and counts as connected with what `accept` returned,
-- and the connection that brought the message is closed.
pub server_read_pass-restart :
    (x c2 fd r1 r2 c : ℕ) (bytes later : List ℕ) (reads : List (Option (List ℕ)))
    (s : AndroidServer)
    → s.connected ≡ true
    → s.results ≡ c2 ∷ fd ∷ r1 ∷ r2 ∷ 0 ∷ 0 ∷ c ∷ later
    → s.reads ≡ some (x ∷ bytes) ∷ reads
    → length (x ∷ bytes) ≤ max
    → same_bytes exit_message (text (x ∷ bytes)) ≡ true
    → fd ≢ minus_one
    → server_read_pass s
      ≡ ok (
        tt,
        record s {
          sockfd = fd;
          connfd = c;
          connfd2 = c2;
          connected = true;
          results = later;
          reads = reads;
          calls =
              s.calls
              ++ (accept s.sockfd
                  ∷ close s.sockfd
                  ∷ close s.connfd
                  ∷ socket
                  ∷ setsockopt fd 2
                  ∷ setsockopt fd 15
                  ∷ bind fd (htons s.port)
                  ∷ listen fd 5
                  ∷ accept fd
                  ∷ close c2
                  ∷ []);
        },
      )
unfolding server_read_pass call next_result log
server_read_pass-restart x c2 fd r1 r2 c bytes later reads s on e re size exit good =
    let s1 : AndroidServer = record s {
      connfd2 = c2;
      results = fd ∷ r1 ∷ r2 ∷ 0 ∷ 0 ∷ c ∷ later;
      calls = s.calls ++ (accept s.sockfd ∷ []);
    } in
    let s2 : AndroidServer = record s1 { reads = reads } in
    let done : server_read_func s1 ≡ ok (tt, restarted fd c later s2) =
      server_read_func_lem x bytes reads s1 size re
      ∙ rw exit (restart_lem fd c r1 r2 later s2 good refl) in
    rw (on, e, ◌>>=◌, done)
      (ap (λ l. ok (tt, record (restarted fd c later s2) { calls = l })) (simp append_assoc))
