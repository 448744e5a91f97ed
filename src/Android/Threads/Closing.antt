-- ===== src/Android/Threads/Closing.antt =====
-- A restart of androidServer.c while the sending thread waits for a line.
use fagprojekt.Base.{
  htons, ℕ, ◌+◌, ◌-◌, ◌≤◌, ◌<◌, ◌≡◌, ◌≢◌, refl, true, List, [], ◌∷◌, ◌++◌, length, arith, Option,
  some, append_assoc,
}
use fagprojekt.Android.{
  AndroidServer, socket, setsockopt, bind, listen, accept, close, write, minus_one, max, zeros,
  exit_message,
}
use fagprojekt.Android.Exit.{text, same_bytes, exit_read}
use fagprojekt.Android.Messages.{NoNewline, read_line-newline}
use fagprojekt.Android.Restart.{open_socket_lem, bind_and_listen_lem, call_lem}
use fagprojekt.Android.Threads.{
  System, accept_own, read_exit, close_own, close_server, close_client, reset_connected, open_anew,
  listen_anew, accept_anew, set_connected, find_connected, call_send_func, write_line, read,
  restart, send, Reach, start, next, threads,
}

-- While the server is connected and the sending thread waits for a line of at most 63 bytes, the app
-- says EXIT, and the calls that the restart checks succeed: it is possible that the server then has
-- its new connection, and the line is written to the descriptor of the old one, after that has been
-- closed.
pub write_closed :
    (x c2 fd r1 r2 c : ℕ) (bytes later line rest : List ℕ) (reads : List (Option (List ℕ)))
    (s : AndroidServer)
    → s.connected ≡ true
    → s.results ≡ c2 ∷ fd ∷ r1 ∷ r2 ∷ 0 ∷ 0 ∷ c ∷ later
    → s.reads ≡ some (x ∷ bytes) ∷ reads
    → length (x ∷ bytes) ≤ max
    → same_bytes exit_message (text (x ∷ bytes)) ≡ true
    → fd ≢ minus_one
    → NoNewline line
    → length line < max
    → s.typed ≡ line ++ (10 ∷ rest)
    → (t : System) × Reach (threads s) t
      × (t.server.connfd ≡ c)
      × (t.server.calls
          ≡ s.calls
            ++ (accept s.sockfd
                ∷ close s.sockfd
                ∷ close s.connfd
                ∷ socket
                ∷ setsockopt fd 2
                ∷ setsockopt fd 15
                ∷ bind fd (htons s.port)
                ∷ listen fd 5
                ∷ accept fd
                ∷ close c2
                ∷ write s.connfd (line ++ (10 ∷ zeros (63 - length line)))
                ∷ []))
write_closed x c2 fd r1 r2 c bytes later line rest reads s on e re size exit good other fits typed =
    let (test, printed) = exit_read (x ∷ bytes) size exit in
    let called = next (next start (send (find_connected refl on))) (send (call_send_func refl)) in
    let own = next called (
      read (
        accept_own c2 _ refl on
          (call_lem (accept s.sockfd) c2 (fd ∷ r1 ∷ r2 ∷ 0 ∷ 0 ∷ c ∷ later) s e))) in
    let leaving = next own (read (read_exit x bytes reads refl re test printed)) in
    let closed = next (next leaving (restart (close_server refl))) (restart (close_client refl)) in
    let reset = next closed (restart (reset_connected refl)) in
    let opened =
      next reset
        (restart (open_anew _ refl (open_socket_lem fd r1 r2 (0 ∷ 0 ∷ c ∷ later) _ good refl))) in
    let listens =
      next opened (restart (listen_anew _ refl (bind_and_listen_lem (c ∷ later) _ refl))) in
    let accepted =
      next listens (restart (accept_anew c _ refl (call_lem (accept fd) c later _ refl))) in
    let again = next (next accepted (restart (set_connected refl))) (read (close_own refl)) in
    (
      _,
      next again (
          send (
            write_line s.connfd (line ++ (10 ∷ zeros (63 - length line))) _ refl
              (read_line-newline line rest [] max (max + 1) _ other fits (omega arith) typed))),
      refl,
      simp append_assoc,
    )
