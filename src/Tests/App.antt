-- ===== src/Tests/App.antt =====
-- The android server with messages of the app and lines typed at the terminal.
use fagprojekt.Base.{
  ℕ, ◌+◌, ◌≡◌, ◌++◌, refl, true, false, List, [], ◌∷◌, inr, arith, Option, some, ok, fault,
}
use fagprojekt.Process.{pure, ◌>>◌}
use fagprojekt.Android.{
  AndroidServer, socket, setsockopt, bind, listen, accept, close, write, zeros, server_send_func,
  server_send, max, server_read_func, restart, server_read, run_server, main,
}
use fagprojekt.Android.Messages.{server_send_func-overrun, read_line-newline}
use fagprojekt.Android.Sending.{server_send-lines, AllShort, typed_lines}
use fagprojekt.Android.Lines.{padded}
use fagprojekt.Android.Restart.{call_lem}
use fagprojekt.Android.Threads.Typed.{is_up, typed_lem}
use fagprojekt.Android.Exit.{server_read_func_lem, exit_read}
use fagprojekt.Android.Reading.{server_read-session}
use fagprojekt.Android.Port.{main_lem}
use fagprojekt.Android.Threads.{
  System, Reach, threads, opening, before_test, start, next, send, read, restart as restart_step,
  find_connected, call_send_func, accept_own, read_exit, close_server, close_client,
  reset_connected, write_line,
}
use fagprojekt.Android.Threads.Closing.{write_closed}

abbrev app : List ℕ → List (Option (List ℕ)) → List ℕ → AndroidServer
app results reads typed = record {
  sockfd = 3;
  connfd = 4;
  connfd2 = 0;
  connected = true;
  port = 5001;
  results = results;
  reads = reads;
  typed = typed;
  calls = [];
}

abbrev nothing_listened : AndroidServer
nothing_listened = app [] [] []

-- "Hi" and "A" are typed.
server_send-lines_example :
    server_send 2 (app [] [] (72 ∷ 105 ∷ 10 ∷ 65 ∷ 10 ∷ 33 ∷ []))
    ≡ ok (
      tt,
      record (app [] [] (33 ∷ [])) {
        calls = write 4 (72 ∷ 105 ∷ 10 ∷ zeros 61) ∷ write 4 (65 ∷ 10 ∷ zeros 62) ∷ [];
      },
    )
server_send-lines_example =
    server_send-lines ((72 ∷ 105 ∷ []) ∷ (65 ∷ []) ∷ []) (33 ∷ [])
      (app [] [] (72 ∷ 105 ∷ 10 ∷ 65 ∷ 10 ∷ 33 ∷ [])) (omega arith) refl refl

-- The end of the input without a newline.
server_send_func-overrun_example : server_send_func (app [] [] (72 ∷ 105 ∷ [])) ≡ fault
server_send_func-overrun_example =
    server_send_func-overrun (72 ∷ 105 ∷ []) [] (app [] [] (72 ∷ 105 ∷ []))
      ((λ e. omega arith), ((λ e. omega arith), tt)) (inr refl) refl

-- Only the bytes before the first zero count.
server_read_func_lem_example :
    server_read_func (app [] (some (69 ∷ 88 ∷ 73 ∷ 84 ∷ 0 ∷ 33 ∷ []) ∷ []) [])
    ≡ restart nothing_listened
server_read_func_lem_example =
    server_read_func_lem 69 (88 ∷ 73 ∷ 84 ∷ 0 ∷ 33 ∷ []) []
      (app [] (some (69 ∷ 88 ∷ 73 ∷ 84 ∷ 0 ∷ 33 ∷ []) ∷ []) []) (omega arith) refl

abbrev leaving : AndroidServer
leaving = app (5 ∷ 6 ∷ 0 ∷ 0 ∷ 0 ∷ 0 ∷ 4294967295 ∷ []) (some (69 ∷ 88 ∷ 73 ∷ 84 ∷ []) ∷ []) []

-- The last `accept` fails.
abbrev restarted_app : AndroidServer
restarted_app = record (app [] [] []) {
  sockfd = 6;
  connfd = 4294967295;
  connfd2 = 5;
  calls =
      accept 3
      ∷ close 3
      ∷ close 4
      ∷ socket
      ∷ setsockopt 6 2
      ∷ setsockopt 6 15
      ∷ bind 6 35091
      ∷ listen 6 5
      ∷ accept 6
      ∷ close 5
      ∷ [];
}

-- "Hi" comes, then EXIT.
server_read-session_example :
    server_read 2 (record leaving {
      results = 7 ∷ leaving.results;
      reads = some (72 ∷ 105 ∷ []) ∷ some (69 ∷ 88 ∷ 73 ∷ 84 ∷ []) ∷ [];
    })
    ≡ ok (tt, record restarted_app { calls = accept 3 ∷ close 7 ∷ restarted_app.calls })
server_read-session_example =
    server_read-session ((7, 72 ∷ 105 ∷ []) ∷ []) 69 5 6 0 0 4294967295 (88 ∷ 73 ∷ 84 ∷ []) [] []
      (record leaving {
        results = 7 ∷ leaving.results;
        reads = some (72 ∷ 105 ∷ []) ∷ some (69 ∷ 88 ∷ 73 ∷ 84 ∷ []) ∷ [];
      })
      (omega arith, omega arith, refl, omega arith, tt) refl refl refl (omega arith) refl
      (λ e. omega arith)

main_runs :
    (main (λ a. 7) ("android" ∷ "-p" ∷ "7" ∷ "-p" ∷ []) nothing_listened
      ≡ (run_server 7 >> pure true) nothing_listened)
    × (main (λ a. 7) ("android" ∷ "-p" ∷ []) nothing_listened ≡ fault)
    × (main (λ a. 7) ("android" ∷ []) nothing_listened ≡ ok (false, nothing_listened))
main_runs = main_lem (λ a. 7) ("android" ∷ []) "7" ("-p" ∷ []) nothing_listened (refl, tt)

-- The line is "A".
write_closed_example :
    (t : System) × Reach (threads (record leaving { typed = 65 ∷ 10 ∷ [] })) t
    × (t.server.connfd ≡ 4294967295)
    × (t.server.calls ≡ restarted_app.calls ++ (write 4 (65 ∷ 10 ∷ zeros 62) ∷ []))
write_closed_example =
    write_closed 69 5 6 0 0 4294967295 (88 ∷ 73 ∷ 84 ∷ []) [] (65 ∷ []) [] []
      (record leaving { typed = 65 ∷ 10 ∷ [] }) refl refl refl (omega arith) refl (λ e. omega arith)
      ((λ e. omega arith), tt) (omega arith) refl

-- The line "A" is written in the middle of the restart, after `connected` was reset.
abbrev half_restarted : System
half_restarted = record {
  server = record leaving {
    connfd2 = 5;
    connected = false;
    results = 6 ∷ 0 ∷ 0 ∷ 0 ∷ 0 ∷ 4294967295 ∷ [];
    reads = [];
    calls = accept 3 ∷ close 3 ∷ close 4 ∷ write 4 (65 ∷ 10 ∷ zeros 62) ∷ [];
  };
  reader = opening;
  sender = before_test;
}

half_restarted-Reach : Reach (threads (record leaving { typed = 65 ∷ 10 ∷ [] })) half_restarted
half_restarted-Reach =
    let s : AndroidServer = record leaving { typed = 65 ∷ 10 ∷ [] } in
    let (test, printed) = exit_read (69 ∷ 88 ∷ 73 ∷ 84 ∷ []) (omega arith) refl in
    let called = next (next start (send (find_connected refl refl))) (send (call_send_func refl)) in
    let own = next called (read (accept_own 5 _ refl refl (call_lem (accept 3) 5 _ s refl))) in
    let exit = next own (read (read_exit 69 (88 ∷ 73 ∷ 84 ∷ []) [] refl refl test printed)) in
    let closed =
      next (next exit (restart_step (close_server refl))) (restart_step (close_client refl)) in
    next (next closed (restart_step (reset_connected refl))) (
      send (
        write_line 4 (65 ∷ 10 ∷ zeros 62) _ refl (
          read_line-newline (65 ∷ []) [] [] max (max + 1) _ ((λ e. omega arith), tt) (omega arith)
            (omega arith) refl)))

typed_lem_example :
    (ls : List (List ℕ)) × AllShort ls
    × (65 ∷ 10 ∷ [] ≡ typed_lines ls [])
    × ((65 ∷ 10 ∷ zeros 62) ∷ [] ≡ [] ++ padded ls)
    × (false ≡ is_up opening)
typed_lem_example = typed_lem refl half_restarted-Reach
