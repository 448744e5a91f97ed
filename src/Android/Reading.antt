-- ===== src/Android/Reading.antt =====
-- `serverRead` of androidServer/src/androidServer.c over the messages of a session of the app.
use fagprojekt.Base.{
  htons, ℕ, suc, ◌≤◌, ◌<◌, ◌≡◌, ◌≢◌, refl, ◌∙◌, ap, true, false, List, [], ◌∷◌, ◌++◌, length, arith,
  ltb, if◌then◌else◌, ok, append_assoc, Option, some,
}
use fagprojekt.Process.{modify, ◌>>=◌, ◌>>◌, >>=_step}
use fagprojekt.Android.{
  AndroidServer, Call, socket, setsockopt, bind, listen, accept, close, minus_one, max,
  exit_message, server_read_func, next_result, call, log, server_read_pass, server_read,
}
use fagprojekt.Android.Exit.{text, same_bytes, server_read_func_lem}
use fagprojekt.Android.Restart.{server_read_pass-restart}

-- Messages that are not EXIT and end in a zero in the array of 64 bytes, each with the descriptor
-- of its connection.
abbrev pub AllPlain : List (ℕ × List ℕ) → Type 0
AllPlain [] = Unit
AllPlain ((fd, m) ∷ ms) =
    (0 < length m)
    × (length m ≤ max)
    × (same_bytes exit_message (text m) ≡ false)
    × (length (text m) < max)
    × AllPlain ms

abbrev pub descriptors : List (ℕ × List ℕ) → List ℕ → List ℕ
descriptors [] rest = rest
descriptors ((fd, m) ∷ ms) rest = fd ∷ descriptors ms rest

abbrev pub received : List (ℕ × List ℕ) → List (Option (List ℕ)) → List (Option (List ℕ))
received [] rest = rest
received ((fd, m) ∷ ms) rest = some m ∷ received ms rest

-- Each message has a connection of its own, which is closed.
abbrev pub visits : ℕ → List (ℕ × List ℕ) → List Call → List Call
visits sockfd [] rest = rest
visits sockfd ((fd, m) ∷ ms) rest = accept sockfd ∷ close fd ∷ visits sockfd ms rest

server_read_pass-connected :
    (s : AndroidServer)
    → s.connected ≡ true
    → server_read_pass s
      ≡ (call (accept s.sockfd) >>= λ fd.
            modify (λ (t : AndroidServer). record t { connfd2 = fd })
            >> (server_read_func >> λ t. log (close t.connfd2) t))
          s
unfolding server_read_pass
server_read_pass-connected s on =
    ap
      (λ b.
        if b
        then (call (accept s.sockfd) >>= λ fd.
              modify (λ (t : AndroidServer). record t { connfd2 = fd })
              >> (server_read_func >> λ t. log (close t.connfd2) t))
            s
        else ok (tt, s))
      on

-- A pass in which a message that is not EXIT comes.
server_read_pass-plain :
    (fd x : ℕ) (bytes later : List ℕ) (reads : List (Option (List ℕ))) (s : AndroidServer)
    → s.connected ≡ true
    → s.results ≡ fd ∷ later
    → s.reads ≡ some (x ∷ bytes) ∷ reads
    → length (x ∷ bytes) ≤ max
    → same_bytes exit_message (text (x ∷ bytes)) ≡ false
    → length (text (x ∷ bytes)) < max
    → server_read_pass s
      ≡ ok (
        tt,
        record s {
          connfd2 = fd;
          results = later;
          reads = reads;
          calls = s.calls ++ (accept s.sockfd ∷ close fd ∷ []);
        },
      )
unfolding call next_result log
server_read_pass-plain fd x bytes later reads s on e re size other fits =
    let s1 : AndroidServer = record s {
      connfd2 = fd;
      results = later;
      calls = s.calls ++ (accept s.sockfd ∷ []);
    } in
    let s2 : AndroidServer = record s1 { reads = reads } in
    let short : ltb (length (text (x ∷ bytes))) max ≡ true = ground arith in
    let done : server_read_func s1 ≡ ok (tt, s2) =
      server_read_func_lem x bytes reads s1 size re ∙ rw (other, short) refl in
    server_read_pass-connected s on
    ∙ rw (e, ◌>>=◌, done) (ap (λ l. ok (tt, record s2 { calls = l })) (simp append_assoc))

-- A session of the app: messages that are not EXIT, of at most 64 bytes with a zero in their array,
-- then EXIT, when the calls that a restart checks succeed. Each message is read from a connection of
-- its own, which is then closed; at the end the old sockets are closed and the server listens anew on
-- the same port, connected with what `accept` returned.
pub server_read-session :
    (ms : List (ℕ × List ℕ)) (x c2 fd r1 r2 c : ℕ) (bytes later : List ℕ)
    (reads : List (Option (List ℕ))) (s : AndroidServer)
    → AllPlain ms
    → s.connected ≡ true
    → s.results ≡ descriptors ms (c2 ∷ fd ∷ r1 ∷ r2 ∷ 0 ∷ 0 ∷ c ∷ later)
    → s.reads ≡ received ms (some (x ∷ bytes) ∷ reads)
    → length (x ∷ bytes) ≤ max
    → same_bytes exit_message (text (x ∷ bytes)) ≡ true
    → fd ≢ minus_one
    → server_read (suc (length ms)) s
      ≡ ok (
        tt,
        record s {
          sockfd = fd;
          connfd = c;
          connfd2 = c2;
          connected = true;
          results = later;
          reads = reads;
          calls =
              s.calls
              ++ visits s.sockfd ms (
                  accept s.sockfd
                  ∷ close s.sockfd
                  ∷ close s.connfd
                  ∷ socket
                  ∷ setsockopt fd 2
                  ∷ setsockopt fd 15
                  ∷ bind fd (htons s.port)
                  ∷ listen fd 5
                  ∷ accept fd
                  ∷ close c2
                  ∷ []);
        },
      )
unfolding server_read
server_read-session [] x c2 fd r1 r2 c bytes later reads s plain on e re size exit good =
    >>=_step server_read_pass (λ _. server_read 0) s
      (server_read_pass-restart x c2 fd r1 r2 c bytes later reads s on e re size exit good)
server_read-session ((d, []) ∷ ms) x c2 fd r1 r2 c bytes later reads s (pos, _, _, _, _) on e re
      size exit good =
    absurd (omega arith)
server_read-session ((d, y ∷ m) ∷ ms) x c2 fd r1 r2 c bytes later reads s
      (pos, small, other, ends, plain) on e re size exit good =
    let results = descriptors ms (c2 ∷ fd ∷ r1 ∷ r2 ∷ 0 ∷ 0 ∷ c ∷ later) in
    let more = received ms (some (x ∷ bytes) ∷ reads) in
    let s1 : AndroidServer = record s {
      connfd2 = d;
      results = results;
      reads = more;
      calls = s.calls ++ (accept s.sockfd ∷ close d ∷ []);
    } in
    >>=_step server_read_pass (λ _. server_read (suc (length ms))) s
      (server_read_pass-plain d y m results more s on e re small other ends)
    ∙ server_read-session ms x c2 fd r1 r2 c bytes later reads s1 plain on refl refl size exit good
    ∙ ap
        (λ l. ok (
          tt,
          record s {
            sockfd = fd;
            connfd = c;
            connfd2 = c2;
            connected = true;
            results = later;
            reads = reads;
            calls = l;
          },
        ))
        (append_assoc s.calls (accept s.sockfd ∷ close d ∷ []) _)
