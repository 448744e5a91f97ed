-- ===== src/Android/Connected.antt =====
-- Whether the server counts as connected, through the passes of the reading thread.
use fagprojekt.Base.{
  ℕ, zero, suc, ◌-◌, ◌≡◌, refl, sym, ◌∙◌, ap, Bool, true, false, List, [], ◌∷◌, ◌++◌, if◌then◌else◌,
  length, Outcome, ok, fault, exits, pending, none, Option, some,
}
use fagprojekt.Process.{Process, pure, ◌>>=◌, ◌>>◌, lift, modify, >>=_inv}
use fagprojekt.Android.{
  AndroidServer, Call, accept, close, max, zeros, exit_message, str_equal, print_string,
  handle_message, server_read_func, restart, start_server, open_socket, bind_and_listen,
  accept_client, next_result, call, log, server_read_pass, server_read,
}
use fagprojekt.Android.Restart.{accept_client_lem}

accept_client-stuck : (s : AndroidServer) → s.results ≡ [] → accept_client s ≡ pending
unfolding accept_client call next_result log
accept_client-stuck s e = rw e refl

accept_client-connected :
    (l : List ℕ) (s s' : AndroidServer)
    → s.results ≡ l
    → accept_client s ≡ ok (tt, s')
    → s'.connected ≡ true
accept_client-connected [] s s' e done =
    let no : ◌≡◌ {A = Outcome (Unit {0} × AndroidServer)} pending (ok (tt, s')) =
      sym (accept_client-stuck s e) ∙ done in
    cc
accept_client-connected (c ∷ later) s s' e done =
    let s1 : AndroidServer = record s {
      connfd = c;
      connected = true;
      results = later;
      calls = s.calls ++ (accept s.sockfd ∷ []);
    } in
    let same : ◌≡◌ {A = Outcome (Unit {0} × AndroidServer)} (ok (tt, s1)) (ok (tt, s')) =
      sym (accept_client_lem c later s e) ∙ done in
    ap (λ (t : AndroidServer). t.connected) {x = s'} {y = s1} (cc same)

start_server-connected : (s s' : AndroidServer) → start_server s ≡ ok (tt, s') → s'.connected ≡ true
unfolding start_server
start_server-connected s s' e =
    let (_, s1, _, e1) = >>=_inv open_socket (λ _. bind_and_listen >> accept_client) s e in
    let (_, s2, _, e2) = >>=_inv bind_and_listen (λ _. accept_client) s1 e1 in
    accept_client-connected s2.results s2 s' refl e2

restart-connected : (s s' : AndroidServer) → restart s ≡ ok (tt, s') → s'.connected ≡ true
unfolding restart log
restart-connected s s' e = start_server-connected _ s' e

lift-same :
    {A : Type 0} (o : Outcome A) (a : A) (s s' : AndroidServer) → lift o s ≡ ok (a, s') → s' ≡ s
lift-same (ok b) a s s' e = cc
lift-same fault a s s' e = cc
lift-same (exits c) a s s' e = cc
lift-same pending a s s' e = cc

restart_if-connected :
    (leaving : Bool) (s s' : AndroidServer)
    → (if leaving then restart else pure tt) s ≡ ok (tt, s')
    → s.connected ≡ true
    → s'.connected ≡ true
restart_if-connected true s s' e on = restart-connected s s' e
restart_if-connected false s s' e on =
    ap (λ (t : AndroidServer). t.connected) {x = s'} {y = s} (cc e) ∙ on

handle_message-connected :
    (buff : List ℕ) (s s' : AndroidServer)
    → handle_message buff s ≡ ok (tt, s')
    → s.connected ≡ true
    → s'.connected ≡ true
unfolding handle_message
handle_message-connected buff s s' e on =
    let (leaving, s1, e1, e2) =
      >>=_inv (lift (str_equal (exit_message ++ (0 ∷ [])) buff))
        (λ b. lift (print_string buff) >> (if b then restart else pure tt)) s e in
    let (_, s2, e3, e4) =
      >>=_inv (lift (print_string buff)) (λ _. if leaving then restart else pure tt) s1 e2 in
    let kept : s2 ≡ s = lift-same (print_string buff) _ s1 s2 e3 ∙ lift-same _ leaving s s1 e1 in
    restart_if-connected leaving s2 s' e4 (ap (λ (t : AndroidServer). t.connected) kept ∙ on)

server_read_func-connected :
    (l : List (Option (List ℕ))) (s s' : AndroidServer)
    → s.reads ≡ l
    → server_read_func s ≡ ok (tt, s')
    → s.connected ≡ true
    → s'.connected ≡ true
unfolding server_read_func
server_read_func-connected [] s s' e done on =
    let no : ◌≡◌ {A = Outcome (Unit {0} × AndroidServer)} pending (ok (tt, s')) =
      rw e refl ∙ done in
    cc
server_read_func-connected (none ∷ later) s s' e done on =
    let s1 : AndroidServer = record s { reads = later } in
    let same : ◌≡◌ {A = Outcome (Unit {0} × AndroidServer)} (ok (tt, s1)) (ok (tt, s')) =
      rw e refl ∙ done in
    ap (λ (t : AndroidServer). t.connected) {x = s'} {y = s1} (cc same) ∙ on
server_read_func-connected (some [] ∷ later) s s' e done on =
    let s1 : AndroidServer = record s { reads = later } in
    let same : ◌≡◌ {A = Outcome (Unit {0} × AndroidServer)} (ok (tt, s1)) (ok (tt, s')) =
      rw e refl ∙ done in
    ap (λ (t : AndroidServer). t.connected) {x = s'} {y = s1} (cc same) ∙ on
server_read_func-connected (some (x ∷ bytes) ∷ later) s s' e done on =
    let s1 : AndroidServer = record s { reads = later } in
    let buff = (x ∷ bytes) ++ zeros (max - length (x ∷ bytes)) in
    let handled : handle_message buff s1 ≡ ok (tt, s') = rw e refl ∙ done in
    handle_message-connected buff s1 s' handled on

log-connected :
    (c : Call) (s s' : AndroidServer) → log c s ≡ ok (tt, s') → s'.connected ≡ s.connected
unfolding log
log-connected c s s' e =
    let s1 : AndroidServer = record s { calls = s.calls ++ (c ∷ []) } in
    ap (λ (t : AndroidServer). t.connected) {x = s'} {y = s1} (cc e)

call-connected :
    (l : List ℕ) (c : Call) (n : ℕ) (s s' : AndroidServer)
    → s.results ≡ l
    → call c s ≡ ok (n, s')
    → s'.connected ≡ s.connected
unfolding call next_result log
call-connected [] c n s s' e done =
    let no : ◌≡◌ {A = Outcome (ℕ × AndroidServer)} pending (ok (n, s')) = rw e refl ∙ done in cc
call-connected (m ∷ later) c n s s' e done =
    let s1 : AndroidServer = record s { results = later; calls = s.calls ++ (c ∷ []) } in
    let same : ◌≡◌ {A = Outcome (ℕ × AndroidServer)} (ok (m, s1)) (ok (n, s')) = rw e refl ∙ done in
    ap (λ (t : AndroidServer). t.connected) {x = s'} {y = s1} (cc same)

server_read_pass-connected :
    (s s' : AndroidServer)
    → server_read_pass s ≡ ok (tt, s')
    → s.connected ≡ true
    → s'.connected ≡ true
unfolding server_read_pass
server_read_pass-connected s s' e on =
    let run : (call (accept s.sockfd) >>= λ fd.
    modify (λ (t : AndroidServer). record t { connfd2 = fd })
    >> (server_read_func >> λ t. log (close t.connfd2) t))
          s
        ≡ ok (tt, s') =
      sym (rw on refl) ∙ e in
    let after : ℕ → Process AndroidServer (Unit {0}) = λ fd.
      modify (λ (t : AndroidServer). record t { connfd2 = fd })
      >> (server_read_func >> λ t. log (close t.connfd2) t) in
    let (fd, s1, called, e1) = >>=_inv (call (accept s.sockfd)) after s run in
    let s2 : AndroidServer = record s1 { connfd2 = fd } in
    let (_, s3, handled, closed) =
      >>=_inv server_read_func (λ _ (t : AndroidServer). log (close t.connfd2) t) s2 e1 in
    log-connected (close s3.connfd2) s3 s' closed
    ∙ server_read_func-connected s2.reads s2 s3 refl handled
        (call-connected s.results (accept s.sockfd) fd s s1 refl called ∙ on)

-- Through any number of passes of the reading thread that are finished the server counts as
-- connected if it did before, restarts included, whatever `accept` returns.
pub server_read-connected :
    (passes : ℕ) (s s' : AndroidServer)
    → s.connected ≡ true
    → server_read passes s ≡ ok (tt, s')
    → s'.connected ≡ true
unfolding server_read
server_read-connected zero s s' on e =
    ap (λ (t : AndroidServer). t.connected) {x = s'} {y = s} (cc e) ∙ on
server_read-connected (suc passes) s s' on e =
    let (_, s1, first, rest) = >>=_inv server_read_pass (λ _. server_read passes) s e in
    server_read-connected passes s1 s' (server_read_pass-connected s s1 first on) rest
