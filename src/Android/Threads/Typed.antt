-- ===== src/Android/Threads/Typed.antt =====
-- What the two threads of androidServer.c, interleaved, do with the typed lines.
use fagprojekt.Base.{
  ℕ, ◌≡◌, refl, sym, ◌∙◌, ap, Bool, true, false, List, [], ◌∷◌, ◌++◌, append_assoc, append-nil,
}
use fagprojekt.Android.{AndroidServer, accept, close, write}
use fagprojekt.Android.Sending.{AllShort, typed_lines}
use fagprojekt.Android.Lines.{
  read_line_inv, padded, padded-append, typed_lines-append, AllShort-append,
}
use fagprojekt.Android.Quiet.{
  payloads, payloads-append, more_calls, call-Quiet, open_socket-Quiet, bind_and_listen-Quiet,
}
use fagprojekt.Android.Threads.{
  Reader, before_accept, in_read_func, closing_server, closing_client, resetting, opening, binding,
  accepting, setting, closing_own, System, ReadStep, find_closed, accept_own, read_error, read_end,
  read_message, read_exit, close_own, RestartStep, close_server, close_client, reset_connected,
  open_anew, listen_anew, accept_anew, set_connected, SendStep, wait, find_connected,
  call_send_func, write_line, read, restart, send, Reach, start, next, threads,
}

-- The server counts as connected but while it restarts.
abbrev pub is_up : Reader → Bool
is_up opening = false
is_up binding = false
is_up accepting = false
is_up setting = false
is_up _ = true

-- From `s`, the lines `ls` were taken off the input and written.
record Inv (s : AndroidServer) (ls : List (List ℕ)) (t : System) : Type 0 where
  up : t.server.connected ≡ is_up t.reader
  short : AllShort ls
  taken : s.typed ≡ typed_lines ls t.server.typed
  sent : payloads t.server.calls ≡ payloads s.calls ++ padded ls

-- A step of the reading thread that writes nothing.
quiet-Inv :
    (s : AndroidServer) (ls : List (List ℕ)) (t : System) (u : AndroidServer) (r : Reader)
    → Inv s ls t
    → u.typed ≡ t.server.typed
    → payloads u.calls ≡ payloads t.server.calls
    → u.connected ≡ is_up r
    → Inv s ls (record t { server = u; reader = r })
quiet-Inv s ls t u r inv typed calls up = record {
  up = up;
  short = inv.short;
  taken = inv.taken ∙ ap (typed_lines ls) (sym typed);
  sent = calls ∙ inv.sent;
}

up_at :
    (s : AndroidServer) (ls : List (List ℕ)) (t : System) (r : Reader)
    → Inv s ls t
    → t.reader ≡ r
    → t.server.connected ≡ is_up r
up_at s ls t r inv e = inv.up ∙ ap is_up e

module _ (s : AndroidServer) (ls : List (List ℕ)) where
  ReadStep-Inv : {t u : System} → ReadStep t u → Inv s ls t → Inv s ls u
  ReadStep-Inv (find_closed e off) inv = inv
  ReadStep-Inv {t} (accept_own fd v e on done) inv =
      let q = call-Quiet (accept t.server.sockfd) fd t.server v t.server.results refl refl done in
      quiet-Inv s ls t (record v { connfd2 = fd }) in_read_func inv q.same_typed q.same_payloads
        (q.same_connected ∙ on)
  ReadStep-Inv {t} (read_error reads e _) inv =
      quiet-Inv s ls t _ closing_own inv refl refl (up_at s ls t in_read_func inv e)
  ReadStep-Inv {t} (read_end reads e _) inv =
      quiet-Inv s ls t _ closing_own inv refl refl (up_at s ls t in_read_func inv e)
  ReadStep-Inv {t} (read_message x bytes reads e _ _ _) inv =
      quiet-Inv s ls t _ closing_own inv refl refl (up_at s ls t in_read_func inv e)
  ReadStep-Inv {t} (read_exit x bytes reads e _ _ _) inv =
      quiet-Inv s ls t _ closing_server inv refl refl (up_at s ls t in_read_func inv e)
  ReadStep-Inv {t} (close_own e) inv =
      quiet-Inv s ls t _ before_accept inv refl
        (more_calls t.server.calls (close t.server.connfd2 ∷ []) refl)
        (up_at s ls t closing_own inv e)

  RestartStep-Inv : {t u : System} → RestartStep t u → Inv s ls t → Inv s ls u
  RestartStep-Inv {t} (close_server e) inv =
      quiet-Inv s ls t _ closing_client inv refl
        (more_calls t.server.calls (close t.server.sockfd ∷ []) refl)
        (up_at s ls t closing_server inv e)
  RestartStep-Inv {t} (close_client e) inv =
      quiet-Inv s ls t _ resetting inv refl
        (more_calls t.server.calls (close t.server.connfd ∷ []) refl)
        (up_at s ls t closing_client inv e)
  RestartStep-Inv {t} (reset_connected e) inv = quiet-Inv s ls t _ opening inv refl refl refl
  RestartStep-Inv {t} (open_anew v e done) inv =
      let q = open_socket-Quiet t.server v t.server.results refl done in
      quiet-Inv s ls t v binding inv q.same_typed q.same_payloads
        (q.same_connected ∙ up_at s ls t opening inv e)
  RestartStep-Inv {t} (listen_anew v e done) inv =
      let q = bind_and_listen-Quiet t.server v t.server.results refl done in
      quiet-Inv s ls t v accepting inv q.same_typed q.same_payloads
        (q.same_connected ∙ up_at s ls t binding inv e)
  RestartStep-Inv {t} (accept_anew fd v e done) inv =
      let q = call-Quiet (accept t.server.sockfd) fd t.server v t.server.results refl refl done in
      quiet-Inv s ls t (record v { connfd = fd }) setting inv q.same_typed q.same_payloads
        (q.same_connected ∙ up_at s ls t accepting inv e)
  RestartStep-Inv {t} (set_connected e) inv = quiet-Inv s ls t _ closing_own inv refl refl refl

SendStep-Inv :
    (s : AndroidServer) (ls : List (List ℕ)) {t u : System}
    → SendStep t u
    → Inv s ls t
    → (more : List (List ℕ)) × Inv s (ls ++ more) u
SendStep-Inv s ls (wait e off) inv = ([], rw (append-nil ls) inv)
SendStep-Inv s ls {t} (find_connected e on) inv = (
  [],
  rw (append-nil ls)
      (record { up = inv.up; short = inv.short; taken = inv.taken; sent = inv.sent }),
)
SendStep-Inv s ls {t} (call_send_func e) inv = (
  [],
  rw (append-nil ls)
      (record { up = inv.up; short = inv.short; taken = inv.taken; sent = inv.sent }),
)
SendStep-Inv s ls {t} (write_line fd buff v e got) inv =
    let (line, rest, none_in, fits, typed, array, same) = read_line_inv buff t.server v got in
    (
      line ∷ [],
      record {
        up = ap (λ x. x.connected) same ∙ inv.up;
        short = AllShort-append ls line inv.short none_in fits;
        taken =
            inv.taken
            ∙ ap (typed_lines ls) typed
            ∙ typed_lines-append ls line rest
            ∙ ap (λ x. typed_lines (ls ++ (line ∷ [])) x.typed) (sym same);
        sent =
            payloads-append v.calls (write fd buff ∷ [])
            ∙ ap (λ x. payloads x.calls ++ (buff ∷ [])) same
            ∙ ap (λ p. p ++ (buff ∷ [])) inv.sent
            ∙ append_assoc (payloads s.calls) (padded ls) (buff ∷ [])
            ∙ ap (λ b. payloads s.calls ++ (padded ls ++ (b ∷ []))) array
            ∙ ap (λ p. payloads s.calls ++ p) (sym (padded-append ls line));
      },
    )

Reach-Inv :
    {s : AndroidServer} {t : System}
    → s.connected ≡ true
    → Reach (threads s) t
    → (ls : List (List ℕ)) × Inv s ls t
Reach-Inv {s} on start =
    ([], record { up = on; short = tt; taken = refl; sent = sym (append-nil (payloads s.calls)) })
Reach-Inv {s} on (next r (read st)) =
    let (ls, inv) = Reach-Inv on r in (ls, ReadStep-Inv s ls st inv)
Reach-Inv {s} on (next r (restart st)) =
    let (ls, inv) = Reach-Inv on r in (ls, RestartStep-Inv s ls st inv)
Reach-Inv {s} on (next r (send st)) =
    let (ls, inv) = Reach-Inv on r in
    let (more, inv') = SendStep-Inv s ls st inv in (ls ++ more, inv')

-- In every state that the two threads reach from the start of their loops with a connected server, in
-- any order of their steps and through any number of restarts: what has been taken off the typed
-- input are whole lines of at most 63 bytes, and these were written, each once, in order, with its
-- newline in 64 bytes that end in zeros; and the server counts as connected but between the reset
-- of `connected` and the end of `startServer`.
pub typed_lem :
    {s : AndroidServer} {t : System}
    → s.connected ≡ true
    → Reach (threads s) t
    → (ls : List (List ℕ)) × AllShort ls
      × (s.typed ≡ typed_lines ls t.server.typed)
      × (payloads t.server.calls ≡ payloads s.calls ++ padded ls)
      × (t.server.connected ≡ is_up t.reader)
typed_lem on r = let (ls, inv) = Reach-Inv on r in (ls, inv.short, inv.taken, inv.sent, inv.up)
