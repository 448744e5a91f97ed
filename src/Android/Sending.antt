-- ===== src/Android/Sending.antt =====
-- `serverSend` of androidServer/src/androidServer.c over the lines typed at the terminal.
use fagprojekt.Base.{
  ℕ, ◌-◌, ◌<◌, ◌≡◌, refl, sym, ◌∙◌, ap, true, List, [], ◌∷◌, ◌++◌, length, if◌then◌else◌, ok,
  append_assoc, append-nil,
}
use fagprojekt.Process.{>>=_step}
use fagprojekt.Android.{
  AndroidServer, Call, write, max, zeros, server_send_func, server_send_pass, server_send,
}
use fagprojekt.Android.Messages.{NoNewline, server_send_func-newline}

-- Lines that fit into the array with their newline.
abbrev pub AllShort : List (List ℕ) → Type 0
AllShort [] = Unit
AllShort (l ∷ ls) = NoNewline l × (length l < max) × AllShort ls

-- What is typed for the lines, with `rest` behind them.
abbrev pub typed_lines : List (List ℕ) → List ℕ → List ℕ
typed_lines [] rest = rest
typed_lines (l ∷ ls) rest = l ++ (10 ∷ typed_lines ls rest)

-- The line, its newline, and zeros up to 64 bytes.
abbrev pub writes : ℕ → List (List ℕ) → List Call
writes fd [] = []
writes fd (l ∷ ls) = write fd (l ++ (10 ∷ zeros (63 - length l))) ∷ writes fd ls

server_send_pass-connected :
    (s : AndroidServer) → s.connected ≡ true → server_send_pass s ≡ server_send_func s
unfolding server_send_pass
server_send_pass-connected s on = ap (λ c. if c then server_send_func s else ok (tt, s)) on

-- While the server is connected, as many passes of `serverSend` as lines of at most 63 bytes are
-- typed write these lines to the connection, in order, each with its newline in 64 bytes that end in
-- zeros, and take nothing that is typed behind them.
pub server_send-lines :
    (ls : List (List ℕ)) (rest : List ℕ) (s : AndroidServer)
    → AllShort ls
    → s.connected ≡ true
    → s.typed ≡ typed_lines ls rest
    → server_send (length ls) s
      ≡ ok (tt, record s { typed = rest; calls = s.calls ++ writes s.connfd ls })
unfolding server_send
server_send-lines [] rest s short on e =
    ap (λ t. ok (tt, record s { typed = t })) e
    ∙ ap (λ c. ok (tt, record s { typed = rest; calls = c })) (sym (append-nil s.calls))
server_send-lines (l ∷ ls) rest s (other, fits, short) on e =
    let s1 : AndroidServer = record s {
      typed = typed_lines ls rest;
      calls = s.calls ++ (write s.connfd (l ++ (10 ∷ zeros (63 - length l))) ∷ []);
    } in
    >>=_step server_send_pass (λ _. server_send (length ls)) s
      (server_send_pass-connected s on
        ∙ server_send_func-newline l (typed_lines ls rest) s other fits e)
    ∙ server_send-lines ls rest s1 short on refl
    ∙ ap (λ c. ok (tt, record s { typed = rest; calls = c }))
        (append_assoc s.calls (write s.connfd (l ++ (10 ∷ zeros (63 - length l))) ∷ [])
          (writes s.connfd ls))
