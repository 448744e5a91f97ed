-- ===== src/Android/Quiet.antt =====
-- What the calls of androidServer.c on its sockets leave as it is.
use fagprojekt.Base.{
  ℕ, zero, suc, Outcome, pending, exits, subst, ◌≡◌, ◌≢◌, inl, inr, refl, ◌∙◌, ap, false, List, [],
  ◌∷◌, ◌++◌, ◌==◌, arith, ok, htons, append-nil, Bool-cases,
}
use fagprojekt.Process.{◌>>=◌}
use fagprojekt.Android.{
  AndroidServer, Call, socket, setsockopt, bind, listen, accept, close, write, minus_one, call, log,
  next_result, open_socket, bind_and_listen, unless_exit,
}
use fagprojekt.Android.Restart.{call_lem, open_socket_lem, bind_and_listen_lem}

-- What was written, of all calls.
abbrev pub payloads : List Call → List (List ℕ)
payloads [] = []
payloads (socket ∷ cs) = payloads cs
payloads (setsockopt fd o ∷ cs) = payloads cs
payloads (bind fd p ∷ cs) = payloads cs
payloads (listen fd n ∷ cs) = payloads cs
payloads (accept fd ∷ cs) = payloads cs
payloads (close fd ∷ cs) = payloads cs
payloads (write fd l ∷ cs) = l ∷ payloads cs

pub payloads-append : (a b : List Call) → payloads (a ++ b) ≡ payloads a ++ payloads b
payloads-append [] b = refl
payloads-append (socket ∷ a) b = payloads-append a b
payloads-append (setsockopt fd o ∷ a) b = payloads-append a b
payloads-append (bind fd p ∷ a) b = payloads-append a b
payloads-append (listen fd n ∷ a) b = payloads-append a b
payloads-append (accept fd ∷ a) b = payloads-append a b
payloads-append (close fd ∷ a) b = payloads-append a b
payloads-append (write fd l ∷ a) b = ap (λ p. l ∷ p) (payloads-append a b)

-- Calls that write nothing.
pub record Quiet (s t : AndroidServer) : Type 0 where
  pub same_typed : t.typed ≡ s.typed
  pub same_connected : t.connected ≡ s.connected
  pub same_payloads : payloads t.calls ≡ payloads s.calls

pub more_calls : (a b : List Call) → payloads b ≡ [] → payloads (a ++ b) ≡ payloads a
more_calls a b none_written =
    payloads-append a b ∙ ap (λ p. payloads a ++ p) none_written ∙ append-nil (payloads a)

result-Quiet :
    {A : Type 0} (o : Outcome (A × AndroidServer)) (a b : A) (s t u : AndroidServer)
    → o ≡ ok (a, u)
    → o ≡ ok (b, t)
    → Quiet s u
    → Quiet s t
result-Quiet o a b s t u e done quiet = let same : u ≡ t = cc in subst (λ x. Quiet s x) same quiet

pub logged :
    (s t : AndroidServer) (more : List Call)
    → t.typed ≡ s.typed
    → t.connected ≡ s.connected
    → t.calls ≡ s.calls ++ more
    → payloads more ≡ []
    → Quiet s t
logged s t more typed connected calls none_written = record {
  same_typed = typed;
  same_connected = connected;
  same_payloads = ap payloads calls ∙ more_calls s.calls more none_written;
}

pub call-Quiet :
    (c : Call) (n : ℕ) (s t : AndroidServer) (rs : List ℕ)
    → payloads (c ∷ []) ≡ []
    → s.results ≡ rs
    → call c s ≡ ok (n, t)
    → Quiet s t
unfolding call log next_result
call-Quiet c n s t [] none_written e done =
    let stuck : call c s ≡ pending = rw e refl in absurd (cc)
call-Quiet c n s t (r ∷ rs) none_written e done =
    result-Quiet (call c s) r n s t _ (call_lem c r rs s e) done
      (logged s _ (c ∷ []) refl refl refl none_written)

pub open_socket-Quiet :
    (s t : AndroidServer) (rs : List ℕ) → s.results ≡ rs → open_socket s ≡ ok (tt, t) → Quiet s t
unfolding open_socket call log next_result unless_exit
open_socket-Quiet s t [] e done = let stuck : open_socket s ≡ pending = rw e refl in absurd (cc)
open_socket-Quiet s t (fd ∷ rs) e done = elim (Bool-cases (fd == minus_one)) [
  | inl bad ↦ let stuck : open_socket s ≡ exits 0 = rw (e, ◌>>=◌, bad) refl in absurd (cc)
  | inr good ↦ opened fd rs good e
]
  where
    opened : (fd : ℕ) (rs : List ℕ) → (fd == minus_one) ≡ false → s.results ≡ fd ∷ rs → Quiet s t
    opened fd [] good e =
        let stuck : open_socket s ≡ pending = rw (e, ◌>>=◌, good) refl in absurd (cc)
    opened fd (r1 ∷ []) good e =
        let stuck : open_socket s ≡ pending = rw (e, ◌>>=◌, good) refl in absurd (cc)
    opened fd (r1 ∷ r2 ∷ rs) good e =
        let new : fd ≢ minus_one = ground arith in
        result-Quiet (open_socket s) tt tt s t _ (open_socket_lem fd r1 r2 rs s new e) done
          (logged s _ (socket ∷ setsockopt fd 2 ∷ setsockopt fd 15 ∷ []) refl refl refl refl)

suc_not_zero : (r : ℕ) → (suc r == 0) ≡ false
suc_not_zero r = ground arith

pub bind_and_listen-Quiet :
    (s t : AndroidServer) (rs : List ℕ)
    → s.results ≡ rs
    → bind_and_listen s ≡ ok (tt, t)
    → Quiet s t
unfolding bind_and_listen call log next_result unless_exit
bind_and_listen-Quiet s t [] e done =
    let stuck : bind_and_listen s ≡ pending = rw e refl in absurd (cc)
bind_and_listen-Quiet s t (suc r ∷ rs) e done =
    let other = suc_not_zero r in
    let stuck : bind_and_listen s ≡ exits 0 = rw (e, ◌>>=◌, other) refl in absurd (cc)
bind_and_listen-Quiet s t (zero ∷ []) e done =
    let stuck : bind_and_listen s ≡ pending = rw (e, ◌>>=◌) refl in absurd (cc)
bind_and_listen-Quiet s t (zero ∷ suc r ∷ rs) e done =
    let other = suc_not_zero r in
    let stuck : bind_and_listen s ≡ exits 0 = rw (e, ◌>>=◌, other) refl in absurd (cc)
bind_and_listen-Quiet s t (zero ∷ zero ∷ rs) e done =
    result-Quiet (bind_and_listen s) tt tt s t _ (bind_and_listen_lem rs s e) done
      (logged s _ (bind s.sockfd (htons s.port) ∷ listen s.sockfd 5 ∷ []) refl refl refl refl)
