-- ===== src/Android/Messages.antt =====
-- The messages of the two threads of androidServer.c: what a typed line sends, and what a received
-- one does.
use fagprojekt.Base.{
  ℕ, zero, suc, ◌+◌, ◌-◌, ◌≤◌, ◌<◌, ◌≡◌, ◌≢◌, ◌⊎◌, inl, inr, refl, ◌∙◌, ap, false, List, [], ◌∷◌,
  ◌++◌, ◌==◌, length, set, arith, ok, fault, append_assoc, append-nil, length-append,
}
use fagprojekt.Memory.{put_at, put_at_lem}
use fagprojekt.Process.{◌>>=◌, lift}
use fagprojekt.Android.{
  AndroidServer, write, max, zeros, get_char, read_line, log, server_send_func,
}

abbrev pub NoNewline : List ℕ → Type 0
NoNewline [] = Unit
NoNewline (x ∷ l) = (x ≢ 10) × NoNewline l

set-append : (a b : List ℕ) (x y : ℕ) → set (a ++ (y ∷ b)) (length a) x ≡ a ++ (x ∷ b)
set-append [] b x y = refl
set-append (z ∷ a) b x y = ap (λ l. z ∷ l) (set-append a b x y)

put_inside : (a b : List ℕ) (x y : ℕ) → put_at (a ++ (y ∷ b)) (length a) x ≡ ok (a ++ (x ∷ b))
put_inside a b x y =
    put_at_lem (a ++ (y ∷ b)) (length a) x (omega (arith, length-append a (y ∷ b)))
    ∙ ap ok (set-append a b x y)

put_outside : (a : List ℕ) (x : ℕ) → put_at (a ++ []) (length a) x ≡ fault
unfolding put_at
put_outside a x = ground (arith, append-nil a)

get_char-cons :
    (x : ℕ) (rest : List ℕ) (s : AndroidServer)
    → s.typed ≡ x ∷ rest
    → get_char s ≡ ok (x, record s { typed = rest })
unfolding get_char
get_char-cons x rest s e = rw e refl

get_char-nil : (s : AndroidServer) → s.typed ≡ [] → get_char s ≡ ok (255, s)
unfolding get_char
get_char-nil s e = rw e refl

next_char :
    (s : AndroidServer) (l : List ℕ)
    → s.typed ≡ l
    → (x : ℕ) × (s' : AndroidServer) × (get_char s ≡ ok (x, s'))
next_char s [] e = (_, _, get_char-nil s e)
next_char s (x ∷ l) e = (_, _, get_char-cons x l s e)

-- A pass of the loop of `serverSendFunc` in and behind the array.
read_inside :
    (left : ℕ) (a b : List ℕ) (x y : ℕ) (s s' : AndroidServer)
    → x ≢ 10
    → get_char s ≡ ok (x, s')
    → read_line (suc left) (length a) (a ++ (y ∷ b)) s
      ≡ read_line left (length (a ++ (x ∷ []))) ((a ++ (x ∷ [])) ++ b) s'
unfolding read_line
read_inside left a b x y s s' other e =
    let not_newline : (x == 10) ≡ false = ground arith in
    let one : length (a ++ (x ∷ [])) ≡ length a + 1 = length-append a (x ∷ []) in
    rw (e, ◌>>=◌, lift, put_inside a b x y, not_newline, one, append_assoc a (x ∷ []) b) refl

read_newline :
    (left : ℕ) (a b : List ℕ) (y : ℕ) (s s' : AndroidServer)
    → get_char s ≡ ok (10, s')
    → read_line (suc left) (length a) (a ++ (y ∷ b)) s ≡ ok (a ++ (10 ∷ b), s')
unfolding read_line
read_newline left a b y s s' e = rw (e, ◌>>=◌, lift, put_inside a b 10 y) refl

read_outside :
    (left : ℕ) (a : List ℕ) (x : ℕ) (s s' : AndroidServer)
    → get_char s ≡ ok (x, s')
    → read_line (suc left) (length a) (a ++ []) s ≡ fault
unfolding read_line
read_outside left a x s s' e = rw (e, ◌>>=◌, lift, put_outside a x) refl

-- The line that is typed, up to its newline, goes into the array.
pub read_line-newline :
    (line rest : List ℕ) (a : List ℕ) (k left : ℕ) (s : AndroidServer)
    → NoNewline line
    → length line < k
    → length line < left
    → s.typed ≡ line ++ (10 ∷ rest)
    → read_line left (length a) (a ++ zeros k) s
      ≡ ok (a ++ (line ++ (10 ∷ zeros (k - 1 - length line))), record s { typed = rest })
unfolding zeros
read_line-newline line rest a zero left s other fits enough e = absurd (omega arith)
read_line-newline line rest a (suc k) zero s other fits enough e = absurd (omega arith)
read_line-newline [] rest a (suc k) (suc left) s other fits enough e =
    read_newline left a (zeros k) 0 s (record s { typed = rest }) (get_char-cons 10 rest s e)
    ∙ ap (λ n. ok (a ++ (10 ∷ zeros n), record s { typed = rest })) {x = k} {y = suc k - 1 - 0}
        (omega arith)
read_line-newline (x ∷ line) rest a (suc k) (suc left) s (this, other) fits enough e =
    let s' : AndroidServer = record s { typed = line ++ (10 ∷ rest) } in
    let count : k - 1 - length line ≡ suc k - 1 - suc (length line) = omega arith in
    read_inside left a (zeros k) x 0 s s' this (get_char-cons x (line ++ (10 ∷ rest)) s e)
    ∙ read_line-newline line rest (a ++ (x ∷ [])) k left s' other (omega arith) (omega arith) refl
    ∙ ap (λ l. ok (l, record s { typed = rest }))
        (append_assoc a (x ∷ []) (line ++ (10 ∷ zeros (k - 1 - length line)))
          ∙ ap (λ n. a ++ (x ∷ (line ++ (10 ∷ zeros n)))) count)

-- Without a newline in time, the loop leaves the array.
pub read_line-overrun :
    (line rest : List ℕ) (a : List ℕ) (k left : ℕ) (s : AndroidServer)
    → NoNewline line
    → (k ≤ length line) ⊎ (rest ≡ [])
    → k < left
    → s.typed ≡ line ++ rest
    → read_line left (length a) (a ++ zeros k) s ≡ fault
unfolding zeros
read_line-overrun line rest a k zero s other long enough e = absurd (omega arith)
read_line-overrun line rest a zero (suc left) s other long enough e =
    let (x, s', got) = next_char s s.typed refl in read_outside left a x s s' got
read_line-overrun (x ∷ line) rest a (suc k) (suc left) s (this, other) long enough e =
    let s' : AndroidServer = record s { typed = line ++ rest } in
    read_inside left a (zeros k) x 0 s s' this (get_char-cons x (line ++ rest) s e)
    ∙ read_line-overrun line rest (a ++ (x ∷ [])) k left s' other
        (elim long [ inl h ↦ inl (omega arith) | inr h ↦ inr h ]) (omega arith) refl
read_line-overrun [] rest a (suc k) (suc left) s other (inl h) enough e = absurd (omega arith)
read_line-overrun [] rest a (suc k) (suc left) s other (inr h) enough e =
    read_inside left a (zeros k) 255 0 s s (λ n. omega arith) (get_char-nil s (e ∙ h))
    ∙ read_line-overrun [] rest (a ++ (255 ∷ [])) k left s tt (inr h) (omega arith) e

-- A line of at most 63 bytes before its newline is sent with the newline, in 64 bytes that end in
-- zeros.
pub server_send_func-newline :
    (line rest : List ℕ) (s : AndroidServer)
    → NoNewline line
    → length line < max
    → s.typed ≡ line ++ (10 ∷ rest)
    → server_send_func s
      ≡ ok (
        tt,
        record s {
          typed = rest;
          calls = s.calls ++ (write s.connfd (line ++ (10 ∷ zeros (63 - length line))) ∷ []);
        },
      )
unfolding server_send_func
server_send_func-newline line rest s other fits e =
    rw (read_line-newline line rest [] max (max + 1) s other fits (omega arith) e, log, ◌>>=◌) refl

-- Typed input with no newline among its first 64 bytes, be it a longer line or the end of the
-- input, makes `serverSendFunc` write behind the end of its array.
pub server_send_func-overrun :
    (line rest : List ℕ) (s : AndroidServer)
    → NoNewline line
    → (max ≤ length line) ⊎ (rest ≡ [])
    → s.typed ≡ line ++ rest
    → server_send_func s ≡ fault
unfolding server_send_func
server_send_func-overrun line rest s other long e =
    rw (read_line-overrun line rest [] max (max + 1) s other long (omega arith) e, ◌>>=◌) refl
