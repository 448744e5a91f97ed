-- ===== src/Buffer/Send.antt =====
-- `send_data_buffer` of a valid buffer ends, whether or not it has to split the data, stays in
-- bounds, and appends the data if there is room for it.
use fagprojekt.Base.{
  ℕ, zero, suc, ◌+◌, ◌-◌, ◌^◌, ◌≤◌, ◌<◌, ◌≡◌, refl, true, false, List, [], ◌∷◌, ◌++◌, arith, ltb,
  length, take, drop, length-append, length-take_of_le, length-drop, append_assoc, dec_le, ok, ap,
  add32, sub32, ◌>>=◌, ◌∙◌,
}
use fagprojekt.Buffer.{CircularBuf, copy_in, send_split, send_data_buffer, get_space}
use fagprojekt.Buffer.Invariant.{IsValid, contents, put, put-IsValid, copy_in_lem, get_space_lem}
use fagprojekt.Buffer.Contents.{get_space-contents, contents-put, put_inside}

-- What a call with the first `n` of `bytes` leaves behind.
pub record Sent (b : CircularBuf) (bytes : List ℕ) (n : ℕ) (b' : CircularBuf) : Type 0 where
  pub valid : IsValid b'
  pub same_max : b'.max ≡ b.max
  pub appended : 0 < n → n ≤ get_space b → contents b' ≡ contents b ++ take n bytes

take-append-drop_le :
    (m n : ℕ) (xs : List ℕ) → m ≤ n → take m xs ++ take (n - m) (drop m xs) ≡ take n xs
take-append-drop_le zero n xs h = ap (λ k. take k xs) (omega arith)
take-append-drop_le (suc m) zero xs h = absurd (omega arith)
take-append-drop_le (suc m) (suc n) [] h = nil (suc n - suc m)
  where
    nil : (k : ℕ) → take {A = ℕ} k [] ≡ []
    nil zero = refl
    nil (suc k) = refl
take-append-drop_le (suc m) (suc n) (x ∷ xs) h =
    ap (λ k. x ∷ (take m xs ++ take k (drop m xs))) {x = suc n - suc m} {y = n - m} (omega arith)
    ∙ ap (λ l. x ∷ l) (take-append-drop_le m n xs (omega arith))

-- The call that fits before the end of the array.
copy_in-Sent :
    (bytes : List ℕ) (n : ℕ) {b : CircularBuf}
    → IsValid b
    → n ≤ length bytes
    → b.head + n ≤ b.max
    → (copy_in bytes n b ≡ ok (put (take n bytes) b)) × Sent b bytes n (put (take n bytes) b)
unfolding put
copy_in-Sent bytes n {b} v h k = (
  copy_in_lem bytes n v h k,
  record {
    valid = put-IsValid (take n bytes) v (omega (arith, count));
    same_max = refl;
    appended = λ pos room.
        contents-put (take n bytes) v (omega (arith, count)) (omega (arith, count))
          (omega (arith, count));
  },
)
  where
    count : length (take n bytes) ≡ n
    count = length-take_of_le n bytes h

-- Two calls in a row.
Sent-then :
    (bytes : List ℕ) (m n : ℕ) {b b' b'' : CircularBuf}
    → IsValid b
    → 0 < m
    → m < n
    → m ≤ length bytes
    → Sent b bytes m b'
    → Sent b' (drop m bytes) (n - m) b''
    → Sent b bytes n b''
Sent-then bytes m n {b} {b'} v pos more len f g = record {
  valid = g.valid;
  same_max = omega (arith, f.same_max, g.same_max);
  appended = λ _ room.
      let first = f.appended pos (omega arith) in
      g.appended (omega arith) (
        omega (
          arith,
          get_space-contents v,
          get_space-contents f.valid,
          f.same_max,
          ap length first,
          length-append (contents b) (take m bytes),
          length-take_of_le m bytes len,
        ))
      ∙ ap (λ l. l ++ take (n - m) (drop m bytes)) first
      ∙ append_assoc (contents b) (take m bytes) (take (n - m) (drop m bytes))
      ∙ ap (λ l. contents b ++ l) (take-append-drop_le m n bytes (omega arith));
}

-- The two branches of `send_data_buffer`, with no wrap in the arithmetic.
module _ (fuel : ℕ) (bytes : List ℕ) (n : ℕ) {b : CircularBuf} (v : IsValid b)
    (small : n < 2 ^ 31) where
  pub send_split_fits : b.head + n ≤ b.max → send_split (suc fuel) bytes n b ≡ copy_in bytes n b
  unfolding send_split
  send_split_fits h =
      let e : ltb b.max (add32 n b.head) ≡ false = ground arith in rw (e, send_split)

  pub send_split_over :
      b.max < b.head + n
      → send_split (suc fuel) bytes n b ≡ (
          send_split fuel bytes (b.max - b.head) b
          >>= send_split fuel (drop (b.max - b.head) bytes) (n - (b.max - b.head)))
  unfolding send_split
  send_split_over h =
      let e : ltb b.max (add32 n b.head) ≡ true = ground arith in
      let front : sub32 b.max b.head ≡ b.max - b.head = omega arith in
      let rest : sub32 n (b.max - b.head) ≡ n - (b.max - b.head) = omega arith in
      rw (e, send_split, front, rest)

send_split-Sent :
    (fuel : ℕ) (bytes : List ℕ) (n : ℕ) {b : CircularBuf}
    → IsValid b
    → n < fuel
    → n < 2 ^ 31
    → n ≤ length bytes
    → (b' : CircularBuf) × (send_split fuel bytes n b ≡ ok b') × Sent b bytes n b'
send_split-Sent zero bytes n v h small len = absurd (omega arith)
send_split-Sent (suc zero) bytes n {b} v h small len =
    let (e, s) = copy_in-Sent bytes n v len (omega arith) in
    (put (take n bytes) b, send_split_fits 0 bytes n v small (omega arith) ∙ e, s)
send_split-Sent (suc (suc fuel)) bytes n {b} v h small len = elim (dec_le (b.head + n) b.max) [
  | yes fit ↦
      let (e, s) = copy_in-Sent bytes n v len fit in
      (put (take n bytes) b, send_split_fits (suc fuel) bytes n v small fit ∙ e, s)
  | no over ↦
      let m : ℕ = b.max - b.head in
      let (e, s) = copy_in-Sent bytes m v (omega arith) (omega arith) in
      let (b'', e', s') =
        send_split-Sent (suc fuel) (drop m bytes) (n - m) s.valid (omega arith) (omega arith)
          (omega (arith, length-drop m bytes)) in
      (
        b'',
        send_split_over (suc fuel) bytes n v small (omega arith)
            ∙ ap (λ r. r >>= send_split (suc fuel) (drop m bytes) (n - m))
                (send_split_fits fuel bytes m v (omega arith) (omega arith) ∙ e)
            ∙ e',
        Sent-then bytes m n v (omega arith) (omega arith) (omega arith) s s',
      )
]

pub send_data_buffer-Sent :
    (bytes : List ℕ) (n : ℕ) {b : CircularBuf}
    → IsValid b
    → n < 2 ^ 31
    → n ≤ length bytes
    → (b' : CircularBuf) × (send_data_buffer bytes n b ≡ ok b') × Sent b bytes n b'
unfolding send_data_buffer
send_data_buffer-Sent bytes n v small len =
    send_split-Sent (n + 2) bytes n v (omega arith) small len

-- Of any length that the data has, even more than the buffer holds: the call ends, with no access
-- out of bounds however often it splits the data, and leaves a valid buffer of the same size.
pub send_data_buffer-IsValid :
    (bytes : List ℕ) (n : ℕ) {b : CircularBuf}
    → IsValid b
    → n < 2 ^ 31
    → n ≤ length bytes
    → (b' : CircularBuf) × (send_data_buffer bytes n b ≡ ok b') × IsValid b' × (b'.max ≡ b.max)
send_data_buffer-IsValid bytes n v small len =
    let (b', done, s) = send_data_buffer-Sent bytes n v small len in (b', done, s.valid, s.same_max)

-- Data that is not empty and for which there is room is appended to what the buffer holds, also
-- where it has to be split at the end of the array; the free space is less by its length.
pub send_data_buffer-append :
    (bytes : List ℕ) (n : ℕ) {b : CircularBuf}
    → IsValid b
    → 0 < n
    → n ≤ get_space b
    → n ≤ length bytes
    → (b' : CircularBuf) × (send_data_buffer bytes n b ≡ ok b')
      × IsValid b'
      × (contents b' ≡ contents b ++ take n bytes)
      × (get_space b' + n ≡ get_space b)
send_data_buffer-append bytes n {b} v pos room len =
    let (b', done, s) = send_data_buffer-Sent bytes n v (omega (arith, get_space-contents v)) len in
    let more = s.appended pos room in
    (
      b',
      done,
      s.valid,
      more,
      omega (
        arith,
        get_space-contents v,
        get_space-contents s.valid,
        s.same_max,
        ap length more,
        length-append (contents b) (take n bytes),
        length-take_of_le n bytes len,
      ),
    )

-- Writing nothing at the place where an empty buffer's head and tail meet marks it as full.
full_of_nothing : {b : CircularBuf} → IsValid b → length (contents b) ≡ 0 → get_space (put [] b) ≡ 0
unfolding get_space
full_of_nothing {b} v e =
    let space : get_space b ≡ b.max = omega (arith, get_space-contents v) in
    rw (put_inside [] b (omega arith)) (ground (arith, space, get_space_lem v))

-- Data of length 0 is not appended as nothing: of a valid buffer that is empty the call makes one
-- without any free space, which holds as many bytes as the array.
pub send_data_buffer-zero :
    (bytes : List ℕ) {b : CircularBuf}
    → IsValid b
    → contents b ≡ []
    → (b' : CircularBuf) × (send_data_buffer bytes 0 b ≡ ok b')
      × (get_space b' ≡ 0)
      × (length (contents b') ≡ b.max)
unfolding send_data_buffer
send_data_buffer-zero bytes {b} v e =
    let none_left = full_of_nothing v (ap length e) in
    let valid = put-IsValid [] v (omega arith) in
    (
      put [] b,
      send_split_fits 1 bytes 0 v (omega arith) (omega arith)
          ∙ copy_in_lem bytes 0 v (omega arith) (omega arith),
      none_left,
      omega (arith, get_space-contents valid, none_left, same_max b),
    )
  where
    same_max : (c : CircularBuf) → (put [] c).max ≡ c.max
    same_max c = unfold put in refl
