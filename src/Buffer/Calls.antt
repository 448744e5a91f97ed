-- ===== src/Buffer/Calls.antt =====
-- The two runs of a call of `send_data_buffer` (VideoServer/src/buffer.c) with all of its data.
use fagprojekt.Base.{
  ℕ, suc, ◌+◌, ◌-◌, ◌^◌, ◌≤◌, ◌<◌, ◌≡◌, List, arith, length, take, drop, length-take_of_le,
  take-length, length-drop, ok, ap, ◌>>=◌, ◌∙◌,
}
use fagprojekt.Buffer.{CircularBuf, send_split, send_data_buffer}
use fagprojekt.Buffer.Invariant.{IsValid, put, put-IsValid, copy_in_lem}
use fagprojekt.Buffer.Contents.{put_to_end}
use fagprojekt.Buffer.Send.{send_split_fits, send_split_over}

-- After a write up to the end of the array the whole array is in front of the head.
pub put_to_end-room :
    (c : List ℕ) (b : CircularBuf) (n : ℕ)
    → b.head + length c ≡ b.max
    → n ≤ b.max
    → (put c b).head + n ≤ (put c b).max
put_to_end-room c b n e h = rw (put_to_end c b e) (omega arith)

two_more :
    (c : List ℕ) (b : CircularBuf)
    → send_split (length c + 2) c (length c) b ≡ send_split (suc (suc (length c))) c (length c) b
two_more c b =
    ap (λ f. send_split f c (length c) b) {x = length c + 2} {y = suc (suc (length c))}
      (omega arith)

pub send_data_buffer-fits :
    (c : List ℕ) {b : CircularBuf}
    → IsValid b
    → length c < 2 ^ 31
    → b.head + length c ≤ b.max
    → send_data_buffer c (length c) b ≡ ok (put c b)
unfolding send_data_buffer
send_data_buffer-fits c {b} v small inside =
    two_more c b
    ∙ send_split_fits (suc (length c)) c (length c) v small inside
    ∙ copy_in_lem c (length c) v (omega arith) inside
    ∙ ap (λ l. ok (put l b)) (take-length (length c) c (omega arith))

pub send_data_buffer-over :
    (c : List ℕ) {b : CircularBuf}
    → IsValid b
    → length c < 2 ^ 31
    → b.max < b.head + length c
    → length c ≤ b.max
    → send_data_buffer c (length c) b
      ≡ ok (put (drop (b.max - b.head) c) (put (take (b.max - b.head) c) b))
unfolding send_data_buffer
send_data_buffer-over c {b} v small over size =
    let m : ℕ = b.max - b.head in
    let b1 : CircularBuf = put (take m c) b in
    let count : length (take m c) ≡ m = length-take_of_le m c (omega arith) in
    let rest : length (drop m c) ≡ length c - m = length-drop m c in
    let v1 : IsValid b1 = put-IsValid (take m c) v (omega arith) in
    let at_front : b1.head + (length c - m) ≤ b1.max =
      put_to_end-room (take m c) b (length c - m) (omega arith) (omega arith) in
    two_more c b
    ∙ send_split_over (suc (length c)) c (length c) v small over
    ∙ ap (λ r. r >>= send_split (suc (length c)) (drop m c) (length c - m))
        (send_split_fits (length c) c m v (omega arith) (omega arith)
          ∙ copy_in_lem c m v (omega arith) (omega arith))
    ∙ send_split_fits (length c) (drop m c) (length c - m) v1 (omega arith) at_front
    ∙ copy_in_lem (drop m c) (length c - m) v1 (omega arith) at_front
    ∙ ap (λ l. ok (put l b1)) (take-length (length c - m) (drop m c) (omega arith))
