-- ===== src/Buffer/Invariant.antt =====
-- The representation invariant of the circular buffer, and the bytes that a buffer stands for.
use fagprojekt.Base.{
  ℕ, ◌+◌, ◌-◌, ◌%◌, ◌^◌, ◌≤◌, ◌<◌, ◌≡◌, true, List, ◌++◌, ◌||◌, arith, ltb, ◌==◌, if◌then◌else◌,
  length, take, slice, blit, length-blit, length-take_of_le, ok,
}
use fagprojekt.Memory.{memcpy}
use fagprojekt.Buffer.{CircularBuf, copy_in, get_space}

-- The block is as long as `max` says, both indices lie in it, and sizes stay positive as `int`.
pub record IsValid (b : CircularBuf) : Type 0 where
  pub nonempty : 0 < b.max
  pub small : b.max < 2 ^ 31
  pub block : length b.buffer ≡ b.max
  pub head_in : b.head < b.max
  pub tail_in : b.tail < b.max
  pub full_at : b.full ≡ true → b.head ≡ b.tail

-- The bytes between tail and head, oldest first; a full buffer and one whose head has wrapped
-- round hold them in two parts.
abbrev pub contents : CircularBuf → List ℕ
contents b =
    if b.full || ltb b.head b.tail
    then slice b.buffer b.tail (b.max - b.tail) ++ slice b.buffer 0 b.head
    else slice b.buffer b.tail (b.head - b.tail)

-- The buffer after `copy_in` has written the block `s`.
unfoldable pub put : List ℕ → CircularBuf → CircularBuf
put s b =
    let head = (b.head + length s) % b.max in
    record b { buffer = blit b.buffer b.head s; head = head; full = head == b.tail }

pub copy_in_lem :
    (bytes : List ℕ) (n : ℕ) {b : CircularBuf}
    → IsValid b
    → n ≤ length bytes
    → b.head + n ≤ b.max
    → copy_in bytes n b ≡ ok (put (take n bytes) b)
unfolding copy_in put memcpy
copy_in_lem bytes n {b} v h k = ground (arith, length-take_of_le n bytes)

pub put-IsValid :
    (s : List ℕ) {b : CircularBuf} → IsValid b → b.head + length s ≤ b.max → IsValid (put s b)
unfolding put
put-IsValid s {b} v h = ground (arith, length-blit b.buffer b.head s)

-- The free space as a plain number.
pub get_space_lem :
    {b : CircularBuf}
    → IsValid b
    → get_space b ≡ (
        if b.full
        then 0
        else if ltb b.head b.tail
        then b.tail - b.head
        else b.max - (b.head - b.tail))
unfolding get_space
get_space_lem v = ground arith
