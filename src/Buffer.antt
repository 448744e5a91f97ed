-- ===== src/Buffer.antt =====
-- The circular buffer of VideoServer/src/buffer.c, in which the server keeps received data until
-- the second thread writes it to the FIFO. A function that updates `*buf` returns the new struct.
pub mod Invariant
pub mod Contents
pub mod Send
pub mod Calls
pub mod Lines
pub mod Space
use fagprojekt.Base.{
  ℕ, zero, suc, ◌+◌, ◌%◌, Bool, true, false, List, ◌++◌, ltb, leb, ◌==◌, ◌&&◌, if◌then◌else◌, none,
  some, length, take, drop, get_elem?, add32, sub32, Outcome, ok, fault, pending, ◌>>=◌, ◌>>◌,
  defined,
}
use fagprojekt.Memory.{memcpy, load}

-- `struct circular_buf_t`: `buffer` is the block that it points to, `full` is used as a truth value.
pub record CircularBuf : Type 0 where
  pub buffer : List ℕ
  pub head : ℕ
  pub tail : ℕ
  pub max : ℕ
  pub full : Bool

-- The branch of `send_data_buffer` that fits before the end of the array.
unfoldable pub copy_in : List ℕ → ℕ → CircularBuf → Outcome CircularBuf
unfolding memcpy
copy_in bytes len b = do
  block ← memcpy b.buffer b.head bytes len
  defined (ltb 0 b.max)
  let head = add32 b.head len % b.max
  ok (record b { buffer = block; head = head; full = head == b.tail })

-- `send_data_buffer`; the fuel bounds the depth of the calls.
unfoldable pub send_split : ℕ → List ℕ → ℕ → CircularBuf → Outcome CircularBuf
unfolding copy_in
send_split zero bytes len b = pending
send_split (suc fuel) bytes len b = elim (ltb b.max (add32 len b.head)) [
  | true ↦
      let split = sub32 b.max b.head in
      send_split fuel bytes split b >>= λ b'.
      send_split fuel (drop split bytes) (sub32 len split) b'
  | false ↦ copy_in bytes len b
]

-- `len` is an `int` that is not negative. Each split takes at least one byte.
unfoldable pub send_data_buffer : List ℕ → ℕ → CircularBuf → Outcome CircularBuf
unfolding send_split
send_data_buffer bytes len b = send_split (len + 2) bytes len b

-- The byte goes through `data`.
unfoldable pub read_data_buffer : CircularBuf → Outcome (ℕ × CircularBuf)
unfolding load
read_data_buffer b = do
  x ← load b.buffer b.tail
  defined (ltb 0 b.max)
  ok (x, record b { tail = add32 b.tail 1 % b.max; full = false })

unfoldable pub get_space : CircularBuf → ℕ
get_space b =
    if b.full
    then 0
    else if ltb b.head b.tail
    then sub32 b.max (sub32 (add32 b.head b.max) b.tail)
    else sub32 b.max (sub32 b.head b.tail)

unfoldable pub fill_level : CircularBuf → ℕ
unfolding get_space
fill_level b = sub32 b.max (get_space b)

unfoldable pub buffer_is_empty : CircularBuf → Bool
unfolding get_space
buffer_is_empty b = get_space b == b.max

-- The block is what `malloc` returned for `size` bytes, with whatever it holds.
unfoldable pub init_buffer : List ℕ → ℕ → CircularBuf
init_buffer block size = record { buffer = block; head = 0; tail = 0; max = size; full = false }
