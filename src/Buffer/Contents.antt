-- ===== src/Buffer/Contents.antt =====
-- Each operation of a valid buffer is the operation of a queue of bytes.
use fagprojekt.Base.{
  ℕ, suc, ◌+◌, ◌-◌, ◌%◌, ◌≤◌, ◌<◌, ◌≡◌, refl, true, false, List, [], ◌∷◌, ◌++◌, arith, ◌==◌, length,
  drop, slice, blit, slice-blit_across, slice-blit_after, slice-cons, length-append,
  length-take_of_le, length-drop, append_assoc, append-nil, eq_nil_of_length, ap, ◌∙◌, dec_lt,
  ==_iff, some, get_elem?, ok, ◌↔◌,
}
use native.Mathlib.Nat.{mod-eq_of_lt, mod_self}
use fagprojekt.Buffer.{CircularBuf, read_data_buffer, get_space, fill_level, buffer_is_empty}
use fagprojekt.Memory.{load}
use fagprojekt.Buffer.Invariant.{IsValid, contents, put, get_space_lem}

length-slice : (a : List ℕ) (i n : ℕ) → i + n ≤ length a → length (slice a i n) ≡ n
length-slice a i n h = length-take_of_le n (drop i a) (omega (arith, length-drop i a))

-- Used and free space make up the buffer.
pub get_space-contents : {b : CircularBuf} → IsValid b → get_space b + length (contents b) ≡ b.max
get_space-contents {b} v = ground (
  arith,
  get_space_lem v,
  length-slice b.buffer b.tail (b.max - b.tail),
  length-slice b.buffer 0 b.head,
  length-slice b.buffer b.tail (b.head - b.tail),
  length-append (slice b.buffer b.tail (b.max - b.tail)) (slice b.buffer 0 b.head),
)

-- The head after a write, where the block ends before the end of the array and where it reaches it.
pub put_inside :
    (s : List ℕ) (b : CircularBuf)
    → b.head + length s < b.max
    → put s b ≡ record b {
      buffer = blit b.buffer b.head s;
      head = b.head + length s;
      full = b.head + length s == b.tail;
    }
unfolding put
put_inside s b h = rw (mod-eq_of_lt h)

pub put_to_end :
    (s : List ℕ) (b : CircularBuf)
    → b.head + length s ≡ b.max
    → put s b ≡ record b { buffer = blit b.buffer b.head s; head = 0; full = 0 == b.tail }
unfolding put
put_to_end s b h =
    ap (λ k. record b { buffer = blit b.buffer b.head s; head = k; full = k == b.tail })
      (ap (λ k. k % b.max) h ∙ mod_self b.max)

-- A block that fits into the free space, in one piece, is appended.
pub contents-put :
    (s : List ℕ) {b : CircularBuf}
    → IsValid b
    → 0 < length s
    → b.head + length s ≤ b.max
    → length s ≤ get_space b
    → contents (put s b) ≡ contents b ++ s
contents-put s {b} v pos fits room = elim (dec_lt (b.head + length s) b.max) [
  | yes p ↦ rw (put_inside s b p) (
      ground (
        arith,
        get_space_lem v,
        slice-blit_after b.buffer b.head s (omega arith) b.tail (b.max - b.tail),
        slice-blit_across b.buffer b.head s (omega arith) 0 (b.head + length s),
        slice-blit_across b.buffer b.head s (omega arith) b.tail (b.head + length s - b.tail),
        append_assoc (slice b.buffer b.tail (b.max - b.tail)) (slice b.buffer 0 b.head) s,
      ))
  | no p ↦ rw (put_to_end s b (omega arith)) (
      ground (
        arith,
        get_space_lem v,
        slice-blit_across b.buffer b.head s (omega arith) b.tail (b.max - b.tail),
        append-nil (slice b.buffer b.tail (b.head - b.tail) ++ s),
      ))
]

-- The buffer after a read.
unfoldable pub pop : CircularBuf → CircularBuf
pop b = record b { tail = (b.tail + 1) % b.max; full = false }

pub pop-IsValid : {b : CircularBuf} → IsValid b → IsValid (pop b)
unfolding pop
pop-IsValid v = ground arith

pop_inside :
    (b : CircularBuf) → b.tail + 1 < b.max → pop b ≡ record b { tail = b.tail + 1; full = false }
unfolding pop
pop_inside b h = rw (mod-eq_of_lt h)

pop_to_end : (b : CircularBuf) → b.tail + 1 ≡ b.max → pop b ≡ record b { tail = 0; full = false }
unfolding pop
pop_to_end b h =
    ap (λ k. record b { tail = k; full = false }) (ap (λ k. k % b.max) h ∙ mod_self b.max)

slice-suc :
    (a : List ℕ) (i n : ℕ) (x : ℕ)
    → 0 < n
    → ((k : ℕ) → slice a i (suc k) ≡ x ∷ slice a (suc i) k)
    → slice a i n ≡ x ∷ slice a (i + 1) (n - 1)
slice-suc a i n x pos h =
    ap (slice a i) {x = n} {y = suc (n - 1)} (omega arith)
    ∙ h (n - 1)
    ∙ ap (λ j. x ∷ slice a j (n - 1)) {x = suc i} {y = i + 1} (omega arith)

-- The oldest byte of a buffer that holds something is the one at the tail.
pub contents-pop :
    {b : CircularBuf}
    → IsValid b
    → get_space b < b.max
    → (x : ℕ) × (get_elem? b.buffer b.tail ≡ some x) × (contents b ≡ x ∷ contents (pop b))
contents-pop {b} v used =
    let (x, at_tail, parts) = slice-cons b.tail b.buffer (omega arith) in
    (
      x,
      at_tail,
      elim (dec_lt (b.tail + 1) b.max) [
        | yes p ↦ rw (pop_inside b p) (
            ground (
              arith,
              get_space_lem v,
              slice-suc b.buffer b.tail (b.max - b.tail) x (omega arith) parts,
              λ (h : 0 < b.head - b.tail). slice-suc b.buffer b.tail (b.head - b.tail) x h parts,
            ))
        | no p ↦ rw (pop_to_end b (omega arith)) (ground (arith, get_space_lem v, parts 0))
      ],
    )

read_at_tail :
    {b : CircularBuf} (x : ℕ)
    → IsValid b
    → get_elem? b.buffer b.tail ≡ some x
    → read_data_buffer b ≡ ok (x, pop b)
unfolding read_data_buffer load pop
read_at_tail x v e = ground arith

-- Reading a valid buffer that holds something succeeds: it gives the oldest of its bytes, and
-- leaves a valid buffer of the same size with the others.
pub read_data_buffer_lem :
    {b : CircularBuf}
    → IsValid b
    → 0 < length (contents b)
    → (x : ℕ) × (b' : CircularBuf) × (read_data_buffer b ≡ ok (x, b'))
      × IsValid b'
      × (b'.max ≡ b.max)
      × (contents b ≡ x ∷ contents b')
unfolding pop
read_data_buffer_lem {b} v h =
    let (x, at_tail, parts) = contents-pop v (omega (arith, get_space-contents v)) in
    (x, pop b, read_at_tail x v at_tail, pop-IsValid v, refl, parts)

-- `fill_level` is the number of bytes held, and `buffer_is_empty` says whether there are none.
pub fill_level_lem :
    {b : CircularBuf}
    → IsValid b
    → (fill_level b ≡ length (contents b)) × ((buffer_is_empty b ≡ true) ↔ (contents b ≡ []))
unfolding fill_level buffer_is_empty
fill_level_lem {b} v = (
  omega (arith, get_space-contents v),
  (
    λ e.
        eq_nil_of_length (contents b)
          (omega (arith, get_space-contents v, (==_iff (get_space b) b.max).0 e)),
    λ e. (==_iff (get_space b) b.max).1 (omega (arith, get_space-contents v, ap length e)),
  ),
)

pub length-contents_pos :
    {b : CircularBuf} → IsValid b → buffer_is_empty b ≡ false → 0 < length (contents b)
unfolding buffer_is_empty
length-contents_pos v e = ground (arith, get_space-contents v)
