-- ===== src/Threads/Race.antt =====
-- A run of the two threads line by line in which the writing thread runs between the lines of
-- `send_data_buffer` (VideoServer/src/buffer.c).
use fagprojekt.Base.{
  ℕ, zero, suc, ◌+◌, ◌%◌, ◌/◌, ◌^◌, ◌≤◌, ◌<◌, ◌≡◌, refl, sym, ◌∙◌, ap, true, false, List, [], ◌∷◌,
  ◌++◌, length, blit, get_elem?, some, ok, add32, int_lt, arith, ltb, ◌==◌,
}
use native.Mathlib.Nat.{mod-eq_of_lt}
use fagprojekt.Memory.{memcpy, memcpy_lem, load, le16}
use fagprojekt.Buffer.{CircularBuf, get_space, buffer_is_empty}
use fagprojekt.Buffer.Space.{entered}
use fagprojekt.Threads.Lines.Asking.{ask_lines, byte_lines}
use fagprojekt.Buffer.Invariant.{IsValid, contents, get_space_lem}
use fagprojekt.Buffer.Contents.{get_space-contents}
use fagprojekt.Connection.{max_packet_size}
use fagprojekt.Threads.Lines.{
  LineSystem, start, calling, testing, accept_packet, copy_data, move_head, compare, set_full,
  load_byte, move_tail, clear_full, write_byte, serve, send, test, read, LineReach, here, later,
}

-- The three places from index `i` on after two bytes were written there.
get_elem?-blit :
    (a : List ℕ) (i x y : ℕ)
    → i + 2 ≤ length a
    → (get_elem? (blit a i (x ∷ y ∷ [])) i ≡ some x)
      × (get_elem? (blit a i (x ∷ y ∷ [])) (i + 1) ≡ some y)
      × (get_elem? (blit a i (x ∷ y ∷ [])) (i + 2) ≡ get_elem? a (i + 2))
get_elem?-blit [] i x y h = absurd (omega arith)
get_elem?-blit (z ∷ []) zero x y h = absurd (omega arith)
get_elem?-blit (z ∷ w ∷ a) zero x y h = (refl, refl, refl)
get_elem?-blit (z ∷ a) (suc i) x y h =
    let (e0, e1, e2) = get_elem?-blit a i x y (omega arith) in
    let two : suc i + 2 ≡ suc (i + 2) = omega arith in
    let one : suc i + 1 ≡ suc (i + 1) = omega arith in (rw two e0, rw (two, one) e1, rw two e2)

load-get_elem? : (a : List ℕ) (i j x : ℕ) → i ≡ j → get_elem? a j ≡ some x → load a i ≡ ok x
unfolding load
load-get_elem? a i j x same e = ground arith

index_step : (a k m : ℕ) → a + k < m → m < 2 ^ 31 → add32 a k % m ≡ a + k
index_step a k m h small =
    ap (λ n. n % m) {x = add32 a k} {y = a + k} (omega arith) ∙ mod-eq_of_lt h

-- A round of the writing thread.
pub write_round :
    {b : CircularBuf} (s : LineSystem) (x : ℕ)
    → LineReach b s
    → s.writer ≡ testing entered
    → buffer_is_empty s.buffer ≡ false
    → load s.buffer.buffer s.buffer.tail ≡ ok x
    → LineReach b (record s {
      buffer = record (s.buffer) { tail = add32 s.buffer.tail 1 % s.buffer.max; full = false };
      writer = testing entered;
      out = s.out ++ (x ∷ []);
    })
write_round s x r at more loads =
    let found = byte_lines s r at more in
    let taken = later found (read (load_byte x refl loads)) in
    later (later (later taken (read (move_tail x refl))) (read (clear_full x refl)))
      (test (write_byte x refl))

-- The buffers on the way: with the two bytes stored, with the first and with both taken out again,
-- then with the result of the comparison.
module _ (lo hi : ℕ) (b : CircularBuf) where
  abbrev with_two : CircularBuf
  with_two = record b {
    buffer = blit b.buffer b.head (lo ∷ hi ∷ []);
    head = add32 b.head 2 % b.max;
  }

  abbrev with_one : CircularBuf
  with_one = record with_two { tail = add32 b.tail 1 % b.max; full = false }

  abbrev with_none : CircularBuf
  with_none = record with_one { tail = add32 with_one.tail 1 % b.max; full = false }

  abbrev marked : CircularBuf
  marked = record with_none { full = with_none.head == with_none.tail }

  module _ (v : IsValid b) (same : b.tail ≡ b.head) (open_ : b.full ≡ false)
      (space : b.head + 2 < b.max) where
    places :
        (get_elem? with_two.buffer b.head ≡ some lo)
        × (get_elem? with_two.buffer (b.head + 1) ≡ some hi)
        × (get_elem? with_two.buffer (b.head + 2) ≡ get_elem? b.buffer (b.head + 2))
    places = get_elem?-blit b.buffer b.head lo hi (omega arith)

    head_two : with_two.head ≡ b.head + 2
    head_two = index_step b.head 2 b.max space v.small

    tail_one : with_one.tail ≡ b.head + 1
    tail_one = index_step b.tail 1 b.max (omega arith) v.small ∙ ap (λ n. n + 1) same

    tail_two : with_none.tail ≡ b.head + 2
    tail_two =
        index_step with_one.tail 1 b.max (omega (arith, tail_one)) v.small ∙ omega (arith, tail_one)

    fits : ltb b.max (add32 2 b.head) ≡ false
    fits = ground arith

    copied_two : memcpy b.buffer b.head (lo ∷ hi ∷ []) 2 ≡ ok with_two.buffer
    copied_two = memcpy_lem b.buffer (lo ∷ hi ∷ []) b.head 2 (omega arith) (omega arith)

    more_two : buffer_is_empty with_two ≡ false
    unfolding buffer_is_empty get_space
    more_two = ground (arith, head_two)

    more_one : buffer_is_empty with_one ≡ false
    unfolding buffer_is_empty get_space
    more_one = ground (arith, head_two, tail_one)

    meet : (with_none.head == with_none.tail) ≡ true
    meet = ground (arith, head_two, tail_two)

    more_marked : buffer_is_empty marked ≡ false
    unfolding buffer_is_empty get_space
    more_marked = ground (arith, meet)

empty_room :
    (b : CircularBuf) (p : List ℕ)
    → IsValid b
    → contents b ≡ []
    → length p ≤ max_packet_size
    → length p + 2 < b.max
    → (b.tail ≡ b.head) × (b.full ≡ false) × (int_lt (add32 (length p) 2) (get_space b) ≡ true)
empty_room b p v e size room =
    let all : get_space b ≡ b.max = omega (arith, get_space-contents v, ap length e) in
    let sum : add32 (length p) 2 ≡ length p + 2 = omega arith in
    (
      ground (arith, all, get_space_lem v),
      ground (arith, all, get_space_lem v),
      ground (arith, all),
    )

-- From a valid, empty buffer with more than two bytes before the end of the array, one packet `p`
-- for which there is room, and the byte `y` that the array holds two places behind the head: an
-- order of the lines is possible in which the two bytes of the length are stored, and written to the
-- FIFO before `head` and `tail` are compared. The buffer is then marked as full with all its bytes
-- taken out, and the writing thread goes on to write `y`, though nothing of `p` has been stored.
pub empty_but_full :
    (b : CircularBuf) (p : List ℕ) (y : ℕ)
    → IsValid b
    → contents b ≡ []
    → b.head + 2 < b.max
    → 0 < length p
    → length p ≤ max_packet_size
    → length p + 2 < b.max
    → get_elem? b.buffer (b.head + 2) ≡ some y
    → (s t : LineSystem) × LineReach b s
      × (s.buffer.head ≡ s.buffer.tail)
      × (s.buffer.full ≡ true)
      × (s.out ≡ le16 (length p))
      × LineReach b t
      × (t.sender ≡ calling (p ∷ []))
      × (t.accepted ≡ p ∷ [])
      × (t.out ≡ le16 (length p) ++ (y ∷ []))
empty_but_full b p y v e space pos size room stale =
    let lo = length p % 256 in
    let hi = length p / 256 % 256 in
    let (same, open_, roomy) = empty_room b p v e size room in
    let (at_lo, at_hi, at_stale) = places lo hi b v same open_ space in
    let head2 = head_two lo hi b v same open_ space in
    let tail1 = tail_one lo hi b v same open_ space in
    let tail2 = tail_two lo hi b v same open_ space in
    let asked = ask_lines (start b) here p refl in
    let accepted = later asked (serve (accept_packet p _ refl pos size roomy)) in
    let copied = later accepted (
      send (
        copy_data (lo ∷ hi ∷ []) (p ∷ []) (with_two lo hi b).buffer refl
          (fits lo hi b v same open_ space) (copied_two lo hi b v same open_ space))) in
    let moved = later copied (send (move_head (lo ∷ hi ∷ []) (p ∷ []) refl)) in
    let first =
      write_round _ lo moved refl (more_two lo hi b v same open_ space)
        (load-get_elem? (with_two lo hi b).buffer b.tail b.head lo same at_lo) in
    let second = write_round _ hi first refl (more_one lo hi b v same open_ space) (
      load-get_elem? (with_two lo hi b).buffer (with_one lo hi b).tail (b.head + 1) hi tail1
        at_hi) in
    let set =
      later (later second (send (compare (p ∷ []) refl))) (send (set_full _ (p ∷ []) refl)) in
    let third = write_round _ y set refl (more_marked lo hi b v same open_ space) (
      load-get_elem? (with_two lo hi b).buffer (marked lo hi b).tail (b.head + 2) y tail2
        (at_stale ∙ stale)) in
    (_, _, set, head2 ∙ sym tail2, meet lo hi b v same open_ space, refl, third, refl, refl, refl)
