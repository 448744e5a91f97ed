-- ===== src/Threads/Lines/Sizes.antt =====
-- The sizes of the data on its way into the buffer, in the line by line model of the two threads
-- (VideoServer/src/buffer.c).
use fagprojekt.Base.{
  ℕ, ◌+◌, ◌-◌, ◌^◌, ◌≤◌, ◌<◌, ◌≡◌, sym, ◌∙◌, subst, true, false, List, [], ◌∷◌, length, take, drop,
  blit, length-take_of_le, length-drop, ltb, Outcome, ok, add32, sub32, arith,
}
use fagprojekt.Memory.{memcpy, memcpy_lem}
use fagprojekt.Buffer.{CircularBuf}
use fagprojekt.Connection.{max_packet_size}
use fagprojekt.Threads.Lines.{
  LineSender, idle, asking, calling, copied, moved, compared, LineSystem,
}

abbrev pub AllSized : List (List ℕ) → Type 0
AllSized [] = Unit
AllSized (c ∷ cs) = (0 < length c) × (length c ≤ max_packet_size) × AllSized cs

-- The data of the calls to be made is not empty and no longer than a packet, and what has been
-- copied ends within the array.
abbrev pub Fits : LineSender → CircularBuf → Type 0
Fits idle b = Unit
Fits (asking p a) b = Unit
Fits (calling cs) b = AllSized cs
Fits (copied c cs) b = (0 < length c) × (b.head + length c ≤ b.max) × AllSized cs
Fits (moved cs) b = AllSized cs
Fits (compared full cs) b = AllSized cs

pub record Bounds (s : LineSystem) : Type 0 where
  pub nonempty : 0 < s.buffer.max
  pub small : s.buffer.max < 2 ^ 31
  pub block : length s.buffer.buffer ≡ s.buffer.max
  pub head_in : s.buffer.head < s.buffer.max
  pub tail_in : s.buffer.tail < s.buffer.max
  pub fits : Fits s.sender s.buffer

pub Fits-at : (s : LineSystem) (w : LineSender) → Bounds s → s.sender ≡ w → Fits w s.buffer
Fits-at s w inv e = subst (λ x. Fits x s.buffer) e inv.fits

-- A split of data that goes beyond the end of the array.
pub split-AllSized :
    (n h : ℕ) (c : List ℕ) (cs : List (List ℕ))
    → h < n
    → n < 2 ^ 31
    → AllSized (c ∷ cs)
    → ltb n (add32 (length c) h) ≡ true
    → AllSized (take (sub32 n h) c ∷ drop (sub32 n h) c ∷ cs)
split-AllSized n h c cs inside small (pos, size, rest) over =
    let room : sub32 n h ≡ n - h = omega arith in
    let long : n < length c + h = ground arith in
    rw room (
      omega (arith, length-take_of_le (n - h) c),
      omega (arith, length-take_of_le (n - h) c),
      (omega (arith, length-drop (n - h) c), omega (arith, length-drop (n - h) c), rest),
    )

-- Data that does not go beyond the end, and the block after it was copied.
pub copy_fits :
    (n h : ℕ) (c : List ℕ)
    → n < 2 ^ 31
    → h < n
    → length c ≤ max_packet_size
    → ltb n (add32 (length c) h) ≡ false
    → h + length c ≤ n
copy_fits n h c small inside size under = ground arith

pub copied_block :
    (a c block : List ℕ) (h : ℕ)
    → h + length c ≤ length a
    → memcpy a h c (length c) ≡ ok block
    → block ≡ blit a h (take (length c) c)
copied_block a c block h fits done =
    let both : ◌≡◌ {A = Outcome (List ℕ)} (ok block) (ok (blit a h (take (length c) c))) =
      sym done ∙ memcpy_lem a c h (length c) (omega arith) fits in
    cc both
