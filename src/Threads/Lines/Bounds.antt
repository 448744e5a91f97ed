-- ===== src/Threads/Lines/Bounds.antt =====
-- The indices and the sizes in the line by line model of the two threads (VideoServer/src/buffer.c).
use fagprojekt.Base.{
  ℕ, ◌+◌, ◌≤◌, ◌<◌, ◌≡◌, ◌⊎◌, inl, inr, Bool-cases, ◌∙◌, ap, Bool, true, List, [], ◌∷◌, length,
  take, length-blit, length-take_of_le, ltb, ok, add32, arith,
}
use fagprojekt.Memory.{memcpy, memcpy_lem, load, load_within}
use fagprojekt.Buffer.{CircularBuf}
use fagprojekt.Buffer.Invariant.{IsValid}
use fagprojekt.Threads.Lines.{
  LineSender, idle, asking, calling, copied, moved, compared, LineWriter, testing, reading, loaded,
  advanced, writing, LineSystem, PacketLine, SendLine, receive_packet, ask_space, drop_packet,
  accept_packet, split_data, copy_data, move_head, compare, set_full, return, ThreadLine, ReadLine,
  test_space, find_empty, find_byte, load_byte, move_tail, clear_full, write_byte, Line, serve,
  send, test, read, LineReach, here, later,
}
use fagprojekt.Threads.Lines.Sizes.{Fits, Bounds, Fits-at, split-AllSized, copy_fits, copied_block}

-- A step that leaves the buffer alone.
moved_on :
    {s : LineSystem} (w : LineSender) (v : LineWriter) (ps : List (List ℕ)) (o : List ℕ) (u : Bool)
    → Bounds s
    → Fits w s.buffer
    → Bounds
        (record { buffer = s.buffer; sender = w; writer = v; accepted = ps; out = o; marked = u })
moved_on w v ps o u inv fits = record {
  nonempty = inv.nonempty;
  small = inv.small;
  block = inv.block;
  head_in = inv.head_in;
  tail_in = inv.tail_in;
  fits = fits;
}

PacketLine-Bounds : {s t : LineSystem} → PacketLine s t → Bounds s → Bounds t
PacketLine-Bounds {s} (receive_packet p e) inv = moved_on {s = s} _ _ _ _ _ inv tt
PacketLine-Bounds {s} (ask_space p a a' e asked) inv = moved_on {s = s} _ _ _ _ _ inv tt
PacketLine-Bounds {s} (drop_packet p n e tested) inv = moved_on {s = s} _ _ _ _ _ inv tt
PacketLine-Bounds {s} (accept_packet p n e pos size tested) inv =
    moved_on {s = s} _ _ _ _ _ inv (omega arith, omega arith, (pos, size, tt))
PacketLine-Bounds {s} (return e) inv = moved_on {s = s} _ _ _ _ _ inv tt

SendLine-Bounds : {s t : LineSystem} → SendLine s t → Bounds s → Bounds t
SendLine-Bounds {s} (split_data c cs e over) inv = moved_on {s = s} _ _ _ _ _ inv (
    split-AllSized s.buffer.max s.buffer.head c cs inv.head_in inv.small
      (Fits-at s (calling (c ∷ cs)) inv e) over)
SendLine-Bounds {s} (copy_data c cs block e under done) inv =
    let (pos, size, rest) = Fits-at s (calling (c ∷ cs)) inv e in
    let inside = copy_fits s.buffer.max s.buffer.head c inv.small inv.head_in size under in
    let fits : s.buffer.head + length c ≤ length s.buffer.buffer = omega (arith, inv.block) in
    record {
      nonempty = inv.nonempty;
      small = inv.small;
      block =
          ap length (copied_block s.buffer.buffer c block s.buffer.head fits done)
          ∙ length-blit s.buffer.buffer s.buffer.head (take (length c) c)
              (omega (arith, length-take_of_le (length c) c))
          ∙ inv.block;
      head_in = inv.head_in;
      tail_in = inv.tail_in;
      fits = (pos, inside, rest);
    }
SendLine-Bounds {s} (move_head c cs e) inv =
    let (_, _, rest) = Fits-at s (copied c cs) inv e in
    record {
      nonempty = inv.nonempty;
      small = inv.small;
      block = inv.block;
      head_in = ground (arith, inv.nonempty);
      tail_in = inv.tail_in;
      fits = rest;
    }
SendLine-Bounds {s} (compare cs e) inv = moved_on {s = s} _ _ _ _ _ inv (Fits-at s (moved cs) inv e)
SendLine-Bounds {s} (set_full full cs e) inv = record {
  nonempty = inv.nonempty;
  small = inv.small;
  block = inv.block;
  head_in = inv.head_in;
  tail_in = inv.tail_in;
  fits = Fits-at s (compared full cs) inv e;
}

-- The writing thread changes neither the block nor the head.
Fits-tail :
    (w : LineSender) (b : CircularBuf) (tail : ℕ) (full : Bool)
    → Fits w b
    → Fits w (record b { tail = tail; full = full })
Fits-tail idle b tail full f = f
Fits-tail (asking p a) b tail full f = f
Fits-tail (calling cs) b tail full f = f
Fits-tail (copied c cs) b tail full f = f
Fits-tail (moved cs) b tail full f = f
Fits-tail (compared e cs) b tail full f = f

ThreadLine-Bounds : {s t : LineSystem} → ThreadLine s t → Bounds s → Bounds t
ThreadLine-Bounds {s} (test_space a a' e asked) inv = moved_on {s = s} _ _ _ _ _ inv inv.fits
ThreadLine-Bounds {s} (find_empty n e tested) inv = moved_on {s = s} _ _ _ _ _ inv inv.fits
ThreadLine-Bounds {s} (find_byte n e tested) inv = moved_on {s = s} _ _ _ _ _ inv inv.fits
ThreadLine-Bounds {s} (write_byte x e) inv = moved_on {s = s} _ _ _ _ _ inv inv.fits

ReadLine-Bounds : {s t : LineSystem} → ReadLine s t → Bounds s → Bounds t
ReadLine-Bounds {s} (load_byte x e done) inv = moved_on {s = s} _ _ _ _ _ inv inv.fits
ReadLine-Bounds {s} (move_tail x e) inv = record {
  nonempty = inv.nonempty;
  small = inv.small;
  block = inv.block;
  head_in = inv.head_in;
  tail_in = ground (arith, inv.nonempty);
  fits = Fits-tail s.sender s.buffer _ _ inv.fits;
}
ReadLine-Bounds {s} (clear_full x e) inv = record {
  nonempty = inv.nonempty;
  small = inv.small;
  block = inv.block;
  head_in = inv.head_in;
  tail_in = inv.tail_in;
  fits = Fits-tail s.sender s.buffer _ _ inv.fits;
}

pub Line-Bounds : {s t : LineSystem} → Line s t → Bounds s → Bounds t
Line-Bounds (serve l) inv = PacketLine-Bounds l inv
Line-Bounds (send l) inv = SendLine-Bounds l inv
Line-Bounds (test l) inv = ThreadLine-Bounds l inv
Line-Bounds (read l) inv = ReadLine-Bounds l inv

pub LineReach-Bounds : {b : CircularBuf} {s : LineSystem} → IsValid b → LineReach b s → Bounds s
LineReach-Bounds v here = record {
  nonempty = v.nonempty;
  small = v.small;
  block = v.block;
  head_in = v.head_in;
  tail_in = v.tail_in;
  fits = tt;
}
LineReach-Bounds v (later r l) = Line-Bounds l (LineReach-Bounds v r)

-- The access to the block, or the remainder, of the line that each thread comes to next.
abbrev pub SenderDefined : LineSender → CircularBuf → Type 0
SenderDefined (calling (c ∷ cs)) b =
    (ltb b.max (add32 (length c) b.head) ≡ true)
    ⊎ ((block : List ℕ) × (memcpy b.buffer b.head c (length c) ≡ ok block))
SenderDefined (copied c cs) b = 0 < b.max
SenderDefined _ b = Unit

abbrev pub WriterDefined : LineWriter → CircularBuf → Type 0
WriterDefined reading b = (x : ℕ) × (load b.buffer b.tail ≡ ok x)
WriterDefined (loaded x) b = 0 < b.max
WriterDefined _ b = Unit

sender_defined :
    (s : LineSystem) (w : LineSender) → Bounds s → Fits w s.buffer → SenderDefined w s.buffer
sender_defined s idle inv f = tt
sender_defined s (asking p a) inv f = tt
sender_defined s (calling []) inv f = tt
sender_defined s (calling (c ∷ cs)) inv (pos, size, rest) =
    elim (Bool-cases (ltb s.buffer.max (add32 (length c) s.buffer.head))) [
      | inl over ↦ inl over
      | inr under ↦
          let inside = copy_fits s.buffer.max s.buffer.head c inv.small inv.head_in size under in
          inr (
            _,
            memcpy_lem s.buffer.buffer c s.buffer.head (length c) (omega arith)
                (omega (arith, inv.block)),
          )
    ]
sender_defined s (copied c cs) inv f = inv.nonempty
sender_defined s (moved cs) inv f = tt
sender_defined s (compared e cs) inv f = tt

writer_defined : (s : LineSystem) (w : LineWriter) → Bounds s → WriterDefined w s.buffer
writer_defined s (testing a) inv = tt
writer_defined s reading inv =
    load_within s.buffer.buffer s.buffer.tail (omega (arith, inv.block, inv.tail_in))
writer_defined s (loaded x) inv = inv.nonempty
writer_defined s (advanced x) inv = tt
writer_defined s (writing x) inv = tt

-- Whatever the order of their lines, and whatever the buffer has come to hold by it: from a valid
-- buffer, in every state that the two threads reach, both indices lie in the array, and the line
-- that each thread comes to next makes no access out of bounds and no division by zero.
pub lines_defined :
    {b : CircularBuf} {s : LineSystem}
    → IsValid b
    → LineReach b s
    → (s.buffer.head < length s.buffer.buffer)
      × (s.buffer.tail < length s.buffer.buffer)
      × SenderDefined s.sender s.buffer
      × WriterDefined s.writer s.buffer
lines_defined {s = s} v r =
    let inv = LineReach-Bounds v r in
    (
      omega (arith, inv.block, inv.head_in),
      omega (arith, inv.block, inv.tail_in),
      sender_defined s s.sender inv inv.fits,
      writer_defined s s.writer inv,
    )
