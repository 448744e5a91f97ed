-- ===== src/Threads/Lines/WriterSteps.antt =====
-- How the lines of the writing thread (VideoServer/src/server.c, and in buffer.c those of
-- `read_data_buffer` and `get_space`) keep the invariant of the two threads.
use fagprojekt.Base.{
  ℕ, ◌%◌, ◌<◌, ◌⊎◌, inl, inr, ◌==◌, ◌≡◌, refl, sym, ◌∙◌, ap, false, [], ◌∷◌, ◌++◌, length,
  append_assoc, add32, arith,
}
use fagprojekt.Buffer.{CircularBuf}
use fagprojekt.Buffer.Invariant.{contents}
use fagprojekt.Buffer.Space.{answered, SpaceLine-Found}
use fagprojekt.Buffer.Lines.{contents-load, contents-advance}
use fagprojekt.Threads.Lines.{
  testing, reading, loaded, advanced, writing, LineSystem, ThreadLine, ReadLine, test_space,
  find_empty, find_byte, load_byte, move_tail, clear_full, write_byte, test, read,
}
use fagprojekt.Threads.Lines.Bounds.{Line-Bounds}
use fagprojekt.Threads.Lines.Invariant.{
  to_store, Inv, Inv-IsValid, stream_at, Held-at, same_contents, Ready-tail, Ready-full,
}

some_found :
    (b : CircularBuf) (n : ℕ)
    → (n == b.max) ≡ false
    → (n ≡ b.max) ⊎ (0 < length (contents b))
    → 0 < length (contents b)
some_found b n e (inl all) = ground arith
some_found b n e (inr h) = h

pub ThreadLine-Inv : {s t : LineSystem} → ThreadLine s t → Inv s → Inv t
ThreadLine-Inv {s} (test_space a a' e asked) inv = record {
  bounds = Line-Bounds (test (test_space {s = s} a a' e asked)) inv.bounds;
  open_ = inv.open_;
  ready = inv.ready;
  room = inv.room;
  held = SpaceLine-Found (Inv-IsValid inv) inv.open_ asked (Held-at s (testing a) inv e);
  stream = stream_at s s.sender (testing a) inv refl e;
}
ThreadLine-Inv {s} (find_empty n e tested) inv = record {
  bounds = Line-Bounds (test (find_empty {s = s} n e tested)) inv.bounds;
  open_ = inv.open_;
  ready = inv.ready;
  room = inv.room;
  held = tt;
  stream = stream_at s s.sender (testing (answered n)) inv refl e;
}
ThreadLine-Inv {s} (find_byte n e tested) inv = record {
  bounds = Line-Bounds (test (find_byte {s = s} n e tested)) inv.bounds;
  open_ = inv.open_;
  ready = inv.ready;
  room = inv.room;
  held = some_found s.buffer n tested (Held-at s (testing (answered n)) inv e);
  stream = stream_at s s.sender (testing (answered n)) inv refl e;
}
ThreadLine-Inv {s} (write_byte x e) inv = record {
  bounds = Line-Bounds (test (write_byte x e)) inv.bounds;
  open_ = inv.open_;
  ready = inv.ready;
  room = inv.room;
  held = tt;
  stream = append_assoc s.out (x ∷ []) _ ∙ stream_at s s.sender (writing x) inv refl e;
}

pub ReadLine-Inv : {s t : LineSystem} → ReadLine s t → Inv s → Inv t
ReadLine-Inv {s} (load_byte x e done) inv = record {
  bounds = Line-Bounds (read (load_byte x e done)) inv.bounds;
  open_ = inv.open_;
  ready = inv.ready;
  room = inv.room;
  held = contents-load (Inv-IsValid inv) inv.open_ x (Held-at s reading inv e) done;
  stream = stream_at s s.sender reading inv refl e;
}
ReadLine-Inv {s} (move_tail x e) inv =
    let b : CircularBuf = s.buffer in
    let b' : CircularBuf = record b { tail = add32 b.tail 1 % b.max } in
    let (r, first) = Held-at s (loaded x) inv e in
    let parts : contents b ≡ x ∷ contents b' =
      contents-advance (Inv-IsValid inv) inv.open_ x r first in
    record {
      bounds = Line-Bounds (read (move_tail x e)) inv.bounds;
      open_ = inv.open_;
      ready = Ready-tail s.sender b x (Inv-IsValid inv) inv.open_ parts inv.ready;
      room = omega (arith, inv.room, ap length parts);
      held = tt;
      stream =
          ap (λ l. s.out ++ (l ++ to_store s.sender)) (sym parts)
          ∙ stream_at s s.sender (loaded x) inv refl e;
    }
ReadLine-Inv {s} (clear_full x e) inv =
    let same = same_contents s.buffer inv.open_ in
    record {
      bounds = Line-Bounds (read (clear_full x e)) inv.bounds;
      open_ = refl;
      ready = Ready-full s.sender s.buffer inv.open_ inv.ready;
      room = omega (arith, inv.room, ap length same);
      held = tt;
      stream =
          ap (λ l. s.out ++ ((x ∷ []) ++ (l ++ to_store s.sender))) same
          ∙ stream_at s s.sender (advanced x) inv refl e;
    }
