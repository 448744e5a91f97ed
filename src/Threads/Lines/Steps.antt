-- ===== src/Threads/Lines/Steps.antt =====
-- How the lines of the receiving thread (VideoServer/src/server.c and buffer.c), and with them all
-- lines, keep the invariant of the two threads.
use fagprojekt.Base.{
  ℕ, ◌+◌, ◌%◌, ◌≤◌, ◌≡◌, refl, sym, ◌∙◌, ap, Bool, false, ◌||◌, List, [], ◌∷◌, ◌++◌, length, take,
  drop, slice, blit, take-append-drop, take-length, length-append, append_assoc, append-nil, ltb,
  ok, add32, sub32, arith,
}
use fagprojekt.Memory.{memcpy, le16}
use fagprojekt.Buffer.{CircularBuf}
use fagprojekt.Buffer.Invariant.{contents}
use fagprojekt.Buffer.Space.{entered, answered, SpaceLine-Room}
use fagprojekt.Buffer.Lines.{contents-blit, contents-move, slice-blit_self, meet-contents}
use fagprojekt.Server.Packet.{frame}
use fagprojekt.Threads.Invariant.{frames-one, regroup}
use fagprojekt.Threads.Lines.{
  LineSender, idle, asking, calling, copied, moved, compared, LineSystem, PacketLine, SendLine,
  receive_packet, ask_space, drop_packet, accept_packet, split_data, copy_data, move_head, compare,
  set_full, return, Line, serve, send, test, read,
}
use fagprojekt.Threads.Lines.Sizes.{Bounds, Fits-at, copy_fits, copied_block}
use fagprojekt.Threads.Lines.Bounds.{Line-Bounds}
use fagprojekt.Threads.Lines.Invariant.{
  joined, to_store, in_hand, Inv, Inv-IsValid, stream_at, room_at, Ready-at, Held-more, Ready,
}
use fagprojekt.Threads.Lines.WriterSteps.{ThreadLine-Inv, ReadLine-Inv}

pub unmarked : (m f : Bool) → (m || f) ≡ false → (m ≡ false) × (f ≡ false)
unmarked m f e = ground arith

copy-Inv :
    (s : LineSystem) (c : List ℕ) (cs : List (List ℕ)) (block : List ℕ)
    (e : s.sender ≡ calling (c ∷ cs))
    (under : ltb s.buffer.max (add32 (length c) s.buffer.head) ≡ false)
    (done : memcpy s.buffer.buffer s.buffer.head c (length c) ≡ ok block)
    → Inv s
    → Inv (record s { buffer = record (s.buffer) { buffer = block }; sender = copied c cs })
copy-Inv s c cs block e under done inv =
    let b : CircularBuf = s.buffer in
    let (pos, size, _) = Fits-at s (calling (c ∷ cs)) inv.bounds e in
    let inside = copy_fits b.max b.head c inv.bounds.small inv.bounds.head_in size under in
    let fits : b.head + length c ≤ length b.buffer = omega (arith, inv.bounds.block) in
    let room = room_at s (calling (c ∷ cs)) inv e in
    let written : block ≡ blit b.buffer b.head c =
      copied_block b.buffer c block b.head fits done
      ∙ ap (blit b.buffer b.head) (take-length (length c) c (omega arith)) in
    let same : contents (record b { buffer = block }) ≡ contents b =
      ap (λ a. contents (record b { buffer = a })) written
      ∙ contents-blit (Inv-IsValid inv) inv.open_ c inside
          (omega (arith, length-append c (joined cs))) in
    record {
      bounds = Line-Bounds (send (copy_data c cs block e under done)) inv.bounds;
      open_ = inv.open_;
      ready = ap (λ a. slice a b.head (length c)) written ∙ slice-blit_self b.buffer b.head c fits;
      room = omega (arith, ap length same);
      held =
          Held-more s.writer b (record b { buffer = block }) []
            (same ∙ sym (append-nil (contents b))) refl inv.held;
      stream =
          ap (λ l. s.out ++ (in_hand s.writer ++ (l ++ (c ++ joined cs)))) same
          ∙ stream_at s (calling (c ∷ cs)) s.writer inv e refl;
    }

move-Inv :
    (s : LineSystem) (c : List ℕ) (cs : List (List ℕ)) (e : s.sender ≡ copied c cs)
    → Inv s
    → Inv (record s {
      buffer = record (s.buffer) { head = add32 s.buffer.head (length c) % s.buffer.max };
      sender = moved cs;
    })
move-Inv s c cs e inv =
    let b : CircularBuf = s.buffer in
    let b' : CircularBuf = record b { head = add32 b.head (length c) % b.max } in
    let (pos, inside, _) = Fits-at s (copied c cs) inv.bounds e in
    let room = room_at s (copied c cs) inv e in
    let more : contents b' ≡ contents b ++ c =
      contents-move (Inv-IsValid inv) inv.open_ c pos inside
        (omega (arith, length-append c (joined cs))) (Ready-at s (copied c cs) inv e) in
    record {
      bounds = Line-Bounds (send (move_head c cs e)) inv.bounds;
      open_ = inv.open_;
      ready = tt;
      room =
          omega (arith, ap length more, length-append (contents b) c, length-append c (joined cs));
      held = Held-more s.writer b b' c more refl inv.held;
      stream =
          ap (λ l. s.out ++ (in_hand s.writer ++ l))
            (ap (λ l. l ++ joined cs) more ∙ append_assoc (contents b) c (joined cs))
          ∙ stream_at s (copied c cs) s.writer inv e refl;
    }

full-Inv :
    (s : LineSystem) (full : Bool) (cs : List (List ℕ)) (e : s.sender ≡ compared full cs)
    → full ≡ false
    → Inv s
    → Inv (record s {
      buffer = record (s.buffer) { full = full };
      sender = calling cs;
      marked = s.marked || full;
    })
full-Inv s full cs e not_full inv =
    let same : contents (record (s.buffer) { full = full }) ≡ contents s.buffer =
      ap (λ f. contents (record (s.buffer) { full = f })) (not_full ∙ sym inv.open_) in
    record {
      bounds = Line-Bounds (send (set_full full cs e)) inv.bounds;
      open_ = not_full;
      ready = tt;
      room = omega (arith, ap length same, room_at s (compared full cs) inv e);
      held =
          Held-more s.writer s.buffer (record (s.buffer) { full = full }) []
            (same ∙ sym (append-nil (contents s.buffer))) refl inv.held;
      stream =
          ap (λ l. s.out ++ (in_hand s.writer ++ (l ++ joined cs))) same
          ∙ stream_at s (compared full cs) s.writer inv e refl;
    }

-- Neither the buffer nor the bytes to store change.
waits-Inv :
    (s : LineSystem) (w v : LineSender)
    → Inv s
    → s.sender ≡ w
    → to_store v ≡ []
    → to_store w ≡ []
    → Ready v s.buffer
    → Bounds (record s { sender = v })
    → Inv (record s { sender = v })
waits-Inv s w v inv e no_v no_w ready bounds = record {
  bounds = bounds;
  open_ = inv.open_;
  ready = ready;
  room = omega (arith, room_at s w inv e, ap length no_v, ap length no_w);
  held = inv.held;
  stream =
      ap (λ l. s.out ++ (in_hand s.writer ++ (contents s.buffer ++ l))) (no_v ∙ sym no_w)
      ∙ stream_at s w s.writer inv e refl;
}

PacketLine-Inv : {s t : LineSystem} → PacketLine s t → t.marked ≡ false → Inv s → Inv t
PacketLine-Inv {s} (receive_packet p e) clean inv =
    waits-Inv s idle (asking p entered) inv e refl refl tt
      (Line-Bounds (serve (receive_packet {s = s} p e)) inv.bounds)
PacketLine-Inv {s} (ask_space p a a' e asked) clean inv =
    waits-Inv s (asking p a) (asking p a') inv e refl refl
      (SpaceLine-Room (Inv-IsValid inv) inv.open_ p asked (Ready-at s (asking p a) inv e))
      (Line-Bounds (serve (ask_space {s = s} p a a' e asked)) inv.bounds)
PacketLine-Inv {s} (drop_packet p n e tested) clean inv =
    waits-Inv s (asking p (answered n)) idle inv e refl refl tt
      (Line-Bounds (serve (drop_packet {s = s} p n e tested)) inv.bounds)
PacketLine-Inv {s} (accept_packet p n e pos size tested) clean inv =
    let room = Ready-at s (asking p (answered n)) inv e tested size in
    record {
      bounds = Line-Bounds (serve (accept_packet p n e pos size tested)) inv.bounds;
      open_ = inv.open_;
      ready = tt;
      room = omega (arith, room, length-append p []);
      held = inv.held;
      stream =
          ap (λ l. s.out ++ (in_hand s.writer ++ (contents s.buffer ++ l)))
            (ap (λ l. le16 (length p) ++ l) (append-nil p))
          ∙ regroup s.out (in_hand s.writer) (contents s.buffer) (frame p)
          ∙ ap (λ l. l ++ frame p) (stream_at s (asking p (answered n)) s.writer inv e refl)
          ∙ sym (frames-one s.accepted p);
    }
PacketLine-Inv {s} (return e) clean inv = record {
  bounds = Line-Bounds (serve (return {s = s} e)) inv.bounds;
  open_ = inv.open_;
  ready = tt;
  room = room_at s (calling []) inv e;
  held = inv.held;
  stream = stream_at s (calling []) s.writer inv e refl;
}

SendLine-Inv : {s t : LineSystem} → SendLine s t → t.marked ≡ false → Inv s → Inv t
SendLine-Inv {s} (split_data c cs e over) clean inv =
    let n : ℕ = sub32 s.buffer.max s.buffer.head in
    let same : joined (take n c ∷ drop n c ∷ cs) ≡ joined (c ∷ cs) =
      sym (append_assoc (take n c) (drop n c) (joined cs))
      ∙ ap (λ l. l ++ joined cs) (take-append-drop n c) in
    record {
      bounds = Line-Bounds (send (split_data c cs e over)) inv.bounds;
      open_ = inv.open_;
      ready = tt;
      room = omega (arith, ap length same, room_at s (calling (c ∷ cs)) inv e);
      held = inv.held;
      stream =
          ap (λ l. s.out ++ (in_hand s.writer ++ (contents s.buffer ++ l))) same
          ∙ stream_at s (calling (c ∷ cs)) s.writer inv e refl;
    }
SendLine-Inv {s} (copy_data c cs block e under done) clean inv =
    copy-Inv s c cs block e under done inv
SendLine-Inv {s} (move_head c cs e) clean inv = move-Inv s c cs e inv
SendLine-Inv {s} (compare cs e) clean inv = record {
  bounds = Line-Bounds (send (compare cs e)) inv.bounds;
  open_ = inv.open_;
  ready = meet-contents (Inv-IsValid inv) inv.open_;
  room = room_at s (moved cs) inv e;
  held = inv.held;
  stream = stream_at s (moved cs) s.writer inv e refl;
}
SendLine-Inv {s} (set_full full cs e) clean inv =
    full-Inv s full cs e (unmarked s.marked full clean).1 inv

pub Line-Inv : {s t : LineSystem} → Line s t → t.marked ≡ false → Inv s → Inv t
Line-Inv (serve l) clean inv = PacketLine-Inv l clean inv
Line-Inv (send l) clean inv = SendLine-Inv l clean inv
Line-Inv (test l) clean inv = ThreadLine-Inv l inv
Line-Inv (read l) clean inv = ReadLine-Inv l inv
