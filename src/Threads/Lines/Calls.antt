-- ===== src/Threads/Lines/Calls.antt =====
-- The model in which each call of a function of VideoServer/src/buffer.c is one step, against the one
-- line by line.
use fagprojekt.Base.{
  ℕ, ◌+◌, ◌-◌, ◌%◌, ◌≤◌, ◌<◌, ◌≡◌, refl, sym, ◌∙◌, ap, subst, Bool, true, false, ◌||◌, List, [],
  ◌∷◌, length, take, drop, blit, take-length, length-take_of_le, length-drop, ltb, ok, add32, sub32,
  arith, dec_le, ◌==◌,
}
use fagprojekt.Memory.{memcpy, memcpy_lem, load, le16}
use fagprojekt.Buffer.{CircularBuf, send_data_buffer, read_data_buffer}
use fagprojekt.Buffer.Space.{entered}
use fagprojekt.Threads.Lines.Asking.{ask_lines, empty_lines, byte_lines}
use fagprojekt.Buffer.Invariant.{IsValid, contents, put, put-IsValid}
use fagprojekt.Buffer.Calls.{put_to_end-room, send_data_buffer-fits, send_data_buffer-over}
use fagprojekt.Buffer.Contents.{get_space-contents}
use fagprojekt.Threads.Invariant.{Inv, Room-at, Reach-Inv}
use fagprojekt.Threads.{Sender, Writer, System, TestStep, StoreStep, WriterStep, Step, Reach}
use fagprojekt.Threads.Lines.{
  LineSender, idle, calling, LineWriter, testing, reading, writing, LineSystem, drop_packet,
  accept_packet, split_data, copy_data, move_head, compare, set_full, return, load_byte, move_tail,
  clear_full, write_byte, serve, send, test, read, LineReach, here, later,
}

-- The state reached with another buffer and the calls `cs` to be made.
abbrev After : CircularBuf → LineSystem → CircularBuf → List (List ℕ) → Type 0
After b0 s b cs =
    (u : Bool) × LineReach b0 (record s { buffer = b; sender = calling cs; marked = u })

fields-put :
    (c : List ℕ) (b : CircularBuf)
    → IsValid b
    → b.head + length c ≤ b.max
    → record b {
      buffer = blit b.buffer b.head c;
      head = add32 b.head (length c) % b.max;
      full = (add32 b.head (length c) % b.max) == b.tail;
    }
      ≡ put c b
unfolding put
fields-put c b v inside =
    ap
      (λ n. record b {
        buffer = blit b.buffer b.head c;
        head = n % b.max;
        full = (n % b.max) == b.tail;
      })
      {x = add32 b.head (length c)} {y = b.head + length c} (omega (arith, v.small, v.head_in))

-- A call that fits before the end of the array.
call_fits :
    {b0 : CircularBuf} (s : LineSystem) (c : List ℕ) (cs : List (List ℕ))
    → LineReach b0 s
    → s.sender ≡ calling (c ∷ cs)
    → IsValid s.buffer
    → s.buffer.head + length c ≤ s.buffer.max
    → After b0 s (put c s.buffer) cs
call_fits {b0} s c cs r at v inside =
    let b : CircularBuf = s.buffer in
    let under : ltb b.max (add32 (length c) b.head) ≡ false = ground (arith, v.small) in
    let copies : memcpy b.buffer b.head c (length c) ≡ ok (blit b.buffer b.head c) =
      memcpy_lem b.buffer c b.head (length c) (omega arith) (omega (arith, v.block))
      ∙ ap (λ l. ok (blit b.buffer b.head l)) (take-length (length c) c (omega arith)) in
    let copied = later r (send (copy_data c cs (blit b.buffer b.head c) at under copies)) in
    let moved = later copied (send (move_head c cs refl)) in
    let done = later (later moved (send (compare cs refl))) (send (set_full _ cs refl)) in
    (
      _,
      subst
          (λ x. LineReach b0 (record s {
            buffer = x;
            sender = calling cs;
            marked = s.marked || ((add32 b.head (length c) % b.max) == b.tail);
          }))
          (fields-put c b v inside) done,
    )

-- A call whose data goes beyond the end of the array.
call_over :
    {b0 : CircularBuf} (s : LineSystem) (c : List ℕ) (cs : List (List ℕ))
    → LineReach b0 s
    → s.sender ≡ calling (c ∷ cs)
    → IsValid s.buffer
    → s.buffer.max < s.buffer.head + length c
    → length c ≤ s.buffer.max
    → After b0 s
        (put
          (drop (s.buffer.max - s.buffer.head) c)
          (put (take (s.buffer.max - s.buffer.head) c) s.buffer))
        cs
call_over {b0} s c cs r at v over size =
    let b : CircularBuf = s.buffer in
    let m : ℕ = b.max - b.head in
    let beyond : ltb b.max (add32 (length c) b.head) ≡ true = ground (arith, v.small) in
    let room : sub32 b.max b.head ≡ m = omega (arith, v.small, v.head_in) in
    let split : LineReach b0 (record s { sender = calling (take m c ∷ drop m c ∷ cs) }) =
      subst (λ n. LineReach b0 (record s { sender = calling (take n c ∷ drop n c ∷ cs) })) room
        (later r (send (split_data c cs at beyond))) in
    let count : length (take m c) ≡ m = length-take_of_le m c (omega arith) in
    let (u, first) =
      call_fits (record s { sender = calling (take m c ∷ drop m c ∷ cs) }) (take m c)
        (drop m c ∷ cs) split refl v (omega arith) in
    call_fits (record s { buffer = put (take m c) b; sender = calling (drop m c ∷ cs); marked = u })
      (drop m c) cs first refl (put-IsValid (take m c) v (omega arith))
      (put_to_end-room (take m c) b (length (drop m c)) (omega arith)
        (omega (arith, length-drop m c)))

same_buffer : (b b' : CircularBuf) → ok b ≡ ok b' → b ≡ b'
same_buffer b b' e = cc e

-- A call of `send_data_buffer` is a run of its lines.
call_lines :
    {b0 : CircularBuf} (s : LineSystem) (c : List ℕ) (cs : List (List ℕ)) (b' : CircularBuf)
    → LineReach b0 s
    → s.sender ≡ calling (c ∷ cs)
    → IsValid s.buffer
    → length c ≤ s.buffer.max
    → send_data_buffer c (length c) s.buffer ≡ ok b'
    → After b0 s b' cs
call_lines {b0} s c cs b' r at v size done = elim (dec_le (s.buffer.head + length c) s.buffer.max) [
  | yes inside ↦
      subst (λ x. After b0 s x cs)
        (same_buffer _ b' (sym (send_data_buffer-fits c v (omega (arith, v.small)) inside) ∙ done))
        (call_fits s c cs r at v inside)
  | no over ↦
      subst (λ x. After b0 s x cs)
        (same_buffer _ b'
          (sym (send_data_buffer-over c v (omega (arith, v.small)) (omega arith) size) ∙ done))
        (call_over s c cs r at v (omega arith) size)
]

pub read_data_buffer-lines :
    (b b' : CircularBuf) (x : ℕ)
    → read_data_buffer b ≡ ok (x, b')
    → (load b.buffer b.tail ≡ ok x)
      × (b' ≡ record b { tail = add32 b.tail 1 % b.max; full = false })
unfolding read_data_buffer
read_data_buffer-lines b b' x e = ground arith

-- The same state with its threads at the corresponding lines.
abbrev pub line_sender : Sender → LineSender
line_sender Sender.between = idle
line_sender (Sender.storing_length p) = calling (le16 (length p) ∷ p ∷ [])
line_sender (Sender.storing_bytes p) = calling (p ∷ [])

abbrev pub line_writer : Writer → LineWriter
line_writer Writer.testing = testing entered
line_writer Writer.reading = reading
line_writer (Writer.writing x) = writing x

abbrev pub line_by_line : System → Bool → LineSystem
line_by_line s u = record {
  buffer = s.buffer;
  sender = line_sender s.sender;
  writer = line_writer s.writer;
  accepted = s.accepted;
  out = s.out;
  marked = u;
}

-- The state of the lines that corresponds to `s` is reached.
abbrev Lined : CircularBuf → System → Type 0
Lined b s = (u : Bool) × LineReach b (line_by_line s u)

TestStep-Lined : {b : CircularBuf} {s t : System} → TestStep s t → Lined b s → Lined b t
TestStep-Lined {b} {s} (TestStep.drop_packet p e tested) (u, r) =
    let asked = ask_lines (line_by_line s u) r p (ap line_sender e) in
    (
      u,
      subst (λ w. LineReach b (record (line_by_line s u) { sender = w })) (sym (ap line_sender e))
          (later asked (serve (drop_packet p _ refl tested))),
    )
TestStep-Lined {s} (TestStep.accept_packet p e pos size tested) (u, r) =
    let asked = ask_lines (line_by_line s u) r p (ap line_sender e) in
    (u, later asked (serve (accept_packet p _ refl pos size tested)))

StoreStep-Lined : {b : CircularBuf} {s t : System} → StoreStep s t → Inv s → Lined b s → Lined b t
StoreStep-Lined {s} (StoreStep.store_length p b' e done) inv (u, r) =
    let (pos, size, room) = Room-at s (Sender.storing_length p) inv e in
    call_lines (line_by_line s u) (le16 (length p)) (p ∷ []) b' r (ap line_sender e) inv.valid
      (omega (arith, get_space-contents inv.valid)) done
StoreStep-Lined {s} (StoreStep.store_bytes p b' e done) inv (u, r) =
    let (pos, size, room) = Room-at s (Sender.storing_bytes p) inv e in
    let (u', stored) =
      call_lines (line_by_line s u) p [] b' r (ap line_sender e) inv.valid
        (omega (arith, get_space-contents inv.valid)) done in
    (u', later stored (serve (return refl)))

WriterStep-Lined : {b : CircularBuf} {s t : System} → WriterStep s t → Lined b s → Lined b t
WriterStep-Lined {s} (WriterStep.find_empty e tested) (u, r) =
    (u, empty_lines (line_by_line s u) r (ap line_writer e) tested)
WriterStep-Lined {s} (WriterStep.find_byte e tested) (u, r) =
    (u, byte_lines (line_by_line s u) r (ap line_writer e) tested)
WriterStep-Lined {b} {s} (WriterStep.read_byte x b' e done) (u, r) =
    let (loads, same) = read_data_buffer-lines s.buffer b' x done in
    let loaded = later r (read (load_byte x (ap line_writer e) loads)) in
    (
      u,
      subst (λ c. LineReach b (line_by_line (record s { buffer = c; writer = Writer.writing x }) u))
          (sym same) (later (later loaded (read (move_tail x refl))) (read (clear_full x refl))),
    )
WriterStep-Lined (WriterStep.write_byte x e) (u, r) =
    (u, later r (test (write_byte x (ap line_writer e))))

-- From a valid and empty buffer: what the threads reach with each call on the buffer as one step,
-- they also reach line by line, with the same buffer, the same packets accepted and the same bytes
-- written.
pub line_by_line-LineReach :
    {b : CircularBuf} {s : System}
    → IsValid b
    → contents b ≡ []
    → Reach b s
    → (u : Bool) × LineReach b (line_by_line s u)
line_by_line-LineReach v e Reach.here = (false, here)
line_by_line-LineReach v e (Reach.later r (Step.test st)) =
    TestStep-Lined st (line_by_line-LineReach v e r)
line_by_line-LineReach v e (Reach.later r (Step.store st)) =
    StoreStep-Lined st (Reach-Inv v e r) (line_by_line-LineReach v e r)
line_by_line-LineReach v e (Reach.later r (Step.write st)) =
    WriterStep-Lined st (line_by_line-LineReach v e r)
