-- ===== src/Threads/Invariant.antt =====
-- The invariant of the two threads of VideoServer/src/server.c over one buffer, step by step.
use fagprojekt.Base.{
  ℕ, ◌+◌, ◌≤◌, ◌<◌, ◌≡◌, refl, sym, ◌∙◌, ap, subst, true, List, [], ◌∷◌, ◌++◌, length, take-length,
  Outcome, ok, add32, int_lt, arith, append_assoc, append-nil, length-append,
}
use fagprojekt.Memory.{le16}
use fagprojekt.Buffer.{CircularBuf, send_data_buffer, get_space}
use fagprojekt.Buffer.Invariant.{IsValid, contents}
use fagprojekt.Buffer.Contents.{get_space-contents, length-contents_pos, read_data_buffer_lem}
use fagprojekt.Buffer.Send.{send_data_buffer-append}
use fagprojekt.Connection.{max_packet_size}
use fagprojekt.Server.Packet.{frame}
use fagprojekt.Server.Frames.{frames}
use fagprojekt.Threads.{
  Sender, between, storing_length, storing_bytes, Writer, testing, reading, writing, System, Step,
  test, store, write, TestStep, StoreStep, WriterStep, drop_packet, accept_packet, store_length,
  store_bytes, find_empty, find_byte, read_byte, write_byte, Reach, here, later,
}

-- The bytes that the receiving thread has still to store of the packet it has accepted.
abbrev pub to_store : Sender → List ℕ
to_store between = []
to_store (storing_length p) = frame p
to_store (storing_bytes p) = p

-- The byte that the writing thread has in hand.
abbrev pub in_hand : Writer → List ℕ
in_hand (writing x) = x ∷ []
in_hand _ = []

-- What the place of the receiving thread says: a packet with its size in range, and more room.
abbrev pub Room : Sender → CircularBuf → Type 0
Room between b = Unit
Room (storing_length p) b =
    (0 < length p) × (length p ≤ max_packet_size) × (length p + 2 < get_space b)
Room (storing_bytes p) b = (0 < length p) × (length p ≤ max_packet_size) × (length p < get_space b)

abbrev pub Held : Writer → CircularBuf → Type 0
Held reading b = 0 < length (contents b)
Held _ b = Unit

pub record Inv (s : System) : Type 0 where
  pub valid : IsValid s.buffer
  pub room : Room s.sender s.buffer
  pub held : Held s.writer s.buffer
  pub stream :
      s.out ++ (in_hand s.writer ++ (contents s.buffer ++ to_store s.sender)) ≡ frames s.accepted

pub frames-append : (ps qs : List (List ℕ)) → frames (ps ++ qs) ≡ frames ps ++ frames qs
unfolding frames
frames-append [] qs = refl
frames-append (p ∷ ps) qs =
    ap (λ l. frame p ++ l) (frames-append ps qs)
    ∙ sym (append_assoc (frame p) (frames ps) (frames qs))

pub frames-one : (ps : List (List ℕ)) (p : List ℕ) → frames (ps ++ (p ∷ [])) ≡ frames ps ++ frame p
unfolding frames
frames-one ps p = frames-append ps (p ∷ []) ∙ ap (λ l. frames ps ++ l) (append-nil (frame p))

-- More free space keeps the room that the receiving thread found, and more bytes the writer's.
Room-mono : (w : Sender) (b b' : CircularBuf) → get_space b ≤ get_space b' → Room w b → Room w b'
Room-mono between b b' h r = r
Room-mono (storing_length p) b b' h r = omega arith
Room-mono (storing_bytes p) b b' h r = omega arith

Held-mono :
    (w : Writer) (b b' : CircularBuf)
    → length (contents b) ≤ length (contents b')
    → Held w b
    → Held w b'
Held-mono testing b b' h r = r
Held-mono reading b b' h r = omega arith
Held-mono (writing x) b b' h r = r

-- A store of `c` by the receiving thread.
stored :
    (s : System) (c rest : List ℕ) (b : CircularBuf)
    → Inv s
    → 0 < length c
    → length c ≤ get_space s.buffer
    → to_store s.sender ≡ c ++ rest
    → send_data_buffer c (length c) s.buffer ≡ ok b
    → IsValid b
      × Held s.writer b
      × (get_space b + length c ≡ get_space s.buffer)
      × (s.out ++ (in_hand s.writer ++ (contents b ++ rest)) ≡ frames s.accepted)
stored s c rest b inv pos room what e =
    let (b1, e1, valid, more, space) =
      send_data_buffer-append c (length c) inv.valid pos room (omega arith) in
    let same : b1 ≡ b = cc (sym e1 ∙ e) in
    let bytes : contents b ≡ contents s.buffer ++ c =
      ap contents (sym same)
      ∙ more
      ∙ ap (λ l. contents s.buffer ++ l) (take-length (length c) c (omega arith)) in
    (
      rw (sym same) valid,
      Held-mono s.writer s.buffer b
          (omega (arith, ap length bytes, length-append (contents s.buffer) c)) inv.held,
      ap (λ x. get_space x + length c) (sym same) ∙ space,
      ap (λ l. s.out ++ (in_hand s.writer ++ l))
            (ap (λ l. l ++ rest) bytes
              ∙ append_assoc (contents s.buffer) c rest
              ∙ ap (λ l. contents s.buffer ++ l) (sym what))
          ∙ inv.stream,
    )

pub test-room :
    (p : List ℕ) (b : CircularBuf)
    → IsValid b
    → length p ≤ max_packet_size
    → int_lt (add32 (length p) 2) (get_space b) ≡ true
    → length p + 2 < get_space b
test-room p b v size e = ground (arith, get_space-contents v)

pub Room-at : (s : System) (w : Sender) → Inv s → s.sender ≡ w → Room w s.buffer
Room-at s w inv e = subst (λ x. Room x s.buffer) e inv.room

Held-at : (s : System) (w : Writer) → Inv s → s.writer ≡ w → Held w s.buffer
Held-at s w inv e = subst (λ x. Held x s.buffer) e inv.held

stream_at :
    (s : System) (w : Sender) (r : Writer)
    → Inv s
    → s.sender ≡ w
    → s.writer ≡ r
    → s.out ++ (in_hand r ++ (contents s.buffer ++ to_store w)) ≡ frames s.accepted
stream_at s w r inv e f =
    ap (λ x. s.out ++ (in_hand r ++ (contents s.buffer ++ to_store x))) (sym e)
    ∙ ap (λ x. s.out ++ (in_hand x ++ (contents s.buffer ++ to_store s.sender))) (sym f)
    ∙ inv.stream

pub regroup : (o h c f : List ℕ) → o ++ (h ++ (c ++ f)) ≡ (o ++ (h ++ (c ++ []))) ++ f
regroup o h c f = simp (append_assoc, append-nil)

TestStep-Inv : {s t : System} → TestStep s t → Inv s → Inv t
TestStep-Inv (drop_packet p e tested) inv = inv
TestStep-Inv {s} (accept_packet p e pos size tested) inv = record {
  valid = inv.valid;
  room = (pos, size, test-room p s.buffer inv.valid size tested);
  held = inv.held;
  stream =
      regroup s.out (in_hand s.writer) (contents s.buffer) (frame p)
      ∙ ap (λ l. l ++ frame p) (stream_at s between s.writer inv e refl)
      ∙ sym (frames-one s.accepted p);
}

StoreStep-Inv : {s t : System} → StoreStep s t → Inv s → Inv t
StoreStep-Inv {s} (store_length p b e done) inv =
    let (pos, size, room) = Room-at s (storing_length p) inv e in
    let (valid, held, space, stream) =
      stored s (le16 (length p)) p b inv (omega arith) (omega arith) (ap to_store e) done in
    record { valid = valid; room = (pos, size, omega arith); held = held; stream = stream }
StoreStep-Inv {s} (store_bytes p b e done) inv =
    let (pos, size, room) = Room-at s (storing_bytes p) inv e in
    let (valid, held, space, stream) =
      stored s p [] b inv pos (omega arith) (ap to_store e ∙ sym (append-nil p)) done in
    record { valid = valid; room = tt; held = held; stream = stream }

WriterStep-Inv : {s t : System} → WriterStep s t → Inv s → Inv t
WriterStep-Inv (find_empty e tested) inv = inv
WriterStep-Inv {s} (find_byte e tested) inv = record {
  valid = inv.valid;
  room = inv.room;
  held = length-contents_pos inv.valid tested;
  stream = stream_at s s.sender testing inv refl e;
}
WriterStep-Inv {s} (read_byte x b e done) inv =
    let (y, b', done', valid, same, split) =
      read_data_buffer_lem inv.valid (Held-at s reading inv e) in
    let eq : ◌≡◌ {A = Outcome (ℕ × CircularBuf)} (ok (x, b)) (ok (y, b')) = sym done ∙ done' in
    let eb : b' ≡ b = cc eq in
    let parts : contents s.buffer ≡ x ∷ contents b =
      split ∙ ap (λ z. z ∷ contents b') (cc eq) ∙ ap (λ c. x ∷ contents c) eb in
    let valid_b : IsValid b = rw (sym eb) valid in
    record {
      valid = valid_b;
      room =
          Room-mono s.sender s.buffer b
            (omega (
              arith,
              get_space-contents inv.valid,
              get_space-contents valid_b,
              ap length parts,
              same,
              ap (λ c. c.max) eb,
            ))
            inv.room;
      held = tt;
      stream =
          ap (λ l. s.out ++ (l ++ to_store s.sender)) (sym parts)
          ∙ stream_at s s.sender reading inv refl e;
    }
WriterStep-Inv {s} (write_byte x e) inv = record {
  valid = inv.valid;
  room = inv.room;
  held = tt;
  stream = append_assoc s.out (x ∷ []) _ ∙ stream_at s s.sender (writing x) inv refl e;
}

Step-Inv : {s t : System} → Step s t → Inv s → Inv t
Step-Inv (test st) inv = TestStep-Inv st inv
Step-Inv (store st) inv = StoreStep-Inv st inv
Step-Inv (write st) inv = WriterStep-Inv st inv

pub Reach-Inv : {b : CircularBuf} {s : System} → IsValid b → contents b ≡ [] → Reach b s → Inv s
unfolding frames
Reach-Inv {b} v e here = record {
  valid = v;
  room = tt;
  held = tt;
  stream = append-nil (contents b) ∙ e;
}
Reach-Inv v e (later r st) = Step-Inv st (Reach-Inv v e r)

pub Reach-IsValid :
    {b : CircularBuf} {s : System} → IsValid b → contents b ≡ [] → Reach b s → IsValid s.buffer
Reach-IsValid v e r = (Reach-Inv v e r).valid
