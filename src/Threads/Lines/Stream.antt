-- ===== src/Threads/Lines/Stream.antt =====
-- The bytes on their way in the line by line model of the two threads, as long as the line that sets
-- `full` (VideoServer/src/buffer.c) has never set it to true.
use fagprojekt.Base.{
  ◌+◌, ◌<◌, ◌==◌, inl, inr, Bool-cases, dec_le, true, add32, int_lt, ◌≡◌, ◌⊎◌, ◌∙◌, ap, false, [],
  ◌++◌, length, append-nil, arith,
}
use fagprojekt.Buffer.{CircularBuf}
use fagprojekt.Buffer.Invariant.{IsValid, contents}
use fagprojekt.Buffer.Space.{entered, comparing, subtracting, answered}
use fagprojekt.Connection.{max_packet_size}
use fagprojekt.Buffer.Lines.{empty-open}
use fagprojekt.Server.Frames.{frames}
use fagprojekt.Threads.Lines.{
  LineSender, idle, asking, calling, copied, moved, compared, LineWriter, testing, reading, loaded,
  advanced, writing, LineSystem, PacketLine, SendLine, receive_packet, ask_space, drop_packet,
  accept_packet, split_data, copy_data, move_head, compare, set_full, return, test_space,
  find_empty, find_byte, load_byte, move_tail, clear_full, write_byte, Line, serve, send, test,
  read, LineReach, here, later,
}
use fagprojekt.Threads.Lines.Bounds.{LineReach-Bounds}
use fagprojekt.Threads.Lines.Invariant.{to_store, in_hand, Ready, Held, Inv}
use fagprojekt.Threads.Lines.Steps.{unmarked, Line-Inv}

PacketLine-marked : {s t : LineSystem} → PacketLine s t → t.marked ≡ false → s.marked ≡ false
PacketLine-marked (receive_packet p e) clean = clean
PacketLine-marked (ask_space p a a' e asked) clean = clean
PacketLine-marked (drop_packet p n e tested) clean = clean
PacketLine-marked (accept_packet p n e pos size tested) clean = clean
PacketLine-marked (return e) clean = clean

SendLine-marked : {s t : LineSystem} → SendLine s t → t.marked ≡ false → s.marked ≡ false
SendLine-marked (split_data c cs e over) clean = clean
SendLine-marked (copy_data c cs block e under done) clean = clean
SendLine-marked (move_head c cs e) clean = clean
SendLine-marked (compare cs e) clean = clean
SendLine-marked {s} (set_full full cs e) clean = (unmarked s.marked full clean).0

pub Line-marked : {s t : LineSystem} → Line s t → t.marked ≡ false → s.marked ≡ false
Line-marked (serve l) clean = PacketLine-marked l clean
Line-marked (send l) clean = SendLine-marked l clean
Line-marked (test (test_space a a' e asked)) clean = clean
Line-marked (test (find_empty n e tested)) clean = clean
Line-marked (test (find_byte n e tested)) clean = clean
Line-marked (read (load_byte x e done)) clean = clean
Line-marked (read (move_tail x e)) clean = clean
Line-marked (read (clear_full x e)) clean = clean
Line-marked (test (write_byte x e)) clean = clean

pub LineReach-Inv :
    {b : CircularBuf} {s : LineSystem}
    → IsValid b
    → contents b ≡ []
    → LineReach b s
    → s.marked ≡ false
    → Inv s
unfolding frames
LineReach-Inv {b} v e here clean = record {
  bounds = LineReach-Bounds v here;
  open_ = empty-open v e;
  ready = tt;
  room = omega (arith, ap length e, v.nonempty);
  held = tt;
  stream = append-nil (contents b) ∙ e;
}
LineReach-Inv v e (later r l) clean = Line-Inv l clean (LineReach-Inv v e r (Line-marked l clean))

-- A comparison that came out true came out so over an empty buffer.
abbrev pub TrueOnEmpty : LineSender → CircularBuf → Type 0
TrueOnEmpty (compared full cs) b = (full ≡ false) ⊎ (contents b ≡ [])
TrueOnEmpty _ b = Unit

only_empty : (w : LineSender) (b : CircularBuf) → Ready w b → TrueOnEmpty w b
only_empty idle b h = tt
only_empty (asking p a) b h = tt
only_empty (calling cs) b h = tt
only_empty (copied c cs) b h = tt
only_empty (moved cs) b h = tt
only_empty (compared full cs) b h = h

-- From a valid and empty buffer, in every state that the two threads reach in any order of their
-- lines: as long as `send_data_buffer` has never set `full` to true, the bytes written to the FIFO,
-- the byte that the writing thread has taken out, the bytes in the buffer and those that are still to
-- be put behind the head are, one behind the other, the frames of the accepted packets in the
-- order of their acceptance; and the comparison that sets `full` comes out true only when the buffer
-- is empty.
pub lines_stream :
    {b : CircularBuf} {s : LineSystem}
    → IsValid b
    → contents b ≡ []
    → LineReach b s
    → s.marked ≡ false
    → (s.out ++ (in_hand s.writer ++ (contents s.buffer ++ to_store s.sender)) ≡ frames s.accepted)
      × TrueOnEmpty s.sender s.buffer
lines_stream {s = s} v e r clean =
    let inv = LineReach-Inv v e r clean in (inv.stream, only_empty s.sender s.buffer inv.ready)

-- A test for a packet of at most 2000 bytes that came out true found room for it and its length.
abbrev pub TrueOnRoom : LineSender → CircularBuf → Type 0
TrueOnRoom (asking p (answered n)) b =
    (int_lt (add32 (length p) 2) n ≡ false)
    ⊎ (max_packet_size < length p)
    ⊎ (length (contents b) + (length p + 2) < b.max)
TrueOnRoom _ b = Unit

-- A test for emptiness that came out false found a byte.
abbrev pub FalseOnByte : LineWriter → CircularBuf → Type 0
FalseOnByte (testing (answered n)) b = ((n == b.max) ≡ true) ⊎ (0 < length (contents b))
FalseOnByte _ b = Unit

room_or_not : (w : LineSender) (b : CircularBuf) → Ready w b → TrueOnRoom w b
room_or_not (asking p (answered n)) b h = elim (Bool-cases (int_lt (add32 (length p) 2) n)) [
  | inl room ↦ elim (dec_le (length p) max_packet_size) [
    | yes size ↦ inr (inr (h room size))
    | no over ↦ inr (inl (omega arith))
  ]
  | inr none_left ↦ inl none_left
]
room_or_not idle b h = tt
room_or_not (asking p entered) b h = tt
room_or_not (asking p comparing) b h = tt
room_or_not (asking p (subtracting c)) b h = tt
room_or_not (calling cs) b h = tt
room_or_not (copied c cs) b h = tt
room_or_not (moved cs) b h = tt
room_or_not (compared full cs) b h = tt

byte_or_not : (w : LineWriter) (b : CircularBuf) → Held w b → FalseOnByte w b
byte_or_not (testing (answered n)) b (inl all) = inl (ground arith)
byte_or_not (testing (answered n)) b (inr h) = inr h
byte_or_not (testing entered) b h = tt
byte_or_not (testing comparing) b h = tt
byte_or_not (testing (subtracting c)) b h = tt
byte_or_not reading b h = tt
byte_or_not (loaded x) b h = tt
byte_or_not (advanced x) b h = tt
byte_or_not (writing x) b h = tt

-- From a valid and empty buffer, in every state that the two threads reach in any order of their
-- lines, as long as `send_data_buffer` has never set `full` to true, and though the other thread may
-- have moved its index between the lines of `get_space`: a test for a packet of at most 2000 bytes
-- that came out true has room in the buffer for the packet and its length, and a test for emptiness
-- that came out false has a byte in it.
pub lines_answers :
    {b : CircularBuf} {s : LineSystem}
    → IsValid b
    → contents b ≡ []
    → LineReach b s
    → s.marked ≡ false
    → TrueOnRoom s.sender s.buffer × FalseOnByte s.writer s.buffer
lines_answers {s = s} v e r clean =
    let inv = LineReach-Inv v e r clean in
    (room_or_not s.sender s.buffer inv.ready, byte_or_not s.writer s.buffer inv.held)
