-- ===== src/Threads/Lines.antt =====
-- The two threads of VideoServer/src/server.c with the lines of buffer.c as steps: each line of
-- `send_data_buffer`, `read_data_buffer` and `get_space` that reads or writes the shared buffer is a
-- step of its own, and data that does not fit before the end of the array is split.
pub mod Sizes
pub mod Bounds
pub mod Invariant
pub mod WriterSteps
pub mod Steps
pub mod Stream
pub mod Asking
pub mod Growth
pub mod Calls
use fagprojekt.Base.{
  ℕ, ◌+◌, ◌%◌, ◌≤◌, ◌<◌, ◌≡◌, Bool, true, false, ◌||◌, List, [], ◌∷◌, ◌++◌, length, take, drop, ltb,
  ◌==◌, ok, add32, sub32, int_lt,
}
use fagprojekt.Memory.{memcpy, load, le16}
use fagprojekt.Buffer.{CircularBuf}
use fagprojekt.Buffer.Space.{SpaceCall, entered, answered, SpaceLine}
use fagprojekt.Connection.{max_packet_size}

-- Where the receiving thread stands: between packets; with a received packet, in the call of
-- `get_space`; before a call of `send_data_buffer`, with the data of the calls that are still to be
-- made; and in one, before the line that moves `head`, before the comparison of `head` and `tail`,
-- and before its result is stored in `full`.
pub data LineSender : Type 0 where
  idle : LineSender
  asking : List ℕ → SpaceCall → LineSender
  calling : List (List ℕ) → LineSender
  copied : List ℕ → List (List ℕ) → LineSender
  moved : List (List ℕ) → LineSender
  compared : Bool → List (List ℕ) → LineSender

-- Where the writing thread stands: in the call of `get_space` that `buffer_is_empty` makes, before
-- each of the three lines of `read_data_buffer`, and before the write to the FIFO.
pub data LineWriter : Type 0 where
  testing : SpaceCall → LineWriter
  reading : LineWriter
  loaded advanced writing : ℕ → LineWriter

-- `marked` says whether `send_data_buffer` has set `full` to true at any time.
pub record LineSystem : Type 0 where
  pub buffer : CircularBuf
  pub sender : LineSender
  pub writer : LineWriter
  pub accepted : List (List ℕ)
  pub out : List ℕ
  pub marked : Bool

-- A line of `send_packet_buffer`: its test for the next packet, and its end.
pub data PacketLine : LineSystem → LineSystem → Type 0 where
  receive_packet :
      {s : LineSystem} (p : List ℕ)
      → s.sender ≡ idle
      → PacketLine s (record s { sender = asking p entered })
  ask_space :
      {s : LineSystem} (p : List ℕ) (a a' : SpaceCall)
      → s.sender ≡ asking p a
      → SpaceLine s.buffer a a'
      → PacketLine s (record s { sender = asking p a' })
  drop_packet :
      {s : LineSystem} (p : List ℕ) (n : ℕ)
      → s.sender ≡ asking p (answered n)
      → int_lt (add32 (length p) 2) n ≡ false
      → PacketLine s (record s { sender = idle })
  accept_packet :
      {s : LineSystem} (p : List ℕ) (n : ℕ)
      → s.sender ≡ asking p (answered n)
      → 0 < length p
      → length p ≤ max_packet_size
      → int_lt (add32 (length p) 2) n ≡ true
      → PacketLine s (record s {
        sender = calling (le16 (length p) ∷ p ∷ []);
        accepted = s.accepted ++ (p ∷ []);
      })
  return : {s : LineSystem} → s.sender ≡ calling [] → PacketLine s (record s { sender = idle })

-- A line of `send_data_buffer`.
pub data SendLine : LineSystem → LineSystem → Type 0 where
  split_data :
      {s : LineSystem} (c : List ℕ) (cs : List (List ℕ))
      → s.sender ≡ calling (c ∷ cs)
      → ltb s.buffer.max (add32 (length c) s.buffer.head) ≡ true
      → SendLine s (record s {
        sender = calling (
            take (sub32 s.buffer.max s.buffer.head) c
            ∷ drop (sub32 s.buffer.max s.buffer.head) c
            ∷ cs);
      })
  copy_data :
      {s : LineSystem} (c : List ℕ) (cs : List (List ℕ)) (block : List ℕ)
      → s.sender ≡ calling (c ∷ cs)
      → ltb s.buffer.max (add32 (length c) s.buffer.head) ≡ false
      → memcpy s.buffer.buffer s.buffer.head c (length c) ≡ ok block
      → SendLine s
          (record s { buffer = record (s.buffer) { buffer = block }; sender = copied c cs })
  move_head :
      {s : LineSystem} (c : List ℕ) (cs : List (List ℕ))
      → s.sender ≡ copied c cs
      → SendLine s (record s {
        buffer = record (s.buffer) { head = add32 s.buffer.head (length c) % s.buffer.max };
        sender = moved cs;
      })
  compare :
      {s : LineSystem} (cs : List (List ℕ))
      → s.sender ≡ moved cs
      → SendLine s (record s { sender = compared (s.buffer.head == s.buffer.tail) cs })
  set_full :
      {s : LineSystem} (full : Bool) (cs : List (List ℕ))
      → s.sender ≡ compared full cs
      → SendLine s (record s {
        buffer = record (s.buffer) { full = full };
        sender = calling cs;
        marked = s.marked || full;
      })

-- A line of `fifo_write_thread`, or of the call of `get_space` in its test.
pub data ThreadLine : LineSystem → LineSystem → Type 0 where
  test_space :
      {s : LineSystem} (a a' : SpaceCall)
      → s.writer ≡ testing a
      → SpaceLine s.buffer a a'
      → ThreadLine s (record s { writer = testing a' })
  find_empty :
      {s : LineSystem} (n : ℕ)
      → s.writer ≡ testing (answered n)
      → (n == s.buffer.max) ≡ true
      → ThreadLine s (record s { writer = testing entered })
  find_byte :
      {s : LineSystem} (n : ℕ)
      → s.writer ≡ testing (answered n)
      → (n == s.buffer.max) ≡ false
      → ThreadLine s (record s { writer = reading })
  write_byte :
      {s : LineSystem} (x : ℕ)
      → s.writer ≡ writing x
      → ThreadLine s (record s { writer = testing entered; out = s.out ++ (x ∷ []) })

-- A line of `read_data_buffer`.
pub data ReadLine : LineSystem → LineSystem → Type 0 where
  load_byte :
      {s : LineSystem} (x : ℕ)
      → s.writer ≡ reading
      → load s.buffer.buffer s.buffer.tail ≡ ok x
      → ReadLine s (record s { writer = loaded x })
  move_tail :
      {s : LineSystem} (x : ℕ)
      → s.writer ≡ loaded x
      → ReadLine s (record s {
        buffer = record (s.buffer) { tail = add32 s.buffer.tail 1 % s.buffer.max };
        writer = advanced x;
      })
  clear_full :
      {s : LineSystem} (x : ℕ)
      → s.writer ≡ advanced x
      → ReadLine s (record s { buffer = record (s.buffer) { full = false }; writer = writing x })

pub data Line (s t : LineSystem) : Type 0 where
  serve : PacketLine s t → Line s t
  send : SendLine s t → Line s t
  test : ThreadLine s t → Line s t
  read : ReadLine s t → Line s t

-- Both threads at the start of their loops, over the buffer `b`.
abbrev pub start : CircularBuf → LineSystem
start b = record {
  buffer = b;
  sender = idle;
  writer = testing entered;
  accepted = [];
  out = [];
  marked = false;
}

pub data LineReach (b : CircularBuf) : LineSystem → Type 0 where
  here : LineReach b (start b)
  later : {s t : LineSystem} → LineReach b s → Line s t → LineReach b t
