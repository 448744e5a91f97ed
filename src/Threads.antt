-- ===== src/Threads.antt =====
-- The two threads of VideoServer/src/server.c over one buffer, interleaved in any order. The
-- receiving thread runs `send_packet_buffer` for each packet, the writing thread the loop of
-- `fifo_write_thread`. Here each call of a function of buffer.c is one step, as if a lock were held
-- during it; `Lines` takes the calls apart.
pub mod Invariant
pub mod Safety
pub mod Lines
pub mod Race
use fagprojekt.Base.{
  ℕ, ◌+◌, ◌≤◌, ◌<◌, ◌≡◌, Bool, true, false, List, [], ◌∷◌, ◌++◌, length, ok, add32, int_lt,
}
use fagprojekt.Memory.{le16}
use fagprojekt.Buffer.{CircularBuf, send_data_buffer, read_data_buffer, get_space, buffer_is_empty}
use fagprojekt.Connection.{max_packet_size}

-- Where the receiving thread stands in `send_packet_buffer`: between packets, before the call that
-- stores the length, and before the call that stores the bytes.
pub data Sender : Type 0 where
  between : Sender
  storing_length storing_bytes : List ℕ → Sender

-- Where the writing thread stands in its loop: before the test, before the read, and before the
-- write to the FIFO of the byte that it has read.
pub data Writer : Type 0 where
  testing reading : Writer
  writing : ℕ → Writer

-- `accepted` are the packets for which there was room, and `out` the bytes written to the FIFO.
pub record System : Type 0 where
  pub buffer : CircularBuf
  pub sender : Sender
  pub writer : Writer
  pub accepted : List (List ℕ)
  pub out : List ℕ

-- The test of `send_packet_buffer` for the next packet.
pub data TestStep : System → System → Type 0 where
  drop_packet :
      {s : System} (p : List ℕ)
      → s.sender ≡ between
      → int_lt (add32 (length p) 2) (get_space s.buffer) ≡ false
      → TestStep s s
  accept_packet :
      {s : System} (p : List ℕ)
      → s.sender ≡ between
      → 0 < length p
      → length p ≤ max_packet_size
      → int_lt (add32 (length p) 2) (get_space s.buffer) ≡ true
      → TestStep s (record s { sender = storing_length p; accepted = s.accepted ++ (p ∷ []) })

-- The two calls of `send_packet_buffer` for an accepted packet.
pub data StoreStep : System → System → Type 0 where
  store_length :
      {s : System} (p : List ℕ) (b : CircularBuf)
      → s.sender ≡ storing_length p
      → send_data_buffer (le16 (length p)) 2 s.buffer ≡ ok b
      → StoreStep s (record s { buffer = b; sender = storing_bytes p })
  store_bytes :
      {s : System} (p : List ℕ) (b : CircularBuf)
      → s.sender ≡ storing_bytes p
      → send_data_buffer p (length p) s.buffer ≡ ok b
      → StoreStep s (record s { buffer = b; sender = between })

-- A step of the writing thread.
pub data WriterStep : System → System → Type 0 where
  find_empty : {s : System} → s.writer ≡ testing → buffer_is_empty s.buffer ≡ true → WriterStep s s
  find_byte :
      {s : System}
      → s.writer ≡ testing
      → buffer_is_empty s.buffer ≡ false
      → WriterStep s (record s { writer = reading })
  read_byte :
      {s : System} (x : ℕ) (b : CircularBuf)
      → s.writer ≡ reading
      → read_data_buffer s.buffer ≡ ok (x, b)
      → WriterStep s (record s { buffer = b; writer = writing x })
  write_byte :
      {s : System} (x : ℕ)
      → s.writer ≡ writing x
      → WriterStep s (record s { writer = testing; out = s.out ++ (x ∷ []) })

pub data Step (s t : System) : Type 0 where
  test : TestStep s t → Step s t
  store : StoreStep s t → Step s t
  write : WriterStep s t → Step s t

-- Both threads at the start of their loops, over the buffer `b`.
abbrev pub start : CircularBuf → System
start b = record { buffer = b; sender = between; writer = testing; accepted = []; out = [] }

pub data Reach (b : CircularBuf) : System → Type 0 where
  here : Reach b (start b)
  later : {s t : System} → Reach b s → Step s t → Reach b t
