-- ===== src/Link/Running.antt =====
-- The server's two threads, line by line, and the client's `video_send_loop` behind the link of the
-- FPGAs (VideoServer/src/server.c, buffer.c and client.c), all running at once. A byte that is written
-- to the server's FIFO may be taken from the client's at any time after.
pub mod Partial
pub mod Cut
pub mod Runs
pub mod Calls
pub mod Refinement
pub mod Stream
pub mod Behind
pub mod Alone
pub mod CatchUp
pub mod Drained
pub mod Delivery
use fagprojekt.Base.{ℕ, ◌+◌, ◌≡◌, Bool, true, false, List, [], ◌∷◌, ◌++◌, ltb, if◌then◌else◌, ok}
use fagprojekt.Memory.{put_at}
use fagprojekt.Buffer.{CircularBuf}
use fagprojekt.Connection.{SockAddr, Net, max_packet_size, send_data}
use fagprojekt.Client.{un16, to_short}
use fagprojekt.Threads.Lines
use fagprojekt.Threads.Lines.{LineSystem, Line}

-- Where the client stands in a pass: before it reads either byte of the length, and with the length,
-- before the test of the loop that reads the packet, with `currentSize`.
pub data Pass : Type 0 where
  before_low : Pass
  before_high : ℕ → Pass
  filling : ℕ → ℕ → Pass

-- `bytes` is `dataBuffer`, and `taken` are the bytes that the client has read from its FIFO.
pub record Boards : Type 0 where
  pub server : LineSystem
  pub pass : Pass
  pub bytes : List ℕ
  pub net : Net
  pub taken : List ℕ

module _ (server_addr : SockAddr) where
  -- A line of `video_send_loop`; where it reads, the link has a byte that the client has not taken.
  pub data ClientLine : Boards → Boards → Type 0 where
    read_low :
        {s : Boards} (x : ℕ) (rest : List ℕ)
        → s.pass ≡ before_low
        → s.server.out ≡ s.taken ++ (x ∷ rest)
        → ClientLine s (record s { pass = before_high x; taken = s.taken ++ (x ∷ []) })
    read_high :
        {s : Boards} (lo x : ℕ) (rest : List ℕ)
        → s.pass ≡ before_high lo
        → s.server.out ≡ s.taken ++ (x ∷ rest)
        → ClientLine s (record s {
          pass = if ltb max_packet_size (un16 lo x) then before_low else filling (un16 lo x) 0;
          taken = s.taken ++ (x ∷ []);
        })
    read_byte :
        {s : Boards} (len i x : ℕ) (rest bytes : List ℕ)
        → s.pass ≡ filling len i
        → ltb i len ≡ true
        → s.server.out ≡ s.taken ++ (x ∷ rest)
        → put_at s.bytes i x ≡ ok bytes
        → ClientLine s
            (record s { pass = filling len (i + 1); bytes = bytes; taken = s.taken ++ (x ∷ []) })
    send_packet :
        {s : Boards} (len i : ℕ) (net : Net)
        → s.pass ≡ filling len i
        → ltb i len ≡ false
        → send_data server_addr s.bytes (to_short i) s.net ≡ ok (tt, net)
        → ClientLine s (record s { pass = before_low; net = net })

  pub data BoardsStep : Boards → Boards → Type 0 where
    server_line :
        {s : Boards} (t : LineSystem) → Line s.server t → BoardsStep s (record s { server = t })
    client_line : {s t : Boards} → ClientLine s t → BoardsStep s t

  -- The states that are reached when the server starts with the buffer `b`, and the client with the
  -- array `bytes` and the socket `net`.
  pub data BoardsReach (b : CircularBuf) (bytes : List ℕ) (net : Net) : Boards → Type 0 where
    here :
        BoardsReach b bytes net (record {
          server = Lines.start b;
          pass = before_low;
          bytes = bytes;
          net = net;
          taken = [];
        })
    later : {s t : Boards} → BoardsReach b bytes net s → BoardsStep s t → BoardsReach b bytes net t
