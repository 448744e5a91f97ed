-- ===== src/Threads/Safety.antt =====
-- The bytes on their way between the two threads of VideoServer/src/server.c, and the calls that the
-- threads make next, with each call on the buffer a single step.
use fagprojekt.Base.{ℕ, ◌≡◌, [], ◌++◌, length, ok, arith}
use fagprojekt.Memory.{le16}
use fagprojekt.Buffer.{CircularBuf, send_data_buffer, read_data_buffer}
use fagprojekt.Buffer.Invariant.{IsValid, contents}
use fagprojekt.Buffer.Contents.{read_data_buffer_lem}
use fagprojekt.Buffer.Send.{send_data_buffer-append}
use fagprojekt.Server.Frames.{frames}
use fagprojekt.Threads.{
  Sender, between, storing_length, storing_bytes, Writer, testing, reading, writing, System, Reach,
}
use fagprojekt.Threads.Invariant.{Room, Held, Reach-Inv, to_store, in_hand}

-- In every state that the two threads reach from a valid and empty buffer, in any order of their
-- steps: the bytes written to the FIFO, the byte that the writing thread has in hand, the bytes in
-- the buffer and those of the accepted packet that are still to be stored are, one behind the
-- other, the frames of the accepted packets in the order of their acceptance.
pub stream_lem :
    {b : CircularBuf} {s : System}
    → IsValid b
    → contents b ≡ []
    → Reach b s
    → s.out ++ (in_hand s.writer ++ (contents s.buffer ++ to_store s.sender)) ≡ frames s.accepted
stream_lem v e r = (Reach-Inv v e r).stream

-- The call that each thread makes next is defined.
abbrev pub SenderDefined : Sender → CircularBuf → Type 0
SenderDefined between b = Unit
SenderDefined (storing_length p) b =
    (b' : CircularBuf) × (send_data_buffer (le16 (length p)) 2 b ≡ ok b')
SenderDefined (storing_bytes p) b = (b' : CircularBuf) × (send_data_buffer p (length p) b ≡ ok b')

abbrev pub WriterDefined : Writer → CircularBuf → Type 0
WriterDefined reading b = (x : ℕ) × (b' : CircularBuf) × (read_data_buffer b ≡ ok (x, b'))
WriterDefined _ b = Unit

sender_defined : (w : Sender) (b : CircularBuf) → IsValid b → Room w b → SenderDefined w b
sender_defined between b v r = tt
sender_defined (storing_length p) b v (pos, size, room) =
    let (b', e, _, _, _) =
      send_data_buffer-append (le16 (length p)) 2 v (omega arith) (omega arith) (omega arith) in
    (b', e)
sender_defined (storing_bytes p) b v (pos, size, room) =
    let (b', e, _, _, _) = send_data_buffer-append p (length p) v pos (omega arith) (omega arith) in
    (b', e)

writer_defined : (w : Writer) (b : CircularBuf) → IsValid b → Held w b → WriterDefined w b
writer_defined testing b v h = tt
writer_defined reading b v h = let (x, b', e, _, _, _) = read_data_buffer_lem v h in (x, b', e)
writer_defined (writing x) b v h = tt

abbrev pub NextDefined : System → Type 0
NextDefined s = SenderDefined s.sender s.buffer × WriterDefined s.writer s.buffer

-- In every state that the two threads reach from a valid and empty buffer, the call on the buffer
-- that each of them makes next is defined: there is no access out of bounds.
pub calls_defined :
    {b : CircularBuf} {s : System} → IsValid b → contents b ≡ [] → Reach b s → NextDefined s
calls_defined {s = s} v e r =
    let inv = Reach-Inv v e r in
    (
      sender_defined s.sender s.buffer inv.valid inv.room,
      writer_defined s.writer s.buffer inv.valid inv.held,
    )
