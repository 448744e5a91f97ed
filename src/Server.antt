-- ===== src/Server.antt =====
-- VideoServer/src/server.c: the server waits for a client's INIT, then puts every packet into the
-- buffer; a second thread writes the buffer's bytes to the FIFO.
pub mod State
pub mod Packet
pub mod Handshake
pub mod Frames
pub mod Receive
pub mod Drain
pub mod Run
pub mod Program
pub mod SetUp
pub mod Start
use fagprojekt.Base.{
  ℕ, zero, suc, ◌+◌, ◌%◌, ◌^◌, Bool, true, false, List, [], ◌∷◌, leb, ◌==◌, if◌then◌else◌, Outcome,
  ok, fault, exits, pending, add32, int_lt,
}
use fagprojekt.Memory.{load, memcpy, le16}
use fagprojekt.Process.{Process, pure, lift, modify, zoom, ◌>>=◌, ◌>>◌}
use fagprojekt.Buffer.{
  CircularBuf, send_data_buffer, get_space, fill_level, buffer_is_empty, read_data_buffer,
}
use fagprojekt.Connection.{SockAddr, Net, code, init, init_ack, recv_data, send_packet_type}
use fagprojekt.Fifo.{FifoDevice, write_fifo_blocking}
use fagprojekt.Server.State.{ConnectionStatus, Server, on_net, on_buffer, then_send}

abbrev pub buffer_print_interval : ℕ
buffer_print_interval = 250

-- A packet that fits is put into the buffer behind its length; any other is dropped.
unfoldable pub send_packet_buffer : List ℕ → ℕ → CircularBuf → Outcome CircularBuf
send_packet_buffer bytes len b =
    if int_lt (add32 len 2) (get_space b)
    then then_send (send_data_buffer (le16 len) 2 b) (send_data_buffer bytes len)
    else ok b

-- What `print_buffer_fill_level` reads. The percentage that it prints is not modelled.
unfoldable pub print_buffer_fill_level : Process Server (Unit {0})
unfolding fill_level
print_buffer_fill_level s = ok (tt, record s { levels = fill_level s.buffer ∷ s.levels })

-- The answer to an INIT packet.
unfoldable pub answer_init : ℕ → SockAddr → Process Server (Unit {0})
unfolding send_packet_type
answer_init first from =
    if first == code init
    then on_net (send_packet_type from init_ack)
      >> modify (λ s. record s { status = ConnectionStatus.recv_video })
    else pure tt

-- A pass of the loop of `wait_init`, over the array that the packet is received into.
unfoldable pub wait_init_pass : List ℕ → Process Server (List ℕ)
unfolding recv_data load answer_init
wait_init_pass bytes = do
  (_, from, bytes') ← (λ s. on_net (recv_data s.client bytes) s)
  modify (λ s. record s { client = from })
  first ← lift (load bytes' 0)
  answer_init first from
  pure bytes'

-- The fuel bounds the passes.
unfoldable pub wait_init : ℕ → List ℕ → Process Server (Unit {0})
unfolding wait_init_pass
wait_init zero bytes s = pending
wait_init (suc fuel) bytes s = elim s.status [
  | ConnectionStatus.waiting_init ↦ (wait_init_pass bytes >>= wait_init fuel) s
  | ConnectionStatus.recv_video ↦ ok (tt, s)
]

-- The variables of `recv_video`.
pub record Receiver : Type 0 where
  pub recv_addr : SockAddr
  pub bytes : List ℕ
  pub pack_num : ℕ

-- What the loop of `recv_video` does with a packet that is not empty.
unfoldable pub keep_packet : SockAddr → List ℕ → ℕ → ℕ → Process Server Receiver
unfolding send_packet_buffer print_buffer_fill_level
keep_packet from bytes len pack_num =
    on_buffer (send_packet_buffer bytes len)
    >> (if leb buffer_print_interval (pack_num + 1)
        then print_buffer_fill_level
          >> pure (record { recv_addr = from; bytes = bytes; pack_num = 0 })
        else pure (record { recv_addr = from; bytes = bytes; pack_num = pack_num + 1 }))

-- A pass of the loop of `recv_video`. The length is cut to an `unsigned short`.
unfoldable pub recv_video_pass : Receiver → Process Server Receiver
unfolding recv_data keep_packet
recv_video_pass r = do
  (n, from, bytes') ← on_net (recv_data r.recv_addr r.bytes)
  let len = n % 2 ^ 16
  if len == 0
      then pure (record r { recv_addr = from; bytes = bytes' })
      else keep_packet from bytes' len r.pack_num

-- `recv_video` never returns: this is where the loop stands after some passes.
unfoldable pub recv_video : ℕ → Receiver → Process Server Receiver
unfolding recv_video_pass
recv_video zero r = pure r
recv_video (suc passes) r = recv_video_pass r >>= recv_video passes

module _ (fifo : FifoDevice) where
  open fifo use {Device, sleep}

  -- A pass of the loop of `fifo_write_thread`, with a bound on the polls of the FIFO.
  unfoldable pub fifo_write_pass : ℕ → CircularBuf → Device → Outcome (CircularBuf × Device)
  fifo_write_pass polls b d =
      if buffer_is_empty b then ok (b, sleep 10000 d) else elim (read_data_buffer b) [
        | ok (x, b') ↦ elim (write_fifo_blocking fifo polls x d) [
          | ok d' ↦ ok (b', d')
          | fault ↦ fault
          | exits c ↦ exits c
          | pending ↦ pending
        ]
        | fault ↦ fault
        | exits c ↦ exits c
        | pending ↦ pending
      ]

  -- `fifo_write_thread` never returns: this is where it stands after some passes.
  unfoldable pub fifo_write_thread : ℕ → ℕ → CircularBuf → Device → Outcome (CircularBuf × Device)
  fifo_write_thread zero polls b d = ok (b, d)
  fifo_write_thread (suc passes) polls b d = elim (fifo_write_pass polls b d) [
    | ok (b', d') ↦ fifo_write_thread passes polls b' d'
    | fault ↦ fault
    | exits c ↦ exits c
    | pending ↦ pending
  ]
