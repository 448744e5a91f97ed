-- ===== src/Tests/Servers.antt =====
-- A server with a small buffer, and the packets of two clients.
use fagprojekt.Base.{
  ℕ, ◌≡◌, refl, true, false, List, [], ◌∷◌, ◌++◌, length, arith, ok, if◌then◌else◌, ltb,
}
use fagprojekt.Buffer.{CircularBuf, get_space, send_data_buffer}
use fagprojekt.Buffer.Invariant.{IsValid, contents}
use fagprojekt.Connection.{SockAddr, Arrival, datagram}
use fagprojekt.Fifo.{write_fifo_blocking, read_fifo_blocking}
use fagprojekt.Fifo.Polling.{write_fifo_blocking_lem, read_fifo_blocking_lem}
use fagprojekt.Server.State.{ConnectionStatus, Server}
use fagprojekt.Server.{Receiver, send_packet_buffer, recv_video, wait_init, fifo_write_thread}
use fagprojekt.Server.Packet.{send_packet_buffer_lem}
use fagprojekt.Server.Handshake.{greeted, wait_init_lem}
use fagprojekt.Server.Frames.{admit, frames, datagrams, payloads}
use fagprojekt.Server.Receive.{Unanswered, recv_video_lem, recv_video-Unanswered}
use fagprojekt.Server.Drain.{fifo_write_thread_lem}
use fagprojekt.Tests.Device.{Sample, sample, sample-IsFifo}

abbrev pub alice : SockAddr
alice = record { family = 2; addr = 1; port = 5001 }

abbrev pub bob : SockAddr
bob = record { family = 2; addr = 2; port = 5002 }

abbrev pub buffer : CircularBuf
buffer = record {
  buffer = 0 ∷ 0 ∷ 0 ∷ 0 ∷ 0 ∷ 0 ∷ 0 ∷ 0 ∷ [];
  head = 6;
  tail = 6;
  max = 8;
  full = false;
}

pub buffer-IsValid : IsValid buffer
buffer-IsValid = record {
  nonempty = omega arith;
  small = omega arith;
  block = refl;
  head_in = omega arith;
  tail_in = omega arith;
  full_at = λ e. refl;
}

abbrev pub server : List Arrival → Server
server arrivals = record {
  status = ConnectionStatus.waiting_init;
  client = bob;
  buffer = buffer;
  net = record { polls = []; arrivals = arrivals; sent = [] };
  levels = [];
}

abbrev pub receiver : Receiver
receiver = record { recv_addr = bob; bytes = 0 ∷ 0 ∷ 0 ∷ 0 ∷ 0 ∷ 0 ∷ []; pack_num = 0 }

-- The second packet finds no room.
abbrev pub packets : List (SockAddr × List ℕ)
packets = (alice, 11 ∷ 12 ∷ []) ∷ (bob, 13 ∷ 14 ∷ []) ∷ (alice, 15 ∷ []) ∷ []

send_packet_buffer_lem_example :
    (b : CircularBuf) × (send_packet_buffer (7 ∷ 8 ∷ 9 ∷ []) 3 buffer ≡ ok b)
    × IsValid b
    × (b.max ≡ 8)
    × (contents b ≡ (if ltb 5 (get_space buffer) then 3 ∷ 0 ∷ 7 ∷ 8 ∷ 9 ∷ [] else []))
send_packet_buffer_lem_example =
    send_packet_buffer_lem (7 ∷ 8 ∷ 9 ∷ []) 3 buffer-IsValid (omega arith) (omega arith)
      (omega arith)

wait_init_lem_example :
    wait_init 4 (0 ∷ []) (server (datagram bob (52 ∷ []) ∷ datagram alice (49 ∷ []) ∷ []))
    ≡ ok (tt, greeted alice [] (server (datagram bob (52 ∷ []) ∷ datagram alice (49 ∷ []) ∷ [])))
wait_init_lem_example =
    wait_init_lem ((bob, 52 ∷ []) ∷ []) alice [] [] 4 (0 ∷ [])
      (server (datagram bob (52 ∷ []) ∷ datagram alice (49 ∷ []) ∷ [])) (omega arith, tt) refl refl
      (omega arith)

recv_video_lem_example :
    (r : Receiver) × (s : Server) × (recv_video 3 receiver (server (datagrams packets)) ≡ ok (r, s))
    × (s.net.arrivals ≡ [])
    × IsValid s.buffer
    × (contents s.buffer ≡ frames (admit (get_space buffer) (payloads packets)))
recv_video_lem_example =
    recv_video_lem packets [] receiver (server (datagrams packets)) (omega arith) refl
      buffer-IsValid

-- A packet with the code of INIT, received as video.
abbrev late : Server
late = record (server (datagram alice (49 ∷ []) ∷ [])) { status = ConnectionStatus.recv_video }

abbrev after_late : Server
after_late = record late {
  buffer = record buffer { buffer = 49 ∷ 0 ∷ 0 ∷ 0 ∷ 0 ∷ 0 ∷ 1 ∷ 0 ∷ []; head = 1 };
  net = record { polls = []; arrivals = []; sent = [] };
}

late-Unanswered : Unanswered late after_late
unfolding recv_video get_space send_packet_buffer send_data_buffer
late-Unanswered =
    recv_video-Unanswered 1 receiver
      (record { recv_addr = alice; bytes = 49 ∷ 0 ∷ 0 ∷ 0 ∷ 0 ∷ 0 ∷ []; pack_num = 1 }) late
      after_late refl

byte_written :
    (d : Sample) × (write_fifo_blocking sample 2 7
        (record { rx = 5 ∷ []; tx = 6 ∷ []; busy = true })
      ≡ ok d)
    × (d.tx ≡ 6 ∷ 7 ∷ [])
    × (d.rx ≡ 5 ∷ [])
byte_written =
    write_fifo_blocking_lem sample _ _ 1 sample-IsFifo 2 7
      (record { rx = 5 ∷ []; tx = 6 ∷ []; busy = true }) (omega arith)

byte_read :
    (x : ℕ) × (d : Sample) × (read_fifo_blocking sample 2
        (record { rx = 5 ∷ []; tx = 6 ∷ []; busy = true })
      ≡ ok (x, d))
    × (5 ∷ [] ≡ x ∷ d.rx)
    × (d.tx ≡ 6 ∷ [])
byte_read =
    read_fifo_blocking_lem sample _ _ 1 sample-IsFifo 2
      (record { rx = 5 ∷ []; tx = 6 ∷ []; busy = true }) (omega arith) (omega arith)

fifo_write_thread_lem_example :
    (b : CircularBuf) × (d : Sample) × (fifo_write_thread sample 2 2
        (record buffer { tail = 3 })
        (record { rx = []; tx = 9 ∷ []; busy = true })
      ≡ ok (b, d))
    × IsValid b
    × (b.max ≡ 8)
    × (d.tx ++ contents b ≡ 9 ∷ 0 ∷ 0 ∷ 0 ∷ [])
    × (length (contents b) ≡ 1)
fifo_write_thread_lem_example =
    fifo_write_thread_lem sample _ _ 1 sample-IsFifo 2 (omega arith) 2 (record buffer { tail = 3 })
      (record { rx = []; tx = 9 ∷ []; busy = true })
      (record {
        nonempty = omega arith;
        small = omega arith;
        block = refl;
        head_in = omega arith;
        tail_in = omega arith;
        full_at = λ e. cc;
      })
