-- ===== src/Tests/Clients.antt =====
-- A client that is greeted by its server, and two packets in its FIFO.
use fagprojekt.Base.{
  some, ℕ, ◌≡◌, refl, true, false, List, [], ◌∷◌, length, arith, ok, replicate, inl,
}
use fagprojekt.Buffer.{CircularBuf, get_space}
use fagprojekt.Buffer.Invariant.{contents}
use fagprojekt.Connection.{Net, ready, timed_out, datagram, max_packet_size}
use fagprojekt.Server.State.{Server}
use fagprojekt.Server.{Receiver, recv_video, fifo_write_thread}
use fagprojekt.Server.Frames.{admit, frames, datagrams, payloads}
use fagprojekt.Client.{Client, greet, video_send_loop}
use fagprojekt.Client.Greeting.{packet, silence, greet_lem}
use fagprojekt.Client.Stream.{addressed, video_send_loop_lem}
use fagprojekt.Client.Cutting.{cut, video_send_loop-cut}
use fagprojekt.Link.{link_lem}
use fagprojekt.Tests.Device.{Sample, sample, sample-IsFifo}
use fagprojekt.Tests.Servers.{alice, bob, buffer-IsValid, server, receiver, packets}

abbrev pub socket : Net
socket = record {
  polls = timed_out ∷ ready ∷ ready ∷ [];
  arrivals = datagram bob (50 ∷ []) ∷ datagram alice (50 ∷ []) ∷ [];
  sent = [];
}

greet_lem_example :
    greet alice 3 (record { src_addr = bob; response = 0 ∷ [] }) socket
    ≡ ok (
      tt,
      record {
        polls = [];
        arrivals = [];
        sent = (alice, 49 ∷ []) ∷ (alice, 49 ∷ []) ∷ (alice, 49 ∷ []) ∷ [];
      },
    )
greet_lem_example =
    greet_lem alice (silence ∷ packet bob (50 ∷ []) ∷ []) alice [] [] [] 3
      (record { src_addr = bob; response = 0 ∷ [] }) socket (0, [], refl, inl (omega arith))
      (inl (omega arith), tt) refl refl refl refl (omega arith)

abbrev pub bytes : List ℕ
bytes = replicate max_packet_size 0

two_forwarded :
    (bytes' : List ℕ) × (c' : Client Sample) × (video_send_loop sample 2 alice 2 bytes (record {
      dev = record { rx = 2 ∷ 0 ∷ 8 ∷ 9 ∷ 1 ∷ 0 ∷ 7 ∷ 5 ∷ []; tx = []; busy = true };
      net = socket;
    })
      ≡ ok (bytes', c'))
    × (c'.net ≡ record socket { sent = (alice, 8 ∷ 9 ∷ []) ∷ (alice, 7 ∷ []) ∷ [] })
    × (c'.dev.rx ≡ 5 ∷ [])
    × (c'.dev.tx ≡ [])
unfolding frames
two_forwarded =
    video_send_loop_lem sample _ _ 1 sample-IsFifo 2 (omega arith) alice
      ((8 ∷ 9 ∷ []) ∷ (7 ∷ []) ∷ []) (5 ∷ []) bytes
      (record {
        dev = record { rx = 2 ∷ 0 ∷ 8 ∷ 9 ∷ 1 ∷ 0 ∷ 7 ∷ 5 ∷ []; tx = []; busy = true };
        net = socket;
      })
      (omega arith) refl refl

-- A length of 3000, then a packet of two bytes.
abbrev stream : List ℕ
stream = 184 ∷ 11 ∷ 2 ∷ 0 ∷ 8 ∷ 9 ∷ 5 ∷ []

cut_stream : cut 2 stream ≡ some ((8 ∷ 9 ∷ []) ∷ [], 5 ∷ [])
unfolding cut
cut_stream = refl

video_send_loop-cut_example :
    (bytes' : List ℕ) × (c' : Client Sample) × (video_send_loop sample 2 alice 2 bytes
        (record { dev = record { rx = stream; tx = []; busy = true }; net = socket })
      ≡ ok (bytes', c'))
    × (length bytes' ≡ max_packet_size)
    × (c'.net ≡ record socket { sent = (alice, 8 ∷ 9 ∷ []) ∷ [] })
    × (c'.dev.rx ≡ 5 ∷ [])
    × (c'.dev.tx ≡ [])
video_send_loop-cut_example =
    video_send_loop-cut sample (λ d. d.rx) (λ d. d.tx) 1 sample-IsFifo 2 (omega arith) alice 2
      ((8 ∷ 9 ∷ []) ∷ []) (5 ∷ []) bytes
      (record { dev = record { rx = stream; tx = []; busy = true }; net = socket }) cut_stream refl

abbrev pub linked : Client Sample
linked = record { dev = record { rx = []; tx = []; busy = false }; net = socket }

-- The server's buffer has no room for the second of the three packets.
link_lem_example :
    (r' : Receiver) × (s' : Server) × (b : CircularBuf) × (d' : Sample) × (bytes' : List ℕ)
    × (c' : Client Sample) × (recv_video 3 receiver (server (datagrams packets)) ≡ ok (r', s'))
    × (fifo_write_thread sample (length (contents s'.buffer)) 2 s'.buffer linked.dev ≡ ok (b, d'))
    × (contents b ≡ [])
    × (video_send_loop sample 2 alice
          (length (admit 8 (payloads packets)))
          bytes
          (record linked { dev = record { rx = d'.tx; tx = []; busy = true } })
        ≡ ok (bytes', c'))
    × (c'.net.sent ≡ addressed alice (admit 8 (payloads packets)))
unfolding get_space
link_lem_example =
    link_lem sample _ _ 1 sample-IsFifo 2 (omega arith) sample _ _ 1 sample-IsFifo 2 (omega arith)
      (λ l. record { rx = l; tx = []; busy = true }) (λ l. refl) alice packets [] receiver
      (server (datagrams packets)) linked.dev bytes linked (omega arith) refl buffer-IsValid refl
      refl refl
