-- ===== src/Tests/Sessions.antt =====
-- The server and the client from their start.
use fagprojekt.Base.{
  ℕ, zero, suc, ◌≡◌, refl, ap, true, false, inl, List, [], ◌∷◌, ◌++◌, length, replicate, arith, ok,
}
use fagprojekt.Buffer.Invariant.{contents}
use fagprojekt.Connection.{datagram, timed_out, ready, is_option_set, max_packet_size}
use fagprojekt.Server.State.{ConnectionStatus, Server}
use fagprojekt.Server.{Receiver}
use fagprojekt.Server.Frames.{AllSized, admit, frames, datagrams, payloads}
use fagprojekt.Server.Run.{video_buffer_size}
use fagprojekt.Server.Program.{ServerProgram, run_server}
use fagprojekt.Server.SetUp.{SetUp}
use fagprojekt.Server.Start.{run_server_lem, run_server-iperf}
use fagprojekt.Video.{server_run_iperf, run_debug}
use fagprojekt.Fifo.{rx_empty, empty_bit}
use fagprojekt.Client.{Client}
use fagprojekt.Client.Greeting.{silence}
use fagprojekt.Client.Emptying.{emptied}
use fagprojekt.Client.Program.{Program, run_client}
use fagprojekt.Client.Start.{server_of, run_client_lem}
use fagprojekt.Tests.Device.{Sample, sample, sample-IsFifo}
use fagprojekt.Tests.Maps.{unmapped, closed}
use fagprojekt.Tests.Servers.{alice, bob, server, receiver, packets}

blank : ℕ → List ℕ
blank zero = []
blank (suc n) = 0 ∷ blank n

length-blank : (n : ℕ) → length (blank n) ≡ n
unfolding blank
length-blank zero = refl
length-blank (suc n) = ap suc (length-blank n)

abbrev started : Server
started = server (datagram bob (52 ∷ []) ∷ datagram alice (49 ∷ []) ∷ datagrams packets)

abbrev program : ServerProgram
program = record {
  maps = unmapped (3 ∷ 4096 ∷ 8192 ∷ []);
  sockets = closed (4 ∷ 0 ∷ []);
  server = started;
  can_create = true;
  fifo_write_thread_id = false;
  freed = false;
}

program-SetUp : SetUp program 3 4096 8192 4 0 [] []
program-SetUp = record {
  good_fd = λ e. omega arith;
  good_lw = λ e. omega arith;
  good_h2f = λ e. omega arith;
  good_sock = λ e. omega arith;
  good_bound = omega arith;
  maps = refl;
  sockets = refl;
}

packets-AllSized : AllSized packets
packets-AllSized =
    (omega arith, omega arith, (omega arith, omega arith, (omega arith, omega arith, tt)))

no_iperf : is_option_set 0 server_run_iperf ≡ false
unfolding is_option_set
no_iperf = refl

run_server_lem_example :
    (r : Receiver) × (p : ServerProgram) × (run_server 2 4 3
        (blank video_buffer_size)
        (0 ∷ [])
        receiver
        1337
        0
        program
      ≡ ok (r, p))
    × (p.server.status ≡ ConnectionStatus.recv_video)
    × (p.server.client ≡ alice)
    × (p.server.net.sent ≡ (alice, 50 ∷ []) ∷ [])
    × (p.server.net.arrivals ≡ [])
    × (contents p.server.buffer ≡ frames (admit video_buffer_size (payloads packets)))
run_server_lem_example =
    run_server_lem 1337 0 program program-SetUp ((bob, 52 ∷ []) ∷ []) packets alice [] [] 4
      (blank video_buffer_size) (0 ∷ []) receiver no_iperf (omega arith, tt) packets-AllSized
      (length-blank video_buffer_size) refl (omega arith)

iperf : is_option_set 2 server_run_iperf ≡ true
unfolding is_option_set
iperf = refl

abbrev measured : ServerProgram
measured = record program { server = server (datagrams packets) }

measured-SetUp : SetUp measured 3 4096 8192 4 0 [] []
measured-SetUp = record {
  good_fd = λ e. omega arith;
  good_lw = λ e. omega arith;
  good_h2f = λ e. omega arith;
  good_sock = λ e. omega arith;
  good_bound = omega arith;
  maps = refl;
  sockets = refl;
}

run_server-iperf_example :
    (r : Receiver) × (p : ServerProgram) × (run_server 1 1 3
        (blank video_buffer_size)
        []
        receiver
        1337
        2
        measured
      ≡ ok (r, p))
    × (p.server.net.sent ≡ [])
    × (p.server.net.arrivals ≡ [])
    × (contents p.server.buffer ≡ frames (admit video_buffer_size (payloads packets)))
run_server-iperf_example =
    run_server-iperf 1337 2 measured measured-SetUp packets [] 1 1 (blank video_buffer_size) []
      receiver iperf packets-AllSized (length-blank video_buffer_size) refl

-- A client with its server on port 1337, and an old byte before a packet in its FIFO. The device is
-- busy after each byte that is taken, so the emptying ends behind the first.
abbrev device : Sample
device = record { rx = 77 ∷ 2 ∷ 0 ∷ 8 ∷ 9 ∷ []; tx = []; busy = false }

abbrev ready_client : Program Sample
ready_client = record {
  maps = unmapped (3 ∷ 4096 ∷ 8192 ∷ []);
  sockets = closed (4 ∷ []);
  client = record {
    dev = device;
    net = record {
      polls = timed_out ∷ ready ∷ [];
      arrivals = datagram (server_of 7 1337) (50 ∷ []) ∷ [];
      sent = [];
    };
  };
  typed = [];
}

not_debug : is_option_set 0 run_debug ≡ false
unfolding is_option_set
not_debug = refl

old_byte_emptied :
    emptied sample 9 device ≡ record { rx = 2 ∷ 0 ∷ 8 ∷ 9 ∷ []; tx = []; busy = true }
unfolding emptied empty_bit
old_byte_emptied = refl

run_client_lem_example :
    (p : Program Sample) × (dropped : List ℕ) × (77 ∷ 2 ∷ 0 ∷ 8 ∷ 9 ∷ []
      ≡ dropped ++ (2 ∷ 0 ∷ 8 ∷ 9 ∷ []))
    × (rx_empty sample (emptied sample 9 device) ≡ true)
    × (run_client sample 2 0
          (λ n. [])
          9
          2
          1
          (replicate max_packet_size 0)
          (record { src_addr = bob; response = 0 ∷ [] })
          7
          1337
          0
          ready_client
        ≡ ok (tt, p))
    × (p.client.net.sent
        ≡ (server_of 7 1337, 49 ∷ [])
          ∷ (server_of 7 1337, 49 ∷ [])
          ∷ (server_of 7 1337, 8 ∷ 9 ∷ [])
          ∷ [])
    × (p.client.dev.rx ≡ [])
unfolding frames
run_client_lem_example =
    run_client_lem sample _ _ 1 sample-IsFifo 2 (omega arith) 0 9 2 (λ n. [])
      (replicate max_packet_size 0) (record { src_addr = bob; response = 0 ∷ [] }) 7 1337 0
      ready_client 3 4096 8192 4 [] [] ((8 ∷ 9 ∷ []) ∷ []) [] (silence ∷ []) (server_of 7 1337) []
      [] [] not_debug (λ e. omega arith) (λ e. omega arith) (λ e. omega arith) (λ e. omega arith)
      refl refl (omega arith) (ap (λ d. d.rx) old_byte_emptied) (omega arith, tt) refl
      (0, [], refl, inl (omega arith)) tt refl refl refl refl (omega arith)

abbrev waiting : Client Sample
waiting = record {
  dev = record { rx = 1 ∷ 2 ∷ []; tx = []; busy = false };
  net = ready_client.client.net;
}
