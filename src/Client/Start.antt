-- ===== src/Client/Start.antt =====
-- `run_client` from its start: the memory maps, the socket, the emptying of the FIFO, the greeting
-- and the loop that sends packets, one after the other.
use fagprojekt.Base.{
  htons, ℕ, ◌+◌, ◌<◌, ◌≡◌, ◌≢◌, refl, ◌∙◌, ap, true, false, List, [], ◌∷◌, ◌++◌, length, arith,
  if◌then◌else◌, ok, ◌==◌,
}
use fagprojekt.Process.{Process, pure, zoom, ◌>>=◌, ◌>>◌, >>=_step}
use fagprojekt.Connection.{
  SockAddr, Net, Arrival, datagram, PollResult, ready, code, init_ack, max_packet_size,
  is_option_set,
}
use fagprojekt.Connection.Sockets.{
  Sockets, SocketCall, af_inet, open_socket_lem, init_client_socket_udp,
}
use fagprojekt.Fifo.{FifoDevice, rx_empty}
use fagprojekt.Fifo.Laws.{IsFifo}
use fagprojekt.Fifo.Opening.{opened, open_physical_memory_device-opened}
use fagprojekt.Fifo.Mapping.{
  Mappings, minus_one, mapped, video_layout, open_physical_memory_device, mmap_fpga_peripherals,
  mmap_fpga_peripherals-mapped,
}
use fagprojekt.Server.Frames.{frames}
use fagprojekt.Client.{Client, Greeter, on_socket, empty_fifo, greet, video_send_loop}
use fagprojekt.Client.Greeting.{Reply, polls_of, arrivals_of, AllOther, Waiting, asked, greet_lem}
use fagprojekt.Client.Emptying.{emptied, empty_fifo_lem}
use fagprojekt.Client.Stream.{AllFit, addressed, video_send_loop_lem}
use fagprojekt.Client.Program.{
  Program, on_maps, on_sockets, on_client, run_client, run_normal, run_test_client,
}
use fagprojekt.Video.{run_debug}

-- A part that succeeds, within the whole.
module _ {D A : Type 0} (p : Program D) {a : A} where
  on_maps_step :
      (m : Process Mappings A) {t : Mappings}
      → m p.maps ≡ ok (a, t)
      → on_maps m p ≡ ok (a, record p { maps = t })
  on_maps_step m e = rw (e, zoom)

  on_sockets_step :
      (m : Process Sockets A) {t : Sockets}
      → m p.sockets ≡ ok (a, t)
      → on_sockets m p ≡ ok (a, record p { sockets = t })
  on_sockets_step m e = rw (e, zoom)

  on_client_step :
      (m : Process (Client D) A) {t : Client D}
      → m p.client ≡ ok (a, t)
      → on_client m p ≡ ok (a, record p { client = t })
  on_client_step m e = rw (e, zoom)

on_socket_step :
    {D A : Type 0} (c : Client D) {a : A} (m : Process Net A) {t : Net}
    → m c.net ≡ ok (a, t)
    → on_socket m c ≡ ok (a, record c { net = t })
on_socket_step c m e = rw (e, zoom)

abbrev pub server_of : ℕ → ℕ → SockAddr
server_of ip port = record { family = af_inet; addr = ip; port = htons port }

init_client_socket_udp-server :
    (fd ip port : ℕ) (later : List ℕ) (s : Sockets)
    → fd ≢ minus_one
    → s.results ≡ fd ∷ later
    → (s' : Sockets) × (init_client_socket_udp ip port s ≡ ok (server_of ip port, s'))
unfolding init_client_socket_udp
init_client_socket_udp-server fd ip port later s good e =
    let fd_ok : (fd == minus_one) ≡ false = ground arith in
    (
      record s { sockfd = fd; results = later; calls = s.calls ++ (SocketCall.socket ∷ []) },
      rw (open_socket_lem fd later s e, ◌>>=◌, fd_ok) refl,
    )

module _ (fifo : FifoDevice) (incoming outgoing : fifo.Device → List ℕ) (patience : ℕ)
    (laws : IsFifo fifo incoming outgoing patience) (polls : ℕ) (enough : patience < polls) where
  open fifo use {Device}

  -- The part of `run_client` behind its set-up.
  run_normal_lem :
      (server_addr : SockAddr) (reads fuel : ℕ) (bytes : List ℕ) (g : Greeter) (p : Program Device)
      (n : ℕ) (d : Device) (ps : List (List ℕ)) (q : List ℕ) (rs : List Reply) (from : SockAddr)
      (ack : List ℕ) (polled : List PollResult) (rest : List Arrival)
      → empty_fifo fifo polls server_addr reads p.client ≡ ok (n, record (p.client) { dev = d })
      → incoming d ≡ frames ps ++ q
      → AllFit ps
      → length bytes ≡ max_packet_size
      → Waiting server_addr g
      → AllOther server_addr rs
      → from.addr ≡ server_addr.addr
      → from.port ≡ server_addr.port
      → p.client.net.polls ≡ polls_of rs (ready ∷ polled)
      → p.client.net.arrivals ≡ arrivals_of rs (datagram from (code init_ack ∷ ack) ∷ rest)
      → length rs < fuel
      → (p' : Program Device) × (run_normal fifo polls server_addr reads fuel (length ps) bytes g p
          ≡ ok (tt, p'))
        × (p'.client.net.sent
            ≡ (p.client.net.sent ++ asked server_addr (length rs + 1)) ++ addressed server_addr ps)
        × (incoming p'.client.dev ≡ q)
  unfolding run_normal
  run_normal_lem server_addr reads fuel bytes g p n d ps q rs from ack polled rest emptied inc fit
        len w o ea ep np na more =
      let stream =
        on_client (video_send_loop fifo polls server_addr (length ps) bytes) >>= λ _. pure tt in
      let p1 : Program Device = record p { client = record (p.client) { dev = d } } in
      let net : Net = record {
        polls = polled;
        arrivals = rest;
        sent = p.client.net.sent ++ asked server_addr (length rs + 1);
      } in
      let greeted : greet server_addr fuel g p.client.net ≡ ok (tt, net) =
        greet_lem server_addr rs from ack polled rest fuel g p.client.net w o ea ep np na more in
      let c2 : Client Device = record { dev = d; net = net } in
      let p2 : Program Device = record p { client = c2 } in
      let (bytes', c', sent, net', left, _) =
        video_send_loop_lem fifo incoming outgoing patience laws polls enough server_addr ps q bytes
          c2 fit inc len in
      (
        record p { client = c' },
        >>=_step (on_client (empty_fifo fifo polls server_addr reads))
              (λ _. on_client (on_socket (greet server_addr fuel g)) >> stream) p
              (on_client_step p (empty_fifo fifo polls server_addr reads) emptied)
            ∙ >>=_step (on_client (on_socket (greet server_addr fuel g))) (λ _. stream) p1
                (on_client_step p1 (on_socket (greet server_addr fuel g))
                  (on_socket_step p1.client (greet server_addr fuel g) greeted))
            ∙ >>=_step (on_client (video_send_loop fifo polls server_addr (length ps) bytes))
                (λ _. pure tt) p2
                (on_client_step p2 (video_send_loop fifo polls server_addr (length ps) bytes) sent),
        ap {A = Net} (λ (m : Net). m.sent) net',
        left,
      )

  -- `run_client` without -d, when the calls that set up the maps and the socket succeed, nothing in the
  -- array for the answer and no reply but the last passes for an INIT_ACK, and more reads are allowed
  -- than there are bytes to come: it reads bytes until the FIFO is empty and throws them away, sends
  -- INIT until the server's INIT_ACK has come, then sends on the packets whose frames come in behind
  -- the bytes thrown away, in order and unchanged, and nothing else.
  pub run_client_lem :
      (rounds reads fuel : ℕ) (malloc : ℕ → List ℕ) (bytes : List ℕ) (g : Greeter)
      (ip port options : ℕ) (p : Program Device) (fd lw h2f sock : ℕ) (later later' : List ℕ)
      (ps : List (List ℕ)) (q : List ℕ) (rs : List Reply) (from : SockAddr) (ack : List ℕ)
      (polled : List PollResult) (rest : List Arrival)
      → is_option_set options run_debug ≡ false
      → fd ≢ minus_one
      → lw ≢ minus_one
      → h2f ≢ minus_one
      → sock ≢ minus_one
      → p.maps.results ≡ fd ∷ lw ∷ h2f ∷ later
      → p.sockets.results ≡ sock ∷ later'
      → length (incoming p.client.dev) < reads
      → incoming (emptied fifo reads p.client.dev) ≡ frames ps ++ q
      → AllFit ps
      → length bytes ≡ max_packet_size
      → Waiting (server_of ip port) g
      → AllOther (server_of ip port) rs
      → from.addr ≡ ip
      → from.port ≡ htons port
      → p.client.net.polls ≡ polls_of rs (ready ∷ polled)
      → p.client.net.arrivals ≡ arrivals_of rs (datagram from (code init_ack ∷ ack) ∷ rest)
      → length rs < fuel
      → (p' : Program Device) × (dropped : List ℕ) × (incoming p.client.dev
          ≡ dropped ++ (frames ps ++ q))
        × (rx_empty fifo (emptied fifo reads p.client.dev) ≡ true)
        × (run_client fifo polls rounds malloc reads fuel (length ps) bytes g ip port options p
            ≡ ok (tt, p'))
        × (p'.client.net.sent
            ≡ (p.client.net.sent ++ asked (server_of ip port) (length rs + 1))
              ++ addressed (server_of ip port) ps)
        × (incoming p'.client.dev ≡ q)
  unfolding run_client
  run_client_lem rounds reads fuel malloc bytes g ip port options p fd lw h2f sock later later' ps q
        rs from ack polled rest normal good_fd good_lw good_h2f good_sock em es few inc fit len w o
        ea ep np na more =
      let server_addr : SockAddr = server_of ip port in
      let after_socket : SockAddr → Process (Program Device) (Unit {0}) = λ a.
        if is_option_set options run_debug
        then (run_test_client fifo polls a rounds malloc reads (length ps) bytes g >>= λ _. pure tt)
        else run_normal fifo polls a reads fuel (length ps) bytes g in
      let after_maps : Process (Program Device) (Unit {0}) =
        on_sockets (init_client_socket_udp ip port) >>= after_socket in
      let after_open : Process (Program Device) (Unit {0}) =
        on_maps (mmap_fpga_peripherals video_layout) >> after_maps in
      let m1 : Mappings = opened fd (lw ∷ h2f ∷ later) p.maps in
      let m2 : Mappings = mapped lw h2f later video_layout m1 in
      let p1 : Program Device = record p { maps = m1 } in
      let p2 : Program Device = record p { maps = m2 } in
      let (k, made) = init_client_socket_udp-server sock ip port later' p.sockets good_sock es in
      let p3 : Program Device = record p2 { sockets = k } in
      let (dropped, done_empty, front, empty) =
        empty_fifo_lem fifo incoming outgoing patience laws polls server_addr reads p.client few in
      let (p', done, sent, left) =
        run_normal_lem server_addr reads fuel bytes g p3 (length dropped)
          (emptied fifo reads p.client.dev) ps q rs from ack polled rest done_empty inc fit len w o
          ea ep np na more in
      (
        p',
        dropped,
        front ∙ ap (λ l. dropped ++ l) inc,
        empty,
        >>=_step (on_maps open_physical_memory_device) (λ _. after_open) p
              (on_maps_step p open_physical_memory_device
                (open_physical_memory_device-opened fd (lw ∷ h2f ∷ later) p.maps good_fd em))
            ∙ >>=_step (on_maps (mmap_fpga_peripherals video_layout)) (λ _. after_maps) p1
                (on_maps_step p1 (mmap_fpga_peripherals video_layout)
                  (mmap_fpga_peripherals-mapped lw h2f later video_layout m1 good_lw good_h2f refl))
            ∙ >>=_step (on_sockets (init_client_socket_udp ip port)) after_socket p2
                (on_sockets_step p2 (init_client_socket_udp ip port) made)
            ∙ rw normal done,
        sent,
        left,
      )
