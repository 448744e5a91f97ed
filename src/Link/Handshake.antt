-- ===== src/Link/Handshake.antt =====
-- The client's greeting (VideoServer/src/client.c) and the server's state machine
-- (VideoServer/src/server.c) over a network that may lose, repeat and reorder datagrams, and on which
-- others send too. A server that exits, since `recvfrom` has failed, takes no further step.
pub mod Passes
pub mod Agreement
pub mod Lost
pub mod Progress
pub mod Repeated
pub mod Unset
use fagprojekt.Base.{
  ℕ, ◌≤◌, ◌<◌, ◌≡◌, ◌≢◌, Bool, true, false, List, [], ◌∷◌, ◌++◌, map, length, Option, ok, arith,
}
use fagprojekt.Connection.{
  SockAddr, Net, Arrival, failed, datagram, PollResult, ready, init, max_packet_size,
  recv_data_timeout, send_data, send_packet_type, addr_match,
}
use fagprojekt.Server.State.{ConnectionStatus, Server}
use fagprojekt.Server.{Receiver, wait_init_pass, recv_video_pass}
use fagprojekt.Client.{Greeter, accepted}

-- A datagram on its way.
pub record Datagram : Type 0 where
  pub src : SockAddr
  pub dst : SockAddr
  pub bytes : List ℕ

-- What a program at `src` has handed to `sendto`.
abbrev pub posted : SockAddr → List (SockAddr × List ℕ) → List Datagram
posted src [] = []
posted src ((dst, p) ∷ ps) = record { src = src; dst = dst; bytes = p } ∷ posted src ps

-- The socket with results for one pass, and nothing sent in it yet.
abbrev pub socket : List PollResult → List Arrival → Net
socket polls arrivals = record { polls = polls; arrivals = arrivals; sent = [] }

abbrev pub hears : Datagram → Server → Server
hears d s = record s { net = socket [] (datagram d.src d.bytes ∷ []) }

-- Where the client stands: before it sends INIT, before it waits for the answer, and in
-- `video_send_loop`.
pub data Place : Type 0 where
  calling listening streaming : Place

-- `bytes` is the array of `wait_init`, `receiver` the variables of `recv_video`, and `greeter` those
-- of the greeting.
pub record Session : Type 0 where
  pub server : Server
  pub bytes : List ℕ
  pub receiver : Receiver
  pub place : Place
  pub greeter : Greeter
  pub flight : List Datagram

-- The client's place after the test that ends the greeting.
abbrev pub after_test : Bool → Place
after_test true = streaming
after_test false = calling

module _ (server_addr client_addr : SockAddr) where
  -- A pass of `wait_init`, or of `recv_video`, over a datagram that has come to the server.
  pub data ServerStep : Session → Session → Type 0 where
    wait_pass :
        {s : Session} (before after : List Datagram) (d : Datagram) (bytes : List ℕ) (t : Server)
        → s.flight ≡ before ++ (d ∷ after)
        → addr_match d.dst server_addr ≡ true
        → s.server.status ≡ ConnectionStatus.waiting_init
        → wait_init_pass s.bytes (hears d s.server) ≡ ok (bytes, t)
        → ServerStep s (record s {
          server = t;
          bytes = bytes;
          flight = (before ++ after) ++ posted server_addr t.net.sent;
        })
    video_pass :
        {s : Session} (before after : List Datagram) (d : Datagram) (r : Receiver) (t : Server)
        → s.flight ≡ before ++ (d ∷ after)
        → addr_match d.dst server_addr ≡ true
        → s.server.status ≡ ConnectionStatus.recv_video
        → recv_video_pass s.receiver (hears d s.server) ≡ ok (r, t)
        → ServerStep s (record s {
          server = t;
          receiver = r;
          flight = (before ++ after) ++ posted server_addr t.net.sent;
        })

  -- The client sends INIT; waits, without and with a datagram, and makes its test; and, once its
  -- greeting has ended, sends packets of at most 2000 bytes, whatever is in them.
  pub data ClientStep : Session → Session → Type 0 where
    call :
        {s : Session} (net : Net)
        → s.place ≡ calling
        → send_packet_type server_addr init (socket [] []) ≡ ok (tt, net)
        → ClientStep s
            (record s { place = listening; flight = s.flight ++ posted client_addr net.sent })
    miss :
        {s : Session} (r : PollResult) (net : Net) (n : Option ℕ) (from : SockAddr) (bytes : List ℕ)
        (done : Bool)
        → s.place ≡ listening
        → recv_data_timeout s.greeter.src_addr s.greeter.response (socket (r ∷ []) (failed ∷ []))
          ≡ ok ((n, from, bytes), net)
        → accepted server_addr (record { src_addr = from; response = bytes }) ≡ ok done
        → ClientStep s (record s {
          place = after_test done;
          greeter = record { src_addr = from; response = bytes };
        })
    hear :
        {s : Session} (before after : List Datagram) (d : Datagram) (net : Net) (n : Option ℕ)
        (from : SockAddr) (bytes : List ℕ) (done : Bool)
        → s.place ≡ listening
        → s.flight ≡ before ++ (d ∷ after)
        → addr_match d.dst client_addr ≡ true
        → recv_data_timeout s.greeter.src_addr s.greeter.response
            (socket (ready ∷ []) (datagram d.src d.bytes ∷ []))
          ≡ ok ((n, from, bytes), net)
        → accepted server_addr (record { src_addr = from; response = bytes }) ≡ ok done
        → ClientStep s (record s {
          place = after_test done;
          greeter = record { src_addr = from; response = bytes };
          flight = before ++ after;
        })
    stream :
        {s : Session} (bytes : List ℕ) (len : ℕ) (net : Net)
        → s.place ≡ streaming
        → len ≤ max_packet_size
        → send_data server_addr bytes len (socket [] []) ≡ ok (tt, net)
        → ClientStep s (record s { flight = s.flight ++ posted client_addr net.sent })

  -- The network loses or repeats a datagram, or brings one of another sender; any datagram in flight
  -- may be the next to come.
  pub data NetStep : Session → Session → Type 0 where
    lose :
        {s : Session} (before after : List Datagram) (d : Datagram)
        → s.flight ≡ before ++ (d ∷ after)
        → NetStep s (record s { flight = before ++ after })
    repeat :
        {s : Session} (before after : List Datagram) (d : Datagram)
        → s.flight ≡ before ++ (d ∷ after)
        → NetStep s (record s { flight = before ++ (d ∷ d ∷ after) })
    intrude :
        {s : Session} (d : Datagram)
        → addr_match d.src server_addr ≡ false
        → addr_match d.src client_addr ≡ false
        → length d.bytes ≤ max_packet_size
        → NetStep s (record s { flight = s.flight ++ (d ∷ []) })

  pub data Step (s t : Session) : Type 0 where
    serve : ServerStep s t → Step s t
    greet : ClientStep s t → Step s t
    carry : NetStep s t → Step s t

  -- The states that are reached from `s`.
  pub data Run (s : Session) : Session → Type 0 where
    here : Run s s
    next : {t u : Session} → Run s t → Step t u → Run s u

-- The server waits, nothing is in flight, and the client's two variables hold nothing that passes for
-- an answer. The program does not see to the last: it sets neither of them before its first test.
pub record Start (server_addr : SockAddr) (s : Session) : Type 0 where
  pub waits : s.server.status ≡ ConnectionStatus.waiting_init
  pub calls : s.place ≡ calling
  pub nothing : s.flight ≡ []
  pub unanswered : accepted server_addr s.greeter ≡ ok false

-- The server receives video, and has this client as its client.
abbrev pub Met : SockAddr → Server → Type 0
Met client_addr s = (s.status ≡ ConnectionStatus.recv_video) × (s.client ≡ client_addr)
