-- ===== src/Link/Handshake/Passes.antt =====
-- What single passes of the server's and the client's loops do over one datagram.
use fagprojekt.Base.{ℕ, ◌≡◌, ◌⊎◌, true, List, [], ◌∷◌, take, Option, ok, arith}
use fagprojekt.Connection.{
  SockAddr, Net, failed, datagram, PollResult, ready, timed_out, poll_failed, code, init, init_ack,
  store, recv_data_timeout, send_data, send_packet_type, addr_match,
}
use fagprojekt.Server.State.{ConnectionStatus, Server}
use fagprojekt.Server.{Receiver, wait_init_pass, recv_video_pass}
use fagprojekt.Server.Receive.{recv_video_pass-Unanswered}
use fagprojekt.Client.{Greeter, accepted}
use fagprojekt.Link.Handshake.{Datagram, socket, hears}

-- A pass of `wait_init` either goes on waiting without an answer, or answers the sender.
pub wait_cases :
    (bytes bytes' : List ℕ) (d : Datagram) (s t : Server)
    → wait_init_pass bytes (hears d s) ≡ ok (bytes', t)
    → ((t.net.sent ≡ []) × (t.status ≡ s.status))
      ⊎ ((t.net.sent ≡ (d.src, code init_ack ∷ []) ∷ [])
          × (t.status ≡ ConnectionStatus.recv_video)
          × (t.client ≡ d.src))
unfolding wait_init_pass
wait_cases bytes bytes' d s t done = ground arith

pub video_quiet :
    (r r' : Receiver) (d : Datagram) (s t : Server)
    → recv_video_pass r (hears d s) ≡ ok (r', t)
    → (t.net.sent ≡ []) × (t.status ≡ s.status) × (t.client ≡ s.client)
video_quiet r r' d s t done =
    let u = recv_video_pass-Unanswered r r' (hears d s) t done in (u.sent, u.status, u.client)

pub miss_same :
    (g : Greeter) (r : PollResult) (net : Net) (n : Option ℕ) (from : SockAddr) (bytes : List ℕ)
    → recv_data_timeout g.src_addr g.response (socket (r ∷ []) (failed ∷ []))
      ≡ ok ((n, from, bytes), net)
    → record { src_addr = from; response = bytes } ≡ g
unfolding recv_data_timeout
miss_same g ready net n from bytes done = ground arith
miss_same g timed_out net n from bytes done = ground arith
miss_same g poll_failed net n from bytes done = ground arith

pub hear_lem :
    (g : Greeter) (d : Datagram) (net : Net) (n : Option ℕ) (from : SockAddr) (bytes : List ℕ)
    → recv_data_timeout g.src_addr g.response (socket (ready ∷ []) (datagram d.src d.bytes ∷ []))
      ≡ ok ((n, from, bytes), net)
    → (from ≡ d.src) × (bytes ≡ store d.bytes g.response)
unfolding recv_data_timeout
hear_lem g d net n from bytes done = ground arith

pub call_sent :
    (server_addr : SockAddr) (net : Net)
    → send_packet_type server_addr init (socket [] []) ≡ ok (tt, net)
    → net.sent ≡ (server_addr, code init ∷ []) ∷ []
unfolding send_packet_type
call_sent server_addr net done = ground arith

pub stream_sent :
    (server_addr : SockAddr) (bytes : List ℕ) (len : ℕ) (net : Net)
    → send_data server_addr bytes len (socket [] []) ≡ ok (tt, net)
    → net.sent ≡ (server_addr, take len bytes) ∷ []
unfolding send_data
stream_sent server_addr bytes len net done = ground arith

-- The greeting ends only over a datagram with the server's address.
pub accepted_match :
    (server_addr from : SockAddr) (bytes : List ℕ)
    → accepted server_addr (record { src_addr = from; response = bytes }) ≡ ok true
    → addr_match from server_addr ≡ true
unfolding accepted
accepted_match server_addr from bytes done = ground arith
