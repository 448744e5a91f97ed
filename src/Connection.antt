-- ===== src/Connection.antt =====
-- VideoServer/src/connection.c: the UDP socket of the video server and of its client. What the
-- system calls answer is part of the state, as lists of results in the order of the calls.
pub mod Laws
pub mod Sockets
use Prim.Native.Nat.{bit_and}
use fagprojekt.Base.{
  ℕ, zero, suc, ◌+◌, ◌%◌, ◌^◌, Bool, true, false, ◌&&◌, List, [], ◌∷◌, ◌++◌, ltb, leb, ◌==◌,
  if◌then◌else◌, length, take, drop, Option, none, some, Outcome, ok, fault, exits, pending,
}
use fagprojekt.Process.{Process, pure, ◌>>=◌, ◌>>◌}

abbrev pub max_packet_size : ℕ
max_packet_size = 2000

abbrev pub server_port : ℕ
server_port = 1337

-- `enum packet_types`
pub data PacketType : Type 0 where
  init init_ack terminate video_data send_slow send_fast : PacketType

abbrev pub code : PacketType → ℕ
code init = 49
code init_ack = 50
code terminate = 51
code video_data = 52
code send_slow = 53
code send_fast = 54

-- The fields of `struct sockaddr_in`, address and port in network order.
pub record SockAddr : Type 0 where
  pub family : ℕ
  pub addr : ℕ
  pub port : ℕ

-- What one call of `recvfrom` comes to: -1, or a datagram with the bytes that were stored.
pub data Arrival : Type 0 where
  failed : Arrival
  datagram : SockAddr → List ℕ → Arrival

-- What one call of `poll` returns: above, at or below 0.
pub data PollResult : Type 0 where
  ready timed_out poll_failed : PollResult

-- The socket: the results of the calls to come, and the datagrams handed to `sendto` so far.
pub record Net : Type 0 where
  pub polls : List PollResult
  pub arrivals : List Arrival
  pub sent : List (SockAddr × List ℕ)

-- The array `bytes` after a datagram was stored at its start.
abbrev pub store : List ℕ → List ℕ → List ℕ
store p bytes = p ++ drop (length p) bytes

-- `recvfrom` with no result left waits for ever. The int -1 is `none`.
recvfrom : SockAddr → List ℕ → Process Net (Option ℕ × SockAddr × List ℕ)
recvfrom src bytes net = elim net.arrivals [
  | [] ↦ pending
  | failed ∷ rest ↦ ok ((none, src, bytes), record net { arrivals = rest })
  | datagram from p ∷ rest ↦
      ok ((some (length p), from, store p bytes), record net { arrivals = rest })
]

-- The length, with `*src` and the array `data` as they are afterwards.
unfoldable pub recv_data : SockAddr → List ℕ → Process Net (ℕ × SockAddr × List ℕ)
unfolding recvfrom
recv_data src bytes = do
  (n, from, bytes') ← recvfrom src bytes
  λ net. elim n [ none ↦ exits 1 | some len ↦ ok ((len, from, bytes'), net) ]

poll : Process Net PollResult
poll net = elim net.polls [ [] ↦ pending | r ∷ rest ↦ ok (r, record net { polls = rest }) ]

-- The int -1 is `none`: after a timeout, and after a failure of either call.
unfoldable pub recv_data_timeout : SockAddr → List ℕ → Process Net (Option ℕ × SockAddr × List ℕ)
unfolding recvfrom poll
recv_data_timeout src bytes = do
  r ← poll
  elim r [
    | ready ↦ recvfrom src bytes
    | timed_out ↦ pure (none, src, bytes)
    | poll_failed ↦ pure (none, src, bytes)
  ]

-- Reads past the array's end are undefined. What `sendto` answers is ignored.
unfoldable pub send_data : SockAddr → List ℕ → ℕ → Process Net (Unit {0})
send_data dest bytes len net =
    if leb len (length bytes)
    then ok (tt, record net { sent = net.sent ++ ((dest, take len bytes) ∷ []) })
    else fault

unfoldable pub addr_match : SockAddr → SockAddr → Bool
addr_match a b = a.addr == b.addr && a.port == b.port

unfoldable pub send_packet_type : SockAddr → PacketType → Process Net (Unit {0})
unfolding send_data
send_packet_type dest type = send_data dest (code type ∷ []) 1

unfoldable pub is_option_set : ℕ → ℕ → Bool
is_option_set value option = bit_and value option == option
