-- ===== src/Connection/Laws.antt =====
-- The calls of connection.c on each answer of the system.
use fagprojekt.Base.{ℕ, ◌≡◌, refl, List, [], ◌∷◌, ◌++◌, length, ok}
use fagprojekt.Connection.{
  SockAddr, Net, Arrival, datagram, store, recvfrom, recv_data, PacketType, code, send_packet_type,
}

module _ (src : SockAddr) (bytes : List ℕ) (net : Net) where
  pub recv_data-datagram :
      (from : SockAddr) (p : List ℕ) (rest : List Arrival)
      → net.arrivals ≡ datagram from p ∷ rest
      → recv_data src bytes net
        ≡ ok ((length p, from, store p bytes), record net { arrivals = rest })
  unfolding recv_data
  recv_data-datagram from p rest e = rw (e, recvfrom)

pub send_packet_type_lem :
    (dest : SockAddr) (type : PacketType) (net : Net)
    → send_packet_type dest type net
      ≡ ok (tt, record net { sent = net.sent ++ ((dest, code type ∷ []) ∷ []) })
unfolding send_packet_type
send_packet_type_lem dest type net = refl
