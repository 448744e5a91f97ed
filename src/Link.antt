-- ===== src/Link.antt =====
-- The whole way of a video packet: from the datagrams that the server receives, through its buffer
-- and the FIFO, to the datagrams that the client sends.
pub mod Interleaved
pub mod Handshake
pub mod Running
use fagprojekt.Base.{
  ℕ, ◌+◌, ◌-◌, ◌<◌, ◌≡◌, sym, ◌∙◌, ap, List, [], ◌∷◌, ◌++◌, length, arith, ok, ltb, Bool-cases, inl,
  inr, append-nil, eq_nil_of_length,
}
use fagprojekt.Buffer.{CircularBuf, get_space}
use fagprojekt.Buffer.Invariant.{IsValid, contents}
use fagprojekt.Connection.{SockAddr, Arrival, max_packet_size}
use fagprojekt.Fifo.{FifoDevice}
use fagprojekt.Fifo.Laws.{IsFifo}
use fagprojekt.Server.State.{Server}
use fagprojekt.Server.{Receiver, recv_video, fifo_write_thread}
use fagprojekt.Server.Frames.{admit, frames, datagrams, payloads, AllSized}
use fagprojekt.Server.Receive.{recv_video_lem}
use fagprojekt.Server.Drain.{fifo_write_thread_lem}
use fagprojekt.Client.{Client, video_send_loop}
use fagprojekt.Client.Stream.{AllFit, addressed, video_send_loop_lem}

admit-AllFit :
    (space : ℕ) (ps : List (SockAddr × List ℕ)) → AllSized ps → AllFit (admit space (payloads ps))
unfolding admit
admit-AllFit space [] h = tt
admit-AllFit space ((from, p) ∷ ps) (pos, size, h) = elim (Bool-cases (ltb (length p + 2) space)) [
  | inl room ↦ rw (room, admit) (size, admit-AllFit (space - (length p + 2)) ps h)
  | inr full ↦ rw (full, admit) (admit-AllFit space ps h)
]

-- The server's board and the client's, each with its FIFO, and the FPGA's link between them, which
-- delivers the bytes that it was given.
module _ (fifo_s : FifoDevice) (in_s out_s : fifo_s.Device → List ℕ) (patience_s : ℕ)
    (laws_s : IsFifo fifo_s in_s out_s patience_s) (polls_s : ℕ) (enough_s : patience_s < polls_s)
    (fifo_c : FifoDevice) (in_c out_c : fifo_c.Device → List ℕ) (patience_c : ℕ)
    (laws_c : IsFifo fifo_c in_c out_c patience_c) (polls_c : ℕ) (enough_c : patience_c < polls_c)
    (link : List ℕ → fifo_c.Device) (delivers : (l : List ℕ) → in_c (link l) ≡ l)
    (server_addr : SockAddr) where
  -- The server receives the packets `ps` into an empty buffer, its second thread then empties the
  -- buffer into the FIFO, and the client takes the bytes from the link: all of this comes to its
  -- end, and the client sends on exactly the packets for which the buffer had room, unchanged and
  -- in their order.
  pub link_lem :
      (ps : List (SockAddr × List ℕ)) (rest : List Arrival) (r : Receiver) (s : Server)
      (d : fifo_s.Device) (bytes : List ℕ) (c : Client fifo_c.Device)
      → AllSized ps
      → s.net.arrivals ≡ datagrams ps ++ rest
      → IsValid s.buffer
      → contents s.buffer ≡ []
      → out_s d ≡ []
      → length bytes ≡ max_packet_size
      → let sent_on = admit (get_space s.buffer) (payloads ps) in
        (r' : Receiver) × (s' : Server) × (b : CircularBuf) × (d' : fifo_s.Device) × (bytes' : List
          ℕ)
        × (c' : Client fifo_c.Device) × (recv_video (length ps) r s ≡ ok (r', s'))
        × (fifo_write_thread fifo_s (length (contents s'.buffer)) polls_s s'.buffer d ≡ ok (b, d'))
        × (contents b ≡ [])
        × (video_send_loop fifo_c polls_c server_addr
              (length sent_on)
              bytes
              (record c { dev = link (out_s d') })
            ≡ ok (bytes', c'))
        × (c'.net.sent ≡ c.net.sent ++ addressed server_addr sent_on)
  link_lem ps rest r s d bytes c sized arr v empty start len =
      let sent_on : List (List ℕ) = admit (get_space s.buffer) (payloads ps) in
      let (r', s', received, _, v', held) = recv_video_lem ps rest r s sized arr v in
      let (b, d', drained, _, _, moved, left) =
        fifo_write_thread_lem fifo_s in_s out_s patience_s laws_s polls_s enough_s
          (length (contents s'.buffer)) s'.buffer d v' in
      let none_left : contents b ≡ [] = eq_nil_of_length (contents b) (omega (arith, left)) in
      let taken : out_s d' ≡ frames sent_on =
        sym (append-nil (out_s d'))
        ∙ ap (λ l. out_s d' ++ l) (sym none_left)
        ∙ moved
        ∙ ap (λ l. l ++ contents s'.buffer) start
        ∙ held
        ∙ ap (λ l. l ++ frames sent_on) empty in
      let (bytes', c', sent, net, _, _) =
        video_send_loop_lem fifo_c in_c out_c patience_c laws_c polls_c enough_c server_addr sent_on
          [] bytes (record c { dev = link (out_s d') }) (admit-AllFit (get_space s.buffer) ps sized)
          (delivers (out_s d') ∙ taken ∙ sym (append-nil (frames sent_on))) len in
      (r', s', b, d', bytes', c', received, drained, none_left, sent, ap (λ n. n.sent) net)
