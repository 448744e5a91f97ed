-- ===== src/Client/Stream.antt =====
-- `video_send_loop`: the client cuts the stream of the FIFO into the packets that were put into it.
use fagprojekt.Base.{
  ℕ, suc, ◌+◌, ◌/◌, ◌%◌, ◌^◌, ◌≤◌, ◌<◌, ◌≡◌, refl, sym, ◌∙◌, ap, true, false, List, [], ◌∷◌, ◌++◌,
  length, take, set, length-set, append_assoc, append-nil, arith, ok, ltb, leb,
}
use fagprojekt.Memory.{put_at_lem, take-set}
use fagprojekt.Process.{zoom, ◌>>=◌, >>=_step}
use fagprojekt.Connection.{SockAddr, Net, max_packet_size, send_data}
use fagprojekt.Fifo.{FifoDevice, read_fifo_blocking}
use fagprojekt.Fifo.Laws.{IsFifo}
use fagprojekt.Fifo.Polling.{read_fifo_blocking_lem}
use fagprojekt.Server.Packet.{frame}
use fagprojekt.Server.Frames.{frames}
use fagprojekt.Client.{
  Client, un16, to_short, on_fifo, send_video_packet, read_packet, forward_packet, video_send_pass,
  video_send_loop,
}

-- Packets that the client may send.
abbrev pub AllFit : List (List ℕ) → Type 0
AllFit [] = Unit
AllFit (p ∷ ps) = (length p ≤ max_packet_size) × AllFit ps

abbrev pub addressed : SockAddr → List (List ℕ) → List (SockAddr × List ℕ)
addressed dest [] = []
addressed dest (p ∷ ps) = (dest, p) ∷ addressed dest ps

module _ (fifo : FifoDevice) (incoming outgoing : fifo.Device → List ℕ) (patience : ℕ)
    (laws : IsFifo fifo incoming outgoing patience) (polls : ℕ) (enough : patience < polls)
    (server_addr : SockAddr) where
  open fifo use {Device}

  -- One byte read, with the rest of the client left as it was.
  pub read_byte :
      (x : ℕ) (q : List ℕ) (c : Client Device)
      → incoming c.dev ≡ x ∷ q
      → (d : Device) × (on_fifo (read_fifo_blocking fifo polls) c ≡ ok (x, record c { dev = d }))
        × (incoming d ≡ q)
        × (outgoing d ≡ outgoing c.dev)
  read_byte x q c e =
      let (y, d, done, inc, out) =
        read_fifo_blocking_lem fifo incoming outgoing patience laws polls c.dev enough
          (omega (arith, ap length e)) in
      let same : y ∷ incoming d ≡ x ∷ q = sym inc ∙ e in
      (d, rw (done, zoom) (cc same), cc same, out)

  -- The loop over the bytes of a packet.
  pub read_packet_lem :
      (p q : List ℕ) (i : ℕ) (bytes : List ℕ) (c : Client Device)
      → incoming c.dev ≡ p ++ q
      → i + length p ≤ length bytes
      → (bytes' : List ℕ) × (d : Device) × (read_packet fifo polls server_addr (length p) i bytes c
          ≡ ok (bytes', record c { dev = d }))
        × (length bytes' ≡ length bytes)
        × (take (i + length p) bytes' ≡ take i bytes ++ p)
        × (incoming d ≡ q)
        × (outgoing d ≡ outgoing c.dev)
  unfolding read_packet
  read_packet_lem [] q i bytes c e h = (
    bytes,
    c.dev,
    refl,
    refl,
    ap (λ k. take k bytes) {x = i + 0} {y = i} (omega arith) ∙ sym (append-nil (take i bytes)),
    e,
    refl,
  )
  read_packet_lem (x ∷ p) q i bytes c e h =
      let (d, got, inc, out) = read_byte x (p ++ q) c e in
      let (bytes', d', done, len, front, inc', out') =
        read_packet_lem p q (i + 1) (set bytes i x) (record c { dev = d }) inc
          (omega (arith, length-set bytes i x)) in
      (
        bytes',
        d',
        rw (got, ◌>>=◌, put_at_lem bytes i x (omega arith)) done,
        len ∙ length-set bytes i x,
        ap (λ k. take k bytes') {x = i + suc (length p)} {y = i + 1 + length p} (omega arith)
            ∙ front
            ∙ ap (λ l. l ++ p) (take-set bytes i x (omega arith))
            ∙ append_assoc (take i bytes) (x ∷ []) p,
        inc',
        out' ∙ out,
      )

  read_length :
      (p q bytes : List ℕ) (c : Client Device)
      → incoming c.dev ≡ frame p ++ q
      → length p < 2 ^ 16
      → (d : Device) × (video_send_pass fifo polls server_addr bytes c
          ≡ forward_packet fifo polls server_addr (length p) bytes (record c { dev = d }))
        × (incoming d ≡ p ++ q)
        × (outgoing d ≡ outgoing c.dev)
  unfolding video_send_pass
  read_length p q bytes c e small =
      let lo : ℕ = length p % 256 in
      let hi : ℕ = length p / 256 % 256 in
      let (d, got, inc, out) = read_byte lo (hi ∷ (p ++ q)) c e in
      let (d', got', inc', out') = read_byte hi (p ++ q) (record c { dev = d }) inc in
      let len : un16 lo hi ≡ length p = omega arith in
      (d', rw (got, ◌>>=◌, got', len), inc', out' ∙ out)

  send_video_packet_lem :
      (p bytes : List ℕ) (c : Client Device)
      → length p ≤ max_packet_size
      → length p ≤ length bytes
      → take (length p) bytes ≡ p
      → send_video_packet fifo polls server_addr bytes (length p) c
        ≡ ok
            (tt, record c { net = record (c.net) { sent = c.net.sent ++ ((server_addr, p) ∷ []) } })
  unfolding send_video_packet send_data
  send_video_packet_lem p bytes c size fits front =
      let short : to_short (length p) ≡ length p = ground arith in
      let enough : leb (length p) (length bytes) ≡ true = ground arith in
      rw (short, zoom, send_data, enough, front)

  pub forward_packet_lem :
      (p bytes bytes' : List ℕ) (c : Client Device) (d : Device)
      → length p ≤ max_packet_size
      → length p ≤ length bytes'
      → take (length p) bytes' ≡ p
      → read_packet fifo polls server_addr (length p) 0 bytes c ≡ ok (bytes', record c { dev = d })
      → forward_packet fifo polls server_addr (length p) bytes c
        ≡ ok (
          bytes',
          record { dev = d; net = record (c.net) { sent = c.net.sent ++ ((server_addr, p) ∷ []) } },
        )
  unfolding forward_packet
  forward_packet_lem p bytes bytes' c d size fits front done =
      let short : ltb max_packet_size (length p) ≡ false = ground arith in
      rw (short, ◌>>=◌, done, send_video_packet_lem p bytes' (record c { dev = d }) size fits front)

  -- The first frame in the FIFO is sent to the server as one packet.
  video_send_pass_lem :
      (p q bytes : List ℕ) (c : Client Device)
      → incoming c.dev ≡ frame p ++ q
      → length p ≤ max_packet_size
      → length bytes ≡ max_packet_size
      → (bytes' : List ℕ) × (c' : Client Device) × (video_send_pass fifo polls server_addr bytes c
          ≡ ok (bytes', c'))
        × (length bytes' ≡ max_packet_size)
        × (c'.net ≡ record (c.net) { sent = c.net.sent ++ ((server_addr, p) ∷ []) })
        × (incoming c'.dev ≡ q)
        × (outgoing c'.dev ≡ outgoing c.dev)
  video_send_pass_lem p q bytes c e size len =
      let (d, step, inc, out) = read_length p q bytes c e (omega arith) in
      let (bytes', d', done, len', front, inc', out') =
        read_packet_lem p q 0 bytes (record c { dev = d }) inc (omega arith) in
      (
        bytes',
        record { dev = d'; net = record (c.net) { sent = c.net.sent ++ ((server_addr, p) ∷ []) } },
        step
            ∙ forward_packet_lem p bytes bytes' (record c { dev = d }) d' size (omega arith)
                (ap (λ k. take k bytes') {x = length p} {y = 0 + length p} (omega arith) ∙ front)
                done,
        len' ∙ len,
        refl,
        inc',
        out' ∙ out,
      )

  -- For a FIFO that delivers the frames of packets of at most 2000 bytes, as many passes of the
  -- loop as there are packets end: they send the server these packets, in order and unchanged, and
  -- take exactly their frames out of the FIFO.
  pub video_send_loop_lem :
      (ps : List (List ℕ)) (q bytes : List ℕ) (c : Client Device)
      → AllFit ps
      → incoming c.dev ≡ frames ps ++ q
      → length bytes ≡ max_packet_size
      → (bytes' : List ℕ) × (c' : Client Device) × (video_send_loop fifo polls server_addr
            (length ps)
            bytes
            c
          ≡ ok (bytes', c'))
        × (c'.net ≡ record (c.net) { sent = c.net.sent ++ addressed server_addr ps })
        × (incoming c'.dev ≡ q)
        × (outgoing c'.dev ≡ outgoing c.dev)
  unfolding video_send_loop frames
  video_send_loop_lem [] q bytes c fit e len = (
    bytes,
    c,
    refl,
    ap {B = Net} (λ l. record (c.net) { sent = l }) (sym (append-nil c.net.sent)),
    e,
    refl,
  )
  video_send_loop_lem (p ∷ ps) q bytes c (size, fit) e len =
      let (bytes1, c1, step, len1, net, inc, out) =
        video_send_pass_lem p (frames ps ++ q) bytes c (e ∙ append_assoc (frame p) (frames ps) q)
          size len in
      let (bytes', c', done, net', inc', out') = video_send_loop_lem ps q bytes1 c1 fit inc len1 in
      (
        bytes',
        c',
        >>=_step (video_send_pass fifo polls server_addr bytes)
              (video_send_loop fifo polls server_addr (length ps)) c step
            ∙ done,
        net'
            ∙ ap {A = Net} {B = Net} (λ n. record n { sent = n.sent ++ addressed server_addr ps })
                net
            ∙ ap {B = Net} (λ l. record (c.net) { sent = l })
                (append_assoc c.net.sent ((server_addr, p) ∷ []) (addressed server_addr ps)),
        inc',
        out' ∙ out,
      )
