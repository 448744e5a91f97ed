-- ===== src/Link/Running/Refinement.antt =====
-- `video_send_loop` (VideoServer/src/client.c) as a function, against its lines.
use fagprojekt.Base.{
  ℕ, zero, suc, ◌+◌, ◌≡◌, refl, sym, subst, ◌∙◌, ap, true, false, List, [], ◌∷◌, ◌++◌, ltb,
  if◌then◌else◌, ok, arith, append_assoc, append-nil, Bool-cases, inl, inr,
}
use fagprojekt.Memory.{put_at}
use fagprojekt.Process.{lift, pure, ◌>>=◌, ◌>>◌, >>=_inv}
use fagprojekt.Connection.{SockAddr, max_packet_size, send_data}
use fagprojekt.Fifo.{FifoDevice, read_fifo_blocking}
use fagprojekt.Fifo.Laws.{IsFifo}
use fagprojekt.Client.{
  Client, un16, to_short, on_fifo, send_video_packet, read_packet, forward_packet, video_send_pass,
  video_send_loop,
}
use fagprojekt.Link.Running.{
  before_low, filling, Boards, ClientLine, read_low, read_high, read_byte, send_packet,
}
use fagprojekt.Link.Running.Runs.{
  ClientRun, none, more, run_append, stays, taken_together, link_after,
}
use fagprojekt.Link.Running.Calls.{ok_inv, lift_inv, on_socket_inv, on_fifo_inv}

module _ (fifo : FifoDevice) (incoming outgoing : fifo.Device → List ℕ) (patience : ℕ)
    (laws : IsFifo fifo incoming outgoing patience) (polls : ℕ) (server_addr : SockAddr) where
  open fifo use {Device, sleep, read_rx}

  -- The packet's loop, as far as it comes.
  read_packet-lines :
      (left i len : ℕ) (s : Boards) (c c' : Client Device) (bytes : List ℕ)
      → s.pass ≡ filling len i
      → i + left ≡ len
      → s.server.out ≡ s.taken ++ incoming c.dev
      → read_packet fifo polls server_addr left i s.bytes c ≡ ok (bytes, c')
      → (taken : List ℕ) × ClientRun server_addr s
          (record s { pass = filling len len; bytes = bytes; taken = s.taken ++ taken })
        × (incoming c.dev ≡ taken ++ incoming c'.dev)
        × (c'.net ≡ c.net)
  unfolding read_packet
  read_packet-lines zero i len s c c' bytes at count link done =
      let same_bytes : s.bytes ≡ bytes = cc in
      let same_c : c ≡ c' = cc in
      let whole : i ≡ len = omega arith in
      (
        [],
        stays s (filling len len) bytes (s.taken ++ []) (at ∙ ap (filling len) whole) same_bytes
            (sym (append-nil s.taken)),
        ap (λ a. incoming a.dev) same_c,
        ap (λ a. a.net) (sym same_c),
      )
  read_packet-lines (suc left) i len s c c' bytes at count link done =
      let (x, c1, got, stored) = >>=_inv (on_fifo (read_fifo_blocking fifo polls)) _ c done in
      let (b1, c2, put, others) = >>=_inv (lift (put_at s.bytes i x)) _ c1 stored in
      let (written, same_c) = lift_inv (put_at s.bytes i x) b1 c1 c2 put in
      let (first, same_net) = on_fifo_inv fifo incoming outgoing patience laws polls c c1 x got in
      let (behind, after) = link_after s.server.out s.taken x _ _ link first in
      let inside : ltb i len ≡ true = ground (arith, count) in
      let (taken, run, rest, net) =
        read_packet-lines left (i + 1) len
          (record s { pass = filling len (i + 1); bytes = b1; taken = s.taken ++ (x ∷ []) }) c2 c'
          bytes refl (omega arith)
          (after ∙ ap (λ a. (s.taken ++ (x ∷ [])) ++ incoming a.dev) same_c) others in
      (
        x ∷ taken,
        more (read_byte len i x (incoming c1.dev) b1 at inside behind written) (
            taken_together _ (record s { pass = filling len len; bytes = bytes }) s.taken (x ∷ [])
              taken run),
        first ∙ ap (λ a. x ∷ incoming a.dev) same_c ∙ ap (λ l. x ∷ l) rest,
        net ∙ ap (λ a. a.net) (sym same_c) ∙ same_net,
      )

  -- From `s`, lines of the client lead to where a pass that left `bytes` and `c'` has come.
  Passed : Boards → Client Device → List ℕ → Client Device → Type 0
  Passed s c bytes c' =
      (taken : List ℕ) × ClientRun server_addr s
        (record s { pass = before_low; bytes = bytes; net = c'.net; taken = s.taken ++ taken })
      × (incoming c.dev ≡ taken ++ incoming c'.dev)

  skip_lines :
      (s : Boards) (c c' : Client Device) (bytes : List ℕ)
      → s.pass ≡ before_low
      → s.net ≡ c.net
      → s.bytes ≡ bytes
      → c ≡ c'
      → Passed s c bytes c'
  unfolding Passed
  skip_lines s c c' bytes at same_net same_bytes same_c = (
    [],
    subst
        (λ n.
          ClientRun server_addr s
            (record s { pass = before_low; bytes = bytes; net = n; taken = s.taken ++ [] }))
        (same_net ∙ ap (λ a. a.net) same_c)
        (stays s before_low bytes (s.taken ++ []) at same_bytes (sym (append-nil s.taken))),
    ap (λ a. incoming a.dev) same_c,
  )

  send_lines :
      (len : ℕ) (s : Boards) (c c1 c2 c' : Client Device) (b1 bytes : List ℕ)
      → s.pass ≡ filling len 0
      → s.net ≡ c.net
      → s.server.out ≡ s.taken ++ incoming c.dev
      → read_packet fifo polls server_addr len 0 s.bytes c ≡ ok (b1, c1)
      → send_video_packet fifo polls server_addr b1 len c1 ≡ ok (tt, c2)
      → b1 ≡ bytes
      → c2 ≡ c'
      → Passed s c bytes c'
  unfolding Passed send_video_packet
  send_lines len s c c1 c2 c' b1 bytes at same_net link reads goes same_bytes same_c =
      let (taken, run, rest, net) =
        read_packet-lines len 0 len s c c1 b1 at (omega arith) link reads in
      let (posts, same_dev) = on_socket_inv (send_data server_addr b1 (to_short len)) c1 c2 goes in
      let end : ltb len len ≡ false = ground arith in
      let full : Boards = record s {
        pass = filling len len;
        bytes = b1;
        taken = s.taken ++ taken;
      } in
      let line : ClientLine server_addr full (record full { pass = before_low; net = c2.net }) =
        send_packet len len c2.net refl end
          (ap (λ n. send_data server_addr b1 (to_short len) n) (same_net ∙ sym net) ∙ posts) in
      (
        taken,
        subst
            (λ b.
              ClientRun server_addr s
                (record s { pass = before_low; bytes = b; net = c'.net; taken = s.taken ++ taken }))
            same_bytes
            (subst
              (λ a.
                ClientRun server_addr s (record s {
                  pass = before_low;
                  bytes = b1;
                  net = a.net;
                  taken = s.taken ++ taken;
                }))
              same_c (run_append run (more line none))),
        rest ∙ ap (λ d. taken ++ incoming d) (sym same_dev ∙ ap (λ a. a.dev) same_c),
      )

  -- The rest of a pass, from the state `s` in which the length has been read.
  forward_packet-lines :
      (len : ℕ) (s : Boards) (c c' : Client Device) (bytes : List ℕ)
      → s.pass ≡ (if ltb max_packet_size len then before_low else filling len 0)
      → s.net ≡ c.net
      → s.server.out ≡ s.taken ++ incoming c.dev
      → forward_packet fifo polls server_addr len s.bytes c ≡ ok (bytes, c')
      → Passed s c bytes c'
  unfolding forward_packet
  forward_packet-lines len s c c' bytes at same_net link done =
      elim (Bool-cases (ltb max_packet_size len)) [
        | inl over ↦
            let skips : forward_packet fifo polls server_addr len s.bytes c ≡ ok (s.bytes, c) =
              rw (over, forward_packet) refl in
            let (same_bytes, same_c) = ok_inv s.bytes bytes c c' (sym skips ∙ done) in
            skip_lines s c c' bytes (at ∙ rw over refl) same_net same_bytes same_c
        | inr fits ↦
            let reads : forward_packet fifo polls server_addr len s.bytes c
                ≡ (read_packet fifo polls server_addr len 0 s.bytes >>= λ b.
                      send_video_packet fifo polls server_addr b len >> pure b)
                    c =
              rw (fits, forward_packet) refl in
            let (b1, c1, read, sends) =
              >>=_inv (read_packet fifo polls server_addr len 0 s.bytes) _ c (sym reads ∙ done) in
            let (u, c2, goes, last) =
              >>=_inv (send_video_packet fifo polls server_addr b1 len) (λ _. pure b1) c1 sends in
            let (same_bytes, same_c) = ok_inv b1 bytes c2 c' last in
            send_lines len s c c1 c2 c' b1 bytes (at ∙ rw fits refl) same_net link read goes
              same_bytes same_c
      ]

  video_send_pass-lines :
      (s : Boards) (c c' : Client Device) (bytes : List ℕ)
      → s.pass ≡ before_low
      → s.net ≡ c.net
      → s.server.out ≡ s.taken ++ incoming c.dev
      → video_send_pass fifo polls server_addr s.bytes c ≡ ok (bytes, c')
      → Passed s c bytes c'
  unfolding Passed video_send_pass
  video_send_pass-lines s c c' bytes at same_net link done =
      let (lo, c1, got_low, others) = >>=_inv (on_fifo (read_fifo_blocking fifo polls)) _ c done in
      let (hi, c2, got_high, forwards) =
        >>=_inv (on_fifo (read_fifo_blocking fifo polls)) _ c1 others in
      let (low, net1) = on_fifo_inv fifo incoming outgoing patience laws polls c c1 lo got_low in
      let (high, net2) = on_fifo_inv fifo incoming outgoing patience laws polls c1 c2 hi got_high in
      let (at_low, after_low) = link_after s.server.out s.taken lo _ _ link low in
      let (at_high, after_high) =
        link_after s.server.out (s.taken ++ (lo ∷ [])) hi _ _ after_low high in
      let (taken, run, rest) =
        forward_packet-lines (un16 lo hi)
          (record s {
            pass = if ltb max_packet_size (un16 lo hi) then before_low else filling (un16 lo hi) 0;
            taken = (s.taken ++ (lo ∷ [])) ++ (hi ∷ []);
          })
          c2 c' bytes refl (same_net ∙ sym net1 ∙ sym net2) after_high forwards in
      (
        lo ∷ hi ∷ taken,
        more (read_low lo (incoming c1.dev) at at_low) (
            more (read_high lo hi (incoming c2.dev) refl at_high) (
              taken_together _ (record s { pass = before_low; bytes = bytes; net = c'.net }) s.taken
                (lo ∷ []) (hi ∷ taken)
                (taken_together _ (record s { pass = before_low; bytes = bytes; net = c'.net })
                  (s.taken ++ (lo ∷ [])) (hi ∷ []) taken run))),
        low ∙ ap (λ l. lo ∷ l) high ∙ ap (λ l. lo ∷ hi ∷ l) rest,
      )

  -- Passes of `video_send_loop` over a FIFO that come to their end, whatever bytes come in: its lines,
  -- from the same array and socket over a link with the same bytes, lead to the same array and the
  -- same datagrams sent, and take from the link exactly the bytes that the passes have taken.
  pub video_send_loop-lines :
      (passes : ℕ) (s : Boards) (c c' : Client Device) (bytes : List ℕ)
      → s.pass ≡ before_low
      → s.net ≡ c.net
      → s.server.out ≡ s.taken ++ incoming c.dev
      → video_send_loop fifo polls server_addr passes s.bytes c ≡ ok (bytes, c')
      → (taken : List ℕ) × ClientRun server_addr s
          (record s { pass = before_low; bytes = bytes; net = c'.net; taken = s.taken ++ taken })
        × (incoming c.dev ≡ taken ++ incoming c'.dev)
  unfolding video_send_loop Passed
  video_send_loop-lines zero s c c' bytes at same_net link done =
      let (same_bytes, same_c) = ok_inv s.bytes bytes c c' done in
      skip_lines s c c' bytes at same_net same_bytes same_c
  video_send_loop-lines (suc passes) s c c' bytes at same_net link done =
      let (b1, c1, pass, others) =
        >>=_inv (video_send_pass fifo polls server_addr s.bytes)
          (video_send_loop fifo polls server_addr passes) c done in
      let (taken, run, rest) = video_send_pass-lines s c c1 b1 at same_net link pass in
      let (taken', run', rest') =
        video_send_loop-lines passes
          (record s { pass = before_low; bytes = b1; net = c1.net; taken = s.taken ++ taken }) c1 c'
          bytes refl refl
          (link ∙ ap (λ l. s.taken ++ l) rest ∙ sym (append_assoc s.taken taken (incoming c1.dev)))
          others in
      (
        taken ++ taken',
        taken_together _ (record s { pass = before_low; bytes = bytes; net = c'.net }) s.taken taken
            taken' (run_append run run'),
        rest ∙ ap (λ l. taken ++ l) rest' ∙ sym (append_assoc taken taken' (incoming c'.dev)),
      )
