-- ===== src/Server/Receive.antt =====
-- `recv_video`: which bytes the receiving loop puts into the buffer.
use fagprojekt.Base.{
  ℕ, zero, suc, ◌+◌, ◌-◌, ◌%◌, ◌^◌, ◌≤◌, ◌<◌, ◌≡◌, refl, sym, ◌∙◌, ap, false, List, [], ◌∷◌, ◌++◌,
  arith, ltb, length, append_assoc, append-nil, length-append, take-append_length, if◌then◌else◌,
  dec_lt, ok, ◌==◌, leb, drop, Bool-cases, inl, inr,
}
use fagprojekt.Process.{zoom, ◌>>=◌, >>=_step, >>=_inv}
use fagprojekt.Memory.{le16}
use fagprojekt.Buffer.{CircularBuf, get_space, fill_level}
use fagprojekt.Buffer.Invariant.{IsValid, contents}
use fagprojekt.Buffer.Contents.{get_space-contents}
use fagprojekt.Connection.{SockAddr, Arrival, datagram, max_packet_size, store, recv_data}
use fagprojekt.Connection.Laws.{recv_data-datagram}
use fagprojekt.Server.State.{Server, on_net}
use fagprojekt.Server.{
  Receiver, buffer_print_interval, send_packet_buffer, print_buffer_fill_level, keep_packet,
  recv_video_pass, recv_video,
}
use fagprojekt.Server.Packet.{frame, send_packet_buffer_lem}
use fagprojekt.Server.Frames.{admit, frames, datagrams, payloads, AllSized}

-- What a pass of the loop leaves alone.
pub record Unanswered (s s' : Server) : Type 0 where
  pub status : s'.status ≡ s.status
  pub client : s'.client ≡ s.client
  pub sent : s'.net.sent ≡ s.net.sent

keep_packet-Unanswered :
    (from : SockAddr) (bytes : List ℕ) (len num : ℕ) (s s' : Server) (r' : Receiver)
    → keep_packet from bytes len num s ≡ ok (r', s')
    → Unanswered s s' × (s'.net ≡ s.net)
unfolding keep_packet print_buffer_fill_level
keep_packet-Unanswered from bytes len num s s' r' e = ground arith

pub recv_video_pass-Unanswered :
    (r r' : Receiver) (s s' : Server) → recv_video_pass r s ≡ ok (r', s') → Unanswered s s'
unfolding recv_video_pass recv_data
recv_video_pass-Unanswered r r' s s' e = ground arith

-- Once it receives video the server sends nothing, whatever arrives: its status, its client and
-- what it has sent stay as they are through any number of passes.
pub recv_video-Unanswered :
    (passes : ℕ) (r r' : Receiver) (s s' : Server)
    → recv_video passes r s ≡ ok (r', s')
    → Unanswered s s'
unfolding recv_video
recv_video-Unanswered zero r r' s s' e = ground arith
recv_video-Unanswered (suc passes) r r' s s' e =
    let (r1, s1, first, rest) = >>=_inv (recv_video_pass r) (recv_video passes) s e in
    let a = recv_video_pass-Unanswered r r1 s s1 first in
    let b = recv_video-Unanswered passes r1 r' s1 s' rest in
    record { status = b.status ∙ a.status; client = b.client ∙ a.client; sent = b.sent ∙ a.sent }

-- What a pass does with the packet `p`.
pub record Kept (p : List ℕ) (r' : Receiver) (s s' : Server) : Type 0 where
  pub valid : IsValid s'.buffer
  pub same_max : s'.buffer.max ≡ s.buffer.max
  pub bytes : contents s'.buffer ≡ (
      if ltb (length p + 2) (get_space s.buffer)
      then contents s.buffer ++ frame p
      else contents s.buffer)
  pub num : r'.pack_num < buffer_print_interval

keep_packet_lem :
    (from : SockAddr) (bytes : List ℕ) (len num : ℕ) (s : Server) (b : CircularBuf)
    → send_packet_buffer bytes len s.buffer ≡ ok b
    → (r' : Receiver) × (s' : Server) × (keep_packet from bytes len num s ≡ ok (r', s'))
      × (s'.buffer ≡ b)
      × (s'.net ≡ s.net)
      × (r'.pack_num < buffer_print_interval)
unfolding keep_packet print_buffer_fill_level
keep_packet_lem from bytes len num s b e = elim (Bool-cases (leb buffer_print_interval (num + 1))) [
  | inl full ↦ (
    record { recv_addr = from; bytes = bytes; pack_num = 0 },
    record s { buffer = b; levels = fill_level b ∷ s.levels },
    ground arith,
    refl,
    refl,
    omega arith,
  )
  | inr more ↦ (
    record { recv_addr = from; bytes = bytes; pack_num = num + 1 },
    record s { buffer = b },
    ground arith,
    refl,
    refl,
    ground arith,
  )
]

received :
    (r : Receiver) (s : Server) (from : SockAddr) (p : List ℕ) (rest : List Arrival)
    → s.net.arrivals ≡ datagram from p ∷ rest
    → on_net (recv_data r.recv_addr r.bytes) s
      ≡ ok
          ((length p, from, store p r.bytes), record s { net = record (s.net) { arrivals = rest } })
received r s from p rest e = rw (recv_data-datagram r.recv_addr r.bytes s.net from p rest e, zoom)

pass_step :
    (r : Receiver) (s : Server) (from : SockAddr) (p : List ℕ) (rest : List Arrival)
    → s.net.arrivals ≡ datagram from p ∷ rest
    → 0 < length p
    → length p ≤ max_packet_size
    → recv_video_pass r s
      ≡ keep_packet from
          (store p r.bytes)
          (length p)
          r.pack_num
          (record s { net = record (s.net) { arrivals = rest } })
unfolding recv_video_pass
pass_step r s from p rest e pos size =
    let keeps : (length p % 2 ^ 16 == 0) ≡ false = ground arith in
    let whole : length p % 2 ^ 16 ≡ length p = omega arith in
    rw (received r s from p rest e, ◌>>=◌, keeps, whole)

-- A pass that receives the packet `p`.
pub recv_video_pass_lem :
    (r : Receiver) (s : Server) (from : SockAddr) (p : List ℕ) (rest : List Arrival)
    → s.net.arrivals ≡ datagram from p ∷ rest
    → 0 < length p
    → length p ≤ max_packet_size
    → IsValid s.buffer
    → (r' : Receiver) × (s' : Server) × (recv_video_pass r s ≡ ok (r', s'))
      × (s'.net.arrivals ≡ rest)
      × Kept p r' s s'
recv_video_pass_lem r s from p rest e pos size v =
    let bytes : List ℕ = store p r.bytes in
    let (b, sent, valid, same, what) =
      send_packet_buffer_lem bytes (length p) v pos (omega arith)
        (omega (arith, length-append p (drop (length p) r.bytes))) in
    let s1 : Server = record s { net = record (s.net) { arrivals = rest } } in
    let (r', s', done, buf, net, num) =
      keep_packet_lem from bytes (length p) r.pack_num s1 b sent in
    (
      r',
      s',
      pass_step r s from p rest e pos size ∙ done,
      ap (λ n. n.arrivals) net,
      record {
        valid = rw buf valid;
        same_max = ap (λ c. c.max) buf ∙ same;
        bytes =
            ap contents buf
            ∙ what
            ∙ ap
                (λ q.
                  if ltb (length p + 2) (get_space s.buffer)
                  then contents s.buffer ++ (le16 (length p) ++ q)
                  else contents s.buffer)
                (take-append_length p (drop (length p) r.bytes));
        num = num;
      },
    )

-- The frames of a list of packets, split at the first.
admit-cons :
    (p : List ℕ) (ps : List (List ℕ)) (r' : Receiver) (s s' : Server)
    → IsValid s.buffer
    → Kept p r' s s'
    → contents s'.buffer ++ frames (admit (get_space s'.buffer) ps)
      ≡ contents s.buffer ++ frames (admit (get_space s.buffer) (p ∷ ps))
unfolding frames admit
admit-cons p ps r' s s' v k = elim (dec_lt (length p + 2) (get_space s.buffer)) [
  | yes room ↦
      let more : contents s'.buffer ≡ contents s.buffer ++ frame p = ground (arith, k.bytes) in
      let space : get_space s'.buffer ≡ get_space s.buffer - (length p + 2) = omega (
        arith,
        get_space-contents v,
        get_space-contents k.valid,
        k.same_max,
        ap length more,
        length-append (contents s.buffer) (frame p),
      ) in
      ground (
        arith,
        more,
        space,
        append_assoc (contents s.buffer) (frame p)
            (frames (admit (get_space s.buffer - (length p + 2)) ps)),
      )
  | no full ↦
      let same : contents s'.buffer ≡ contents s.buffer = ground (arith, k.bytes) in
      let space : get_space s'.buffer ≡ get_space s.buffer =
        omega
          (arith, get_space-contents v, get_space-contents k.valid, k.same_max, ap length same) in
      ground (arith, same, space)
]

-- The receiving loop over packets that are not empty, with nothing taken out of the buffer: no pass
-- faults, and the buffer gains the frames of the packets that find room, whole and in order.
pub recv_video_lem :
    (ps : List (SockAddr × List ℕ)) (rest : List Arrival) (r : Receiver) (s : Server)
    → AllSized ps
    → s.net.arrivals ≡ datagrams ps ++ rest
    → IsValid s.buffer
    → (r' : Receiver) × (s' : Server) × (recv_video (length ps) r s ≡ ok (r', s'))
      × (s'.net.arrivals ≡ rest)
      × IsValid s'.buffer
      × (contents s'.buffer
          ≡ contents s.buffer ++ frames (admit (get_space s.buffer) (payloads ps)))
unfolding recv_video frames admit
recv_video_lem [] rest r s sized e v = (r, s, refl, e, v, sym (append-nil (contents s.buffer)))
recv_video_lem ((from, p) ∷ ps) rest r s (pos, size, sized) e v =
    let (r1, s1, step, arr, k) =
      recv_video_pass_lem r s from p (datagrams ps ++ rest) e pos size v in
    let (r', s', done, left, valid, bytes) = recv_video_lem ps rest r1 s1 sized arr k.valid in
    (
      r',
      s',
      >>=_step (recv_video_pass r) (recv_video (length ps)) s step ∙ done,
      left,
      valid,
      bytes ∙ admit-cons p (payloads ps) r1 s s1 v k,
    )
