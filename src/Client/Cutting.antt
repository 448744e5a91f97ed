-- ===== src/Client/Cutting.antt =====
-- `video_send_loop` against an independent description: how a stream of bytes is cut into packets.
use fagprojekt.Base.{
  ℕ, zero, suc, ◌+◌, ◌≤◌, ◌<◌, ◌≡◌, ◌⊎◌, refl, sym, ◌∙◌, ap, subst, true, List, [], ◌∷◌, ◌++◌,
  length, take, drop, length-take_of_le, take-append-drop, append_assoc, append-nil, arith, ok, ltb,
  leb, Option, none, some, inl, inr, if◌then◌else◌,
}
use fagprojekt.Process.{Process, ◌>>=◌, >>=_step}
use fagprojekt.Connection.{SockAddr, Net, max_packet_size}
use fagprojekt.Fifo.{FifoDevice}
use fagprojekt.Fifo.Laws.{IsFifo}
use fagprojekt.Client.{Client, un16, forward_packet, video_send_pass, video_send_loop}
use fagprojekt.Client.Stream.{addressed, read_byte, read_packet_lem, forward_packet_lem}

-- What the first two bytes announce, and the bytes behind them: a length above the largest is
-- passed over, else that many bytes are a packet. `none` if the bytes do not suffice.
unfoldable pub cut_one : List ℕ → Option (List (List ℕ) × List ℕ)
cut_one [] = none
cut_one (lo ∷ []) = none
cut_one (lo ∷ hi ∷ l) =
    if ltb max_packet_size (un16 lo hi)
    then some ([], l)
    else if leb (un16 lo hi) (length l)
    then some (take (un16 lo hi) l ∷ [], drop (un16 lo hi) l)
    else none

-- The packets that `n` passes cut off, and what is left.
unfoldable pub cut : ℕ → List ℕ → Option (List (List ℕ) × List ℕ)
unfolding cut_one
cut zero l = some ([], l)
cut (suc n) l = elim (cut_one l) [
  | none ↦ none
  | some (ps, r) ↦ elim (cut n r) [ none ↦ none | some (qs, r') ↦ some (ps ++ qs, r') ]
]

cut_one-cases :
    (lo hi : ℕ) (l : List ℕ) (ps : List (List ℕ)) (r : List ℕ)
    → cut_one (lo ∷ hi ∷ l) ≡ some (ps, r)
    → ((ltb max_packet_size (un16 lo hi) ≡ true) × (ps ≡ []) × (r ≡ l))
      ⊎ ((un16 lo hi ≤ max_packet_size)
          × (un16 lo hi ≤ length l)
          × (ps ≡ take (un16 lo hi) l ∷ [])
          × (r ≡ drop (un16 lo hi) l))
unfolding cut_one
cut_one-cases lo hi l ps r e = ground arith

cut-cons :
    (n : ℕ) (l : List ℕ) (ps : List (List ℕ)) (r : List ℕ)
    → cut (suc n) l ≡ some (ps, r)
    → (p1 : List (List ℕ)) × (r1 : List ℕ) × (p2 : List (List ℕ)) × (cut_one l ≡ some (p1, r1))
      × (cut n r1 ≡ some (p2, r))
      × (ps ≡ p1 ++ p2)
unfolding cut
cut-cons n l ps r e = ground arith

addressed-append :
    (dest : SockAddr) (ps qs : List (List ℕ))
    → addressed dest (ps ++ qs) ≡ addressed dest ps ++ addressed dest qs
addressed-append dest [] qs = refl
addressed-append dest (p ∷ ps) qs = ap (λ l. (dest, p) ∷ l) (addressed-append dest ps qs)

module _ (fifo : FifoDevice) (incoming outgoing : fifo.Device → List ℕ) (patience : ℕ)
    (laws : IsFifo fifo incoming outgoing patience) (polls : ℕ) (enough : patience < polls)
    (server_addr : SockAddr) where
  open fifo use {Device}

  -- A run that ends, after which the packets `ps` are sent and the bytes `r` are left.
  Cut : List (List ℕ) → List ℕ → Client Device → Process (Client Device) (List ℕ) → Type 0
  Cut ps r c m =
      (bytes' : List ℕ) × (c' : Client Device) × (m c ≡ ok (bytes', c'))
      × (length bytes' ≡ max_packet_size)
      × (c'.net ≡ record (c.net) { sent = c.net.sent ++ addressed server_addr ps })
      × (incoming c'.dev ≡ r)
      × (outgoing c'.dev ≡ outgoing c.dev)

  -- The two ends of a pass.
  pass_over :
      (lo hi : ℕ) (l bytes : List ℕ) (c : Client Device)
      → ltb max_packet_size (un16 lo hi) ≡ true
      → incoming c.dev ≡ l
      → length bytes ≡ max_packet_size
      → Cut [] l c (forward_packet fifo polls server_addr (un16 lo hi) bytes)
  unfolding Cut forward_packet
  pass_over lo hi l bytes c long e len = (
    bytes,
    c,
    rw long refl,
    len,
    ap {B = Net} (λ l. record (c.net) { sent = l }) (sym (append-nil c.net.sent)),
    e,
    refl,
  )

  pass_on :
      (p q bytes : List ℕ) (c : Client Device)
      → length p ≤ max_packet_size
      → incoming c.dev ≡ p ++ q
      → length bytes ≡ max_packet_size
      → Cut (p ∷ []) q c (forward_packet fifo polls server_addr (length p) bytes)
  unfolding Cut
  pass_on p q bytes c size e len =
      let (bytes', d', done, len', front, inc, out) =
        read_packet_lem fifo incoming outgoing patience laws polls enough server_addr p q 0 bytes c
          e (omega arith) in
      (
        bytes',
        record { dev = d'; net = record (c.net) { sent = c.net.sent ++ ((server_addr, p) ∷ []) } },
        forward_packet_lem fifo incoming outgoing patience laws polls enough server_addr p bytes
            bytes' c d' size (omega arith)
            (ap (λ k. take k bytes') {x = length p} {y = 0 + length p} (omega arith) ∙ front) done,
        len' ∙ len,
        refl,
        inc,
        out,
      )

  -- The first two bytes are read, and the packet that they announce is read and sent on.
  after_length :
      (lo hi : ℕ) (l : List ℕ) (ps : List (List ℕ)) (r bytes : List ℕ) (c : Client Device)
      → incoming c.dev ≡ lo ∷ hi ∷ l
      → ((d : Device)
          → incoming d ≡ l
          → Cut ps r
              (record c { dev = d })
              (forward_packet fifo polls server_addr (un16 lo hi) bytes))
      → Cut ps r c (video_send_pass fifo polls server_addr bytes)
  unfolding Cut video_send_pass
  after_length lo hi l ps r bytes c e forward =
      let (d, got, inc, out) =
        read_byte fifo incoming outgoing patience laws polls enough server_addr lo (hi ∷ l) c e in
      let (d', got', inc', out') =
        read_byte fifo incoming outgoing patience laws polls enough server_addr hi l
          (record c { dev = d }) inc in
      let (bytes', c', done, len, net, left, out'') = forward d' inc' in
      (bytes', c', rw (got, ◌>>=◌, got') done, len, net, left, out'' ∙ out' ∙ out)

  take_all :
      (n : ℕ) (l bytes : List ℕ) (c : Client Device)
      → n ≤ max_packet_size
      → n ≤ length l
      → incoming c.dev ≡ l
      → length bytes ≡ max_packet_size
      → Cut (take n l ∷ []) (drop n l) c (forward_packet fifo polls server_addr n bytes)
  take_all n l bytes c size there e len =
      subst (λ k. Cut (take n l ∷ []) (drop n l) c (forward_packet fifo polls server_addr k bytes))
        (length-take_of_le n l there)
        (pass_on (take n l) (drop n l) bytes c (omega (arith, length-take_of_le n l there))
          (e ∙ sym (take-append-drop n l)) len)

  video_send_pass-cut_one :
      (q : List ℕ) (ps : List (List ℕ)) (r bytes : List ℕ) (c : Client Device)
      → cut_one q ≡ some (ps, r)
      → incoming c.dev ≡ q
      → length bytes ≡ max_packet_size
      → Cut ps r c (video_send_pass fifo polls server_addr bytes)
  unfolding cut_one
  video_send_pass-cut_one [] ps r bytes c cuts e len = absurd (cc)
  video_send_pass-cut_one (lo ∷ []) ps r bytes c cuts e len = absurd (cc)
  video_send_pass-cut_one (lo ∷ hi ∷ l) ps r bytes c cuts e len =
      after_length lo hi l ps r bytes c e (λ d inc. elim (cut_one-cases lo hi l ps r cuts) [
        | inl (long, none_sent, rest) ↦
            rw (none_sent, rest) (pass_over lo hi l bytes (record c { dev = d }) long inc len)
        | inr (size, there, one_sent, rest) ↦
            rw (one_sent, rest)
              (take_all (un16 lo hi) l bytes (record c { dev = d }) size there inc len)
      ])

  cut-zero :
      (ps : List (List ℕ)) (r bytes : List ℕ) (c : Client Device)
      → cut 0 (incoming c.dev) ≡ some (ps, r)
      → length bytes ≡ max_packet_size
      → Cut ps r c (video_send_loop fifo polls server_addr 0 bytes)
  unfolding Cut cut video_send_loop
  cut-zero ps r bytes c e len = (
    bytes,
    c,
    refl,
    len,
    ap {B = Net} (λ l. record (c.net) { sent = l })
        (sym (append-nil c.net.sent)
          ∙ ap (λ l. c.net.sent ++ addressed server_addr l) {x = []} {y = ps} (cc e)),
    cc e,
    refl,
  )

  -- Whatever bytes come in, lengths above 2000 among them: where the description cuts packets off
  -- the stream in `n` passes, as many passes of the loop end, send the server exactly these packets,
  -- in order, and leave the bytes that the description leaves.
  pub video_send_loop-cut :
      (n : ℕ) (ps : List (List ℕ)) (r bytes : List ℕ) (c : Client Device)
      → cut n (incoming c.dev) ≡ some (ps, r)
      → length bytes ≡ max_packet_size
      → (bytes' : List ℕ) × (c' : Client Device) × (video_send_loop fifo polls server_addr n bytes c
          ≡ ok (bytes', c'))
        × (length bytes' ≡ max_packet_size)
        × (c'.net ≡ record (c.net) { sent = c.net.sent ++ addressed server_addr ps })
        × (incoming c'.dev ≡ r)
        × (outgoing c'.dev ≡ outgoing c.dev)
  unfolding video_send_loop Cut
  video_send_loop-cut zero ps r bytes c cuts len = cut-zero ps r bytes c cuts len
  video_send_loop-cut (suc n) ps r bytes c cuts len =
      let (p1, r1, p2, first, more, all) = cut-cons n (incoming c.dev) ps r cuts in
      let (bytes1, c1, step, len1, net1, inc1, out1) =
        video_send_pass-cut_one (incoming c.dev) p1 r1 bytes c first refl len in
      let (bytes', c', done, len', net', inc', out') =
        video_send_loop-cut n p2 r bytes1 c1 (ap (cut n) inc1 ∙ more) len1 in
      (
        bytes',
        c',
        >>=_step (video_send_pass fifo polls server_addr bytes)
              (video_send_loop fifo polls server_addr n) c step
            ∙ done,
        len',
        net'
            ∙ ap {A = Net} {B = Net} (λ t. record t { sent = t.sent ++ addressed server_addr p2 })
                net1
            ∙ ap {B = Net} (λ l. record (c.net) { sent = l })
                (append_assoc c.net.sent (addressed server_addr p1) (addressed server_addr p2)
                  ∙ ap (λ l. c.net.sent ++ l)
                      (sym (addressed-append server_addr p1 p2)
                        ∙ ap (addressed server_addr) (sym all))),
        inc',
        out' ∙ out1,
      )
