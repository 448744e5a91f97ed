-- ===== src/Link/Running/Alone.antt =====
-- What the client (VideoServer/src/client.c) can do while the server rests.
use fagprojekt.Base.{
  ℕ, ◌≤◌, ◌<◌, ◌≡◌, refl, sym, subst, ◌∙◌, ap, true, false, List, [], ◌∷◌, ◌++◌, length, take, ltb,
  leb, ok, arith, length-append, dec_lt,
}
use fagprojekt.Memory.{put_at_lem}
use fagprojekt.Buffer.{CircularBuf}
use fagprojekt.Connection.{SockAddr, Net, max_packet_size, send_data}
use fagprojekt.Client.{to_short}
use fagprojekt.Link.Running.{
  Pass, before_low, before_high, filling, Boards, read_low, read_high, read_byte, send_packet,
  client_line, BoardsReach, later,
}
use fagprojekt.Link.Running.Partial.{InArray}
use fagprojekt.Link.Running.Runs.{ClientRun, none, more}
use fagprojekt.Link.Running.Stream.{ClientLine-server}
use fagprojekt.Link.Running.Behind.{Unfinished}

module _ (server_addr : SockAddr) where
  pub ClientRun-server : {s t : Boards} → ClientRun server_addr s t → s.server ≡ t.server
  ClientRun-server none = refl
  ClientRun-server (more l r) = ClientLine-server server_addr l ∙ ClientRun-server r

  pub BoardsReach-ClientRun :
      {b : CircularBuf} {bytes : List ℕ} {net : Net} {s t : Boards}
      → BoardsReach server_addr b bytes net s
      → ClientRun server_addr s t
      → BoardsReach server_addr b bytes net t
  BoardsReach-ClientRun r none = r
  BoardsReach-ClientRun r (more l run) = BoardsReach-ClientRun (later r (client_line l)) run

  send_defined :
      (bytes : List ℕ) (i : ℕ) (net : Net)
      → i ≤ length bytes
      → length bytes ≡ max_packet_size
      → (net' : Net) × (send_data server_addr bytes (to_short i) net ≡ ok (tt, net'))
  unfolding send_data
  send_defined bytes i net inside size =
      let fits : leb (to_short i) (length bytes) ≡ true = ground arith in
      (
        record net { sent = net.sent ++ ((server_addr, take (to_short i) bytes) ∷ []) },
        rw fits refl,
      )

  -- With a whole packet read, the client sends it.
  pub flush :
      (s : Boards)
      → InArray s.pass s.bytes
      → length s.bytes ≡ max_packet_size
      → (t : Boards) × ClientRun server_addr s t × (t.taken ≡ s.taken) × Unfinished t.pass
  flush s inside size = by_pass s.pass refl
    where
      by_pass :
          (w : Pass)
          → s.pass ≡ w
          → (t : Boards) × ClientRun server_addr s t × (t.taken ≡ s.taken) × Unfinished t.pass
      by_pass before_low e = (s, none, refl, subst Unfinished (sym e) tt)
      by_pass (before_high lo) e = (s, none, refl, subst Unfinished (sym e) tt)
      by_pass (filling len i) e = elim (dec_lt i len) [
        | yes short ↦ (s, none, refl, subst Unfinished (sym e) short)
        | no whole ↦
            let (most, small) = subst (λ w. InArray w s.bytes) e inside in
            let (net, sends) = send_defined s.bytes i s.net (omega arith) size in
            let all : ltb i len ≡ false = ground (arith, whole) in
            (
              record s { pass = before_low; net = net },
              more (send_packet len i net e all sends) none,
              refl,
              tt,
            )
      ]

  -- With nothing left to send, the client takes the next byte.
  pub advance :
      (s : Boards) (x : ℕ) (rest : List ℕ)
      → Unfinished s.pass
      → InArray s.pass s.bytes
      → s.server.out ≡ s.taken ++ (x ∷ rest)
      → (t : Boards) × ClientRun server_addr s t × (t.taken ≡ s.taken ++ (x ∷ []))
  advance s x rest short inside link = by_pass s.pass refl
    where
      by_pass :
          (w : Pass)
          → s.pass ≡ w
          → (t : Boards) × ClientRun server_addr s t × (t.taken ≡ s.taken ++ (x ∷ []))
      by_pass before_low e = (_, more (read_low x rest e link) none, refl)
      by_pass (before_high lo) e = (_, more (read_high lo x rest e link) none, refl)
      by_pass (filling len i) e =
          let (most, small) = subst (λ w. InArray w s.bytes) e inside in
          let below : i < len = subst Unfinished e short in
          let some_left : ltb i len ≡ true = ground arith in
          (
            _,
            more (read_byte len i x rest _ e some_left link (put_at_lem s.bytes i x (omega arith)))
                none,
            refl,
          )

  -- A byte is written that is not taken.
  pub next_in_link :
      (out taken rest : List ℕ)
      → out ≡ taken ++ rest
      → length taken < length out
      → (x : ℕ) × (rest' : List ℕ) × (out ≡ taken ++ (x ∷ rest'))
  next_in_link out taken [] link behind =
      absurd (omega (arith, ap length link, length-append taken []))
  next_in_link out taken (x ∷ rest) link behind = (x, rest, link)
