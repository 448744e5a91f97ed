-- ===== src/Link/Handshake/Repeated.antt =====
-- What comes of an INIT that the client has sent again.
use fagprojekt.Base.{
  ℕ, ◌+◌, ◌<◌, ◌≡◌, refl, ap, ◌∙◌, true, List, [], ◌∷◌, ◌++◌, length, arith, ltb, if◌then◌else◌,
}
use fagprojekt.Buffer.{CircularBuf, get_space}
use fagprojekt.Buffer.Invariant.{IsValid, contents}
use fagprojekt.Buffer.Contents.{get_space-contents}
use fagprojekt.Connection.{SockAddr, code, init, send_packet_type}
use fagprojekt.Server.Packet.{frame}
use fagprojekt.Server.Receive.{recv_video_pass_lem}
use fagprojekt.Server.State.{ConnectionStatus, Server}
use fagprojekt.Server.Handshake.{greeted}
use fagprojekt.Link.Handshake.{
  Datagram, hears, calling, streaming, Session, ServerStep, ClientStep, call, video_pass, Run, here,
  Start, Met,
}
use fagprojekt.Link.Handshake.Progress.{
  request, addr_match_self, call-Run, miss-Run, answer-Run, hear-Run,
}

first_frame :
    (b b' : CircularBuf) (p : List ℕ)
    → IsValid b
    → contents b ≡ []
    → length p + 2 < b.max
    → contents b' ≡ (if ltb (length p + 2) (get_space b) then contents b ++ frame p else contents b)
    → contents b' ≡ frame p
first_frame b b' p v e room kept =
    let space : get_space b ≡ b.max = omega (arith, get_space-contents v, ap length e) in
    let fits : ltb (length p + 2) (get_space b) ≡ true = ground (arith, space) in
    kept ∙ rw (fits, e) refl

module _ (server_addr client_addr : SockAddr) where
  -- `t` is the client's second INIT sent: with the first one still on its way to the waiting server,
  -- the client steps from `calling` to `t`, in which two are on their way.
  abbrev pub CalledAgain : Session → Session → Type 0
  CalledAgain s t =
      (s.place ≡ calling)
      × (s.server.status ≡ ConnectionStatus.waiting_init)
      × (s.flight ≡ request server_addr client_addr ∷ [])
      × ClientStep server_addr client_addr s t
      × (t.flight ≡ request server_addr client_addr ∷ request server_addr client_addr ∷ [])

  -- From every start, at which nothing in the client's array and address passes for an answer, with an
  -- empty buffer of more than three bytes: it is possible that the client sends INIT a second time
  -- while its first is still on its way, that one of the two is answered, so that the client goes over
  -- to sending video and the server to receiving it, with nothing in its buffer and nothing but the
  -- other INIT on its way, and that the server's next step puts this INIT into the buffer, as a packet
  -- of one byte.
  pub repeated_init :
      (s : Session)
      → Start server_addr s
      → IsValid s.server.buffer
      → contents s.server.buffer ≡ []
      → 3 < s.server.buffer.max
      → (missed again heard t : Session) × Run server_addr client_addr s missed
        × CalledAgain missed again
        × Run server_addr client_addr again heard
        × (heard.place ≡ streaming)
        × Met client_addr heard.server
        × (contents heard.server.buffer ≡ [])
        × (heard.flight ≡ request server_addr client_addr ∷ [])
        × ServerStep server_addr client_addr heard t
        × (contents t.server.buffer ≡ frame (code init ∷ []))
  unfolding send_packet_type
  repeated_init s start v e room =
      let called = call-Run server_addr client_addr s here (start.calls) in
      let missed = miss-Run server_addr client_addr _ called refl start.unanswered in
      let one : s.flight ++ (request server_addr client_addr ∷ [])
          ≡ request server_addr client_addr ∷ [] =
        ap (λ f. f ++ (request server_addr client_addr ∷ [])) start.nothing in
      let asked : Datagram = request server_addr client_addr in
      let server : Server = greeted client_addr [] (hears asked s.server) in
      let left = ap (λ f. ((f ++ (asked ∷ [])) ++ []) ++ []) start.nothing in
      let (r, t, passed, _, kept) =
        recv_video_pass_lem s.receiver (hears asked server) client_addr (code init ∷ []) [] refl
          (omega arith) (omega arith) v in
      let answered = answer-Run server_addr client_addr _ here _ refl start.waits in
      let heard = hear-Run server_addr client_addr _ answered _ refl refl in
      (
        _,
        _,
        _,
        _,
        missed,
        (refl, start.waits, one, call _ refl refl, ap (λ f. f ++ (asked ∷ [])) one),
        heard,
        refl,
        (refl, refl),
        e,
        left,
        video_pass [] [] asked r t left (addr_match_self server_addr) refl passed,
        first_frame s.server.buffer t.buffer (code init ∷ []) v e room kept.bytes,
      )
