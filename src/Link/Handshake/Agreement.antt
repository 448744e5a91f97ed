-- ===== src/Link/Handshake/Agreement.antt =====
-- What the client may conclude when its greeting ends.
use fagprojekt.Base.{
  ℕ, ◌≡◌, ◌⊎◌, inl, inr, refl, sym, ap, subst, ◌∙◌, Bool, true, false, List, [], ◌∷◌, Outcome, take,
  ◌++◌, ok, arith, All, All-append, All-pick, All-insert, All-map,
}
use fagprojekt.Connection.{SockAddr, addr_match, code, init, init_ack}
use fagprojekt.Server.State.{ConnectionStatus, Server}
use fagprojekt.Client.{accepted}
use fagprojekt.Link.Handshake.{
  Datagram, posted, streaming, Session, after_test, ServerStep, wait_pass, video_pass, ClientStep,
  call, miss, hear, stream, NetStep, lose, repeat, intrude, serve, greet, carry, Run, here, next,
  Start, Met,
}
use fagprojekt.Link.Handshake.Passes.{
  wait_cases, video_quiet, miss_same, hear_lem, call_sent, stream_sent, accepted_match,
}

module _ (server_addr client_addr : SockAddr)
    (apart : addr_match client_addr server_addr ≡ false) where
  -- A datagram with the client's address as its source has it whole, and one from the server to the
  -- client is there only when they have met.
  abbrev pub Honest : Server → Datagram → Type 0
  Honest s d =
      ((addr_match d.src client_addr ≡ false) ⊎ (d.src ≡ client_addr))
      × ((addr_match d.src server_addr ≡ false)
          ⊎ (addr_match d.dst client_addr ≡ false)
          ⊎ Met client_addr s)

  pub record Inv (s : Session) : Type 0 where
    pub honest : All (Honest s.server) s.flight
    pub met : (s.place ≡ streaming → Met client_addr s.server)
    pub unanswered : (s.place ≡ streaming) ⊎ (accepted server_addr s.greeter ≡ ok false)

  server_is_other : addr_match server_addr client_addr ≡ false
  unfolding addr_match
  server_is_other = ground (arith, apart)

  stays-Honest :
      (s t : Server) (d : Datagram)
      → (Met client_addr s → Met client_addr t)
      → Honest s d
      → Honest t d
  stays-Honest s t d stays (own, inl other) = (own, inl other)
  stays-Honest s t d stays (own, inr (inl away)) = (own, inr (inl away))
  stays-Honest s t d stays (own, inr (inr m)) = (own, inr (inr (stays m)))

  -- What was honest stays so while the server stays met.
  Honest-after :
      (s t : Server) (ds : List Datagram)
      → (Met client_addr s → Met client_addr t)
      → All (Honest s) ds
      → All (Honest t) ds
  Honest-after s t ds stays h = All-map (Honest s) (Honest t) ds (λ d. stays-Honest s t d stays) h

  -- What the client sends.
  own-Honest :
      (s : Server) (dst : SockAddr) (p : List ℕ)
      → Honest s (record { src = client_addr; dst = dst; bytes = p })
  own-Honest s dst p = (inr refl, inl apart)

  pub unmet : (s : Server) → s.status ≡ ConnectionStatus.waiting_init → Met client_addr s → ⊥
  unmet s w (m, _) = cc

  -- The answer of the server.
  answer-Honest :
      (s t : Server) (d : Datagram) (p : List ℕ)
      → Honest s d
      → t.status ≡ ConnectionStatus.recv_video
      → t.client ≡ d.src
      → Honest t (record { src = server_addr; dst = d.src; bytes = p })
  answer-Honest s t d p (inl other, _) status client = (inl server_is_other, inr (inl other))
  answer-Honest s t d p (inr own, _) status client =
      (inl server_is_other, inr (inr (status, client ∙ own)))

  ServerStep-Inv : {s t : Session} → ServerStep server_addr client_addr s t → Inv s → Inv t
  ServerStep-Inv {s} (wait_pass before after d bytes t e to waits done) inv =
      let (of_d, others) =
        All-pick (Honest s.server) before after d (subst (All (Honest s.server)) e inv.honest) in
      let kept =
        Honest-after s.server t (before ++ after) (λ m. absurd (unmet s.server waits m)) others in
      record {
        honest = elim (wait_cases s.bytes bytes d s.server t done) [
          | inl (silent, _) ↦
              All-append (Honest t) (before ++ after) (posted server_addr t.net.sent) kept
                (rw silent tt)
          | inr (sent, status, client) ↦
              All-append (Honest t) (before ++ after) (posted server_addr t.net.sent) kept
                (rw sent (answer-Honest s.server t d (code init_ack ∷ []) of_d status client, tt))
        ];
        met = λ p. absurd (unmet s.server waits (inv.met p));
        unanswered = inv.unanswered;
      }
  ServerStep-Inv {s} (video_pass before after d r t e to receives done) inv =
      let (of_d, others) =
        All-pick (Honest s.server) before after d (subst (All (Honest s.server)) e inv.honest) in
      let (silent, status, client) = video_quiet s.receiver r d s.server t done in
      let stays : Met client_addr s.server → Met client_addr t =
        λ m. (status ∙ m.0, client ∙ m.1) in
      record {
        honest =
            All-append (Honest t) (before ++ after) (posted server_addr t.net.sent)
              (Honest-after s.server t (before ++ after) stays others) (rw silent tt);
        met = λ p. stays (inv.met p);
        unanswered = inv.unanswered;
      }

  -- The client's place after a test over a datagram of `d`'s source.
  heard-Met :
      (s : Server) (d : Datagram) (done : Bool)
      → Honest s d
      → addr_match d.dst client_addr ≡ true
      → (done ≡ true → addr_match d.src server_addr ≡ true)
      → after_test done ≡ streaming
      → Met client_addr s
  heard-Met s d true (own, inl other) to match p = absurd (cc (other, match refl))
  heard-Met s d true (own, inr (inl away)) to match p = absurd (cc)
  heard-Met s d true (own, inr (inr m)) to match p = m
  heard-Met s d false h to match p = absurd (cc)

  tested :
      (g : Outcome Bool) (done : Bool)
      → g ≡ ok done
      → (after_test done ≡ streaming) ⊎ (g ≡ ok false)
  tested g true e = inl refl
  tested g false e = inr e

  ClientStep-Inv : {s t : Session} → ClientStep server_addr client_addr s t → Inv s → Inv t
  ClientStep-Inv {s} (call net at sends) inv = record {
    honest = All-append (Honest s.server) s.flight (posted client_addr net.sent) inv.honest (
        rw (call_sent server_addr net sends)
          (own-Honest s.server server_addr (code init ∷ []), tt));
    met = λ p. cc;
    unanswered = elim inv.unanswered [ inl p ↦ absurd (cc) | inr u ↦ inr u ];
  }
  ClientStep-Inv {s} (miss r net n from bytes done at waits test) inv =
      let same = miss_same s.greeter r net n from bytes waits in
      let refused : accepted server_addr s.greeter ≡ ok false = elim inv.unanswered [
        | inl p ↦ absurd (cc)
        | inr u ↦ u
      ] in
      let not_done : done ≡ false = cc in
      record {
        honest = inv.honest;
        met = λ p. absurd (cc);
        unanswered = inr (ap (accepted server_addr) same ∙ refused);
      }
  ClientStep-Inv {s} (hear before after d net n from bytes done at e to waits test) inv =
      let (of_d, others) =
        All-pick (Honest s.server) before after d (subst (All (Honest s.server)) e inv.honest) in
      let (source, _) = hear_lem s.greeter d net n from bytes waits in
      record {
        honest = others;
        met = heard-Met s.server d done of_d to (λ p.
            ap (λ a. addr_match a server_addr) (sym source)
            ∙ accepted_match server_addr from bytes (test ∙ ap ok p));
        unanswered =
            tested (accepted server_addr (record { src_addr = from; response = bytes })) done test;
      }
  ClientStep-Inv {s} (stream bytes len net at size sends) inv = record {
    honest = All-append (Honest s.server) s.flight (posted client_addr net.sent) inv.honest (
        rw (stream_sent server_addr bytes len net sends)
          (own-Honest s.server server_addr (take len bytes), tt));
    met = inv.met;
    unanswered = inv.unanswered;
  }

  NetStep-Inv : {s t : Session} → NetStep server_addr client_addr s t → Inv s → Inv t
  NetStep-Inv {s} (lose before after d e) inv = record {
    honest =
        (All-pick (Honest s.server) before after d (subst (All (Honest s.server)) e inv.honest)).1;
    met = inv.met;
    unanswered = inv.unanswered;
  }
  NetStep-Inv {s} (repeat before after d e) inv =
      let all = subst (All (Honest s.server)) e inv.honest in
      record {
        honest =
            All-insert (Honest s.server) before (d ∷ after) d
              (All-pick (Honest s.server) before after d all).0 all;
        met = inv.met;
        unanswered = inv.unanswered;
      }
  NetStep-Inv {s} (intrude d not_server not_client size) inv = record {
    honest =
        All-append (Honest s.server) s.flight (d ∷ []) inv.honest
          ((inl not_client, inl not_server), tt);
    met = inv.met;
    unanswered = inv.unanswered;
  }

  pub Run-Inv : {s t : Session} → Start server_addr s → Run server_addr client_addr s t → Inv t
  Run-Inv {s} start here = record {
    honest = rw (start.nothing) tt;
    met = λ p. absurd (cc (start.calls));
    unanswered = inr start.unanswered;
  }
  Run-Inv start (next r (serve st)) = ServerStep-Inv st (Run-Inv start r)
  Run-Inv start (next r (greet st)) = ClientStep-Inv st (Run-Inv start r)
  Run-Inv start (next r (carry st)) = NetStep-Inv st (Run-Inv start r)

  -- From a start at which the client's array and address, which the program does not set, hold nothing
  -- that passes for an answer; whatever is lost, repeated or reordered on the way, and whatever others
  -- send, as long as nobody else uses the address of the server or of the client: when the client has gone over to sending
  -- video, the server has gone over to receiving it, and has this client as its client.
  pub agreement :
      {s t : Session}
      → Start server_addr s
      → Run server_addr client_addr s t
      → t.place ≡ streaming
      → (t.server.status ≡ ConnectionStatus.recv_video) × (t.server.client ≡ client_addr)
  agreement start r p = (Run-Inv start r).met p
