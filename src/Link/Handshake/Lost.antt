-- ===== src/Link/Handshake/Lost.antt =====
-- What comes of the greeting when the server's answer is lost.
use fagprojekt.Base.{
  ℕ, ◌≡◌, ◌≢◌, ◌⊎◌, inl, inr, refl, ap, subst, ◌∙◌, Bool, true, false, List, [], ◌∷◌, ◌++◌, ok, All,
  All-append, All-pick, All-insert,
}
use fagprojekt.Connection.{SockAddr, addr_match}
use fagprojekt.Server.State.{ConnectionStatus}
use fagprojekt.Client.{accepted}
use fagprojekt.Link.Handshake.{
  Datagram, posted, streaming, Session, ServerStep, wait_pass, video_pass, ClientStep, call, miss,
  hear, stream, NetStep, lose, repeat, intrude, serve, greet, carry, Run, here, next,
}
use fagprojekt.Link.Handshake.Passes.{video_quiet, miss_same, hear_lem, call_sent, accepted_match}

module _ (server_addr client_addr : SockAddr) where
  -- No datagram from the server to the client.
  abbrev pub NoAnswer : Datagram → Type 0
  NoAnswer d = (addr_match d.src server_addr ≡ false) ⊎ (addr_match d.dst client_addr ≡ false)

  -- The server receives video, nothing of it is on its way to the client, and the client has no
  -- answer.
  pub record Gone (s : Session) : Type 0 where
    pub receives : s.server.status ≡ ConnectionStatus.recv_video
    pub lost : All NoAnswer s.flight
    pub greets : s.place ≢ streaming
    pub unanswered : accepted server_addr s.greeter ≡ ok false

  ServerStep-Gone : {s t : Session} → ServerStep server_addr client_addr s t → Gone s → Gone t
  ServerStep-Gone {s} (wait_pass before after d bytes t e to waits done) g =
      absurd (cc (g.receives))
  ServerStep-Gone {s} (video_pass before after d r t e to receives done) g =
      let (silent, status, client) = video_quiet s.receiver r d s.server t done in
      record {
        receives = status ∙ g.receives;
        lost =
            All-append NoAnswer (before ++ after) (posted server_addr t.net.sent)
              (All-pick NoAnswer before after d (subst (All NoAnswer) e g.lost)).1 (rw silent tt);
        greets = g.greets;
        unanswered = g.unanswered;
      }

  unaccepted :
      (d : Datagram) (from : SockAddr) (bytes : List ℕ) (done : Bool)
      → NoAnswer d
      → addr_match d.dst client_addr ≡ true
      → from ≡ d.src
      → accepted server_addr (record { src_addr = from; response = bytes }) ≡ ok done
      → done ≡ false
  unaccepted d from bytes false h to source test = refl
  unaccepted d from bytes true (inl other) to source test =
      let match = accepted_match server_addr from bytes test in
      absurd (cc (ap (λ a. addr_match a server_addr) source))
  unaccepted d from bytes true (inr away) to source test = absurd (cc)

  module _ (apart : addr_match client_addr server_addr ≡ false) where
    ClientStep-Gone : {s t : Session} → ClientStep server_addr client_addr s t → Gone s → Gone t
    ClientStep-Gone {s} (call net at sends) g = record {
      receives = g.receives;
      lost =
          All-append NoAnswer s.flight (posted client_addr net.sent) g.lost
            (rw (call_sent server_addr net sends) (inl apart, tt));
      greets = λ p. cc;
      unanswered = g.unanswered;
    }
    ClientStep-Gone {s} (miss r net n from bytes done at waits test) g =
        let refused =
          ap (accepted server_addr) (miss_same s.greeter r net n from bytes waits) ∙ g.unanswered in
        let not_done : done ≡ false = cc in
        record { receives = g.receives; lost = g.lost; greets = λ p. cc; unanswered = refused }
    ClientStep-Gone {s} (hear before after d net n from bytes done at e to waits test) g =
        let (of_d, others) = All-pick NoAnswer before after d (subst (All NoAnswer) e g.lost) in
        let (source, _) = hear_lem s.greeter d net n from bytes waits in
        let not_done : done ≡ false = unaccepted d from bytes done of_d to source test in
        record {
          receives = g.receives;
          lost = others;
          greets = λ p. cc;
          unanswered = test ∙ ap ok not_done;
        }
    ClientStep-Gone {s} (stream bytes len net at size sends) g = absurd (g.greets at)

    NetStep-Gone : {s t : Session} → NetStep server_addr client_addr s t → Gone s → Gone t
    NetStep-Gone {s} (lose before after d e) g = record {
      receives = g.receives;
      lost = (All-pick NoAnswer before after d (subst (All NoAnswer) e g.lost)).1;
      greets = g.greets;
      unanswered = g.unanswered;
    }
    NetStep-Gone {s} (repeat before after d e) g =
        let all = subst (All NoAnswer) e g.lost in
        record {
          receives = g.receives;
          lost =
              All-insert NoAnswer before (d ∷ after) d (All-pick NoAnswer before after d all).0 all;
          greets = g.greets;
          unanswered = g.unanswered;
        }
    NetStep-Gone {s} (intrude d not_server not_client size) g = record {
      receives = g.receives;
      lost = All-append NoAnswer s.flight (d ∷ []) g.lost (inl not_server, tt);
      greets = g.greets;
      unanswered = g.unanswered;
    }

    -- When the server has gone over to receiving video, none of its datagrams is on its way to the
    -- client, and the client still greets with no answer in its array: whatever comes then, this
    -- stays so, and the client never goes over to sending video.
    pub lost_answer : {s t : Session} → Gone s → Run server_addr client_addr s t → Gone t
    lost_answer g here = g
    lost_answer g (next r (serve st)) = ServerStep-Gone st (lost_answer g r)
    lost_answer g (next r (greet st)) = ClientStep-Gone st (lost_answer g r)
    lost_answer g (next r (carry st)) = NetStep-Gone st (lost_answer g r)
