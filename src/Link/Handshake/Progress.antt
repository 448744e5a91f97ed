-- ===== src/Link/Handshake/Progress.antt =====
-- That the greeting can come to its end as long as the server waits.
use fagprojekt.Base.{
  ℕ, ◌≡◌, inl, inr, refl, true, false, List, [], ◌∷◌, ◌++◌, ok, arith, some, none, drop,
}
use fagprojekt.Connection.{
  SockAddr, timed_out, addr_match, code, init, init_ack, store, recv_data_timeout, send_packet_type,
}
use fagprojekt.Server.State.{ConnectionStatus}
use fagprojekt.Server.Handshake.{wait_init_pass-init, greeted}
use fagprojekt.Client.{accepted}
use fagprojekt.Link.Handshake.{
  Datagram, hears, Place, calling, listening, streaming, Session, wait_pass, call, miss, hear,
  serve, greet, Run, here, next, Start, Met,
}
use fagprojekt.Link.Handshake.Agreement.{Inv, unmet, Run-Inv}

pub addr_match_self : (a : SockAddr) → addr_match a a ≡ true
unfolding addr_match
addr_match_self a = ground arith

accepted-answer :
    (server_addr : SockAddr) (xs : List ℕ)
    → accepted server_addr (record { src_addr = server_addr; response = code init_ack ∷ xs })
      ≡ ok true
unfolding accepted
accepted-answer server_addr xs = rw (addr_match_self server_addr) refl

module _ (server_addr client_addr : SockAddr) where
  -- INIT, as the client sends it, and the server's answer.
  abbrev pub request : Datagram
  request = record { src = client_addr; dst = server_addr; bytes = code init ∷ [] }

  abbrev pub answer : Datagram
  answer = record { src = server_addr; dst = client_addr; bytes = code init_ack ∷ [] }

  module _ {s : Session} (t : Session) (r : Run server_addr client_addr s t) where
    -- The client sends INIT.
    pub call-Run :
        t.place ≡ calling
        → Run server_addr client_addr s
            (record t { place = listening; flight = t.flight ++ (request ∷ []) })
    unfolding send_packet_type
    call-Run at = next r (greet (call _ at refl))

    -- The client gives up waiting, with no answer in its array.
    pub miss-Run :
        t.place ≡ listening
        → accepted server_addr t.greeter ≡ ok false
        → Run server_addr client_addr s (record t { place = calling })
    unfolding recv_data_timeout
    miss-Run at refused =
        next r (
          greet (miss timed_out _ none t.greeter.src_addr t.greeter.response false at refl refused))

    -- The waiting server answers the INIT that was sent last.
    pub answer-Run :
        (flight : List Datagram)
        → t.flight ≡ flight ++ (request ∷ [])
        → t.server.status ≡ ConnectionStatus.waiting_init
        → Run server_addr client_addr s (record t {
          server = greeted client_addr [] (hears request t.server);
          bytes = store (code init ∷ []) t.bytes;
          flight = (flight ++ []) ++ (answer ∷ []);
        })
    answer-Run flight e waits = next r (
        serve (
          wait_pass flight [] request _ _ e (addr_match_self server_addr) waits (
            wait_init_pass-init t.bytes (hears request t.server) client_addr (code init) [] [] refl
              refl)))

    -- The client hears the answer that was sent last.
    pub hear-Run :
        (flight : List Datagram)
        → t.flight ≡ flight ++ (answer ∷ [])
        → t.place ≡ listening
        → Run server_addr client_addr s (record t {
          place = streaming;
          greeter = record {
            src_addr = server_addr;
            response = store (code init_ack ∷ []) t.greeter.response;
          };
          flight = flight ++ [];
        })
    unfolding recv_data_timeout
    hear-Run flight e at = next r (
        greet (
          hear flight [] answer _ (some 1) server_addr _ true at e (addr_match_self client_addr)
            refl (accepted-answer server_addr (drop 1 t.greeter.response))))

  -- A client that is about to send INIT to the waiting server.
  from_calling :
      {s : Session} (t : Session)
      → Run server_addr client_addr s t
      → t.place ≡ calling
      → t.server.status ≡ ConnectionStatus.waiting_init
      → (u : Session) × Run server_addr client_addr s u
        × (u.place ≡ streaming)
        × Met client_addr u.server
  from_calling t r at waits =
      let asked = call-Run t r at in
      let answered = answer-Run _ asked t.flight refl waits in
      let heard = hear-Run _ answered (t.flight ++ []) refl refl in (_, heard, refl, (refl, refl))

  -- From a start at which the client's array and address, which the program does not set, hold nothing
  -- that passes for an answer, and as long as the server waits, the greeting can still come to its end:
  -- from every state that is reached by then, whatever was lost, repeated, reordered or sent by others, a state is reached in
  -- which the client sends video, and the server receives it and has this client as its client.
  pub progress :
      {s t : Session}
      → addr_match client_addr server_addr ≡ false
      → Start server_addr s
      → Run server_addr client_addr s t
      → t.server.status ≡ ConnectionStatus.waiting_init
      → (u : Session) × Run server_addr client_addr t u
        × (u.place ≡ streaming)
        × Met client_addr u.server
  progress {t = t} apart start r waits =
      let inv : Inv server_addr client_addr apart t =
        Run-Inv server_addr client_addr apart start r in
      from t.place refl inv
    where
      from :
          (p : Place)
          → t.place ≡ p
          → Inv server_addr client_addr apart t
          → (u : Session) × Run server_addr client_addr t u
            × (u.place ≡ streaming)
            × Met client_addr u.server
      from calling e inv = from_calling t here e waits
      from listening e inv =
          from_calling (record t { place = calling })
            (miss-Run t here e (elim inv.unanswered [ inl p ↦ absurd (cc) | inr u ↦ u ])) refl waits
      from streaming e inv = absurd (unmet server_addr client_addr apart t.server waits (inv.met e))
