-- ===== src/Client/Greeting.antt =====
-- The greeting in `run_client`: INIT is sent again until the server's INIT_ACK has come.
use fagprojekt.Base.{
  ℕ, zero, suc, ◌+◌, ◌<◌, ◌≡◌, ◌≢◌, ◌⊎◌, refl, sym, ◌∙◌, ap, true, false, List, [], ◌∷◌, ◌++◌,
  length, drop, replicate, arith, Outcome, ok, append_assoc,
}
use fagprojekt.Process.{◌>>=◌}
use fagprojekt.Connection.{
  SockAddr, Net, Arrival, failed, datagram, PollResult, ready, timed_out, poll_failed, store, code,
  init, init_ack, recv_data_timeout, send_packet_type,
}
use fagprojekt.Client.{Greeter, accepted, greet_pass, greet}

-- What a wait for the answer may come to: a timeout, a failure of `poll` or of `recvfrom`, or a
-- datagram.
pub data Reply : Type 0 where
  silence no_poll no_recv : Reply
  packet : SockAddr → List ℕ → Reply

abbrev pub polls_of : List Reply → List PollResult → List PollResult
polls_of [] rest = rest
polls_of (silence ∷ rs) rest = timed_out ∷ polls_of rs rest
polls_of (no_poll ∷ rs) rest = poll_failed ∷ polls_of rs rest
polls_of (no_recv ∷ rs) rest = ready ∷ polls_of rs rest
polls_of (packet from p ∷ rs) rest = ready ∷ polls_of rs rest

abbrev pub arrivals_of : List Reply → List Arrival → List Arrival
arrivals_of [] rest = rest
arrivals_of (silence ∷ rs) rest = arrivals_of rs rest
arrivals_of (no_poll ∷ rs) rest = arrivals_of rs rest
arrivals_of (no_recv ∷ rs) rest = failed ∷ arrivals_of rs rest
arrivals_of (packet from p ∷ rs) rest = datagram from p ∷ arrivals_of rs rest

-- The variables after a reply.
abbrev after : Greeter → Reply → Greeter
after g silence = g
after g no_poll = g
after g no_recv = g
after g (packet from p) = record { src_addr = from; response = store p g.response }

module _ (server_addr : SockAddr) where
  -- A packet with first byte `x` that is no INIT_ACK of the server.
  abbrev pub Other : SockAddr → ℕ → Type 0
  Other from x =
      (from.addr ≢ server_addr.addr) ⊎ (from.port ≢ server_addr.port) ⊎ (x ≢ code init_ack)

  -- Replies among which there is no INIT_ACK of the server, and no datagram that is empty.
  abbrev pub AllOther : List Reply → Type 0
  AllOther [] = Unit
  AllOther (packet from [] ∷ rs) = ⊥
  AllOther (packet from (x ∷ p) ∷ rs) = Other from x × AllOther rs
  AllOther (_ ∷ rs) = AllOther rs

  -- The array for the answer holds something that does not pass for an INIT_ACK of the server.
  abbrev pub Waiting : Greeter → Type 0
  Waiting g = (x : ℕ) × (xs : List ℕ) × (g.response ≡ x ∷ xs) × Other g.src_addr x

  accepted-Other :
      (g : Greeter) (x : ℕ) (xs : List ℕ)
      → g.response ≡ x ∷ xs
      → Other g.src_addr x
      → accepted server_addr g ≡ ok false
  unfolding accepted
  accepted-Other g x xs e o = ground (arith, e)

  accepted-ack :
      (g : Greeter) (xs : List ℕ)
      → g.response ≡ code init_ack ∷ xs
      → g.src_addr.addr ≡ server_addr.addr
      → g.src_addr.port ≡ server_addr.port
      → accepted server_addr g ≡ ok true
  unfolding accepted
  accepted-ack g xs e a p = ground (arith, e)

  abbrev pub asked : ℕ → List (SockAddr × List ℕ)
  asked n = replicate n (server_addr, code init ∷ [])

  append-asked :
      (before : List (SockAddr × List ℕ)) (n k : ℕ)
      → k ≡ suc n
      → before ++ asked 1 ++ asked n ≡ before ++ asked k
  append-asked before n k e =
      append_assoc before (asked 1) (asked n) ∙ ap (λ j. before ++ asked j) (sym e)

  greet_pass_lem :
      (g : Greeter) (r : Reply) (rs : List Reply) (ps : List PollResult) (rest : List Arrival)
      (net : Net)
      → net.polls ≡ polls_of (r ∷ rs) ps
      → net.arrivals ≡ arrivals_of (r ∷ rs) rest
      → greet_pass server_addr g net
        ≡ ok (
          after g r,
          record {
            polls = polls_of rs ps;
            arrivals = arrivals_of rs rest;
            sent = net.sent ++ asked 1;
          },
        )
  unfolding greet_pass recv_data_timeout send_packet_type
  greet_pass_lem g silence rs ps rest net p a = ground (arith, p, a)
  greet_pass_lem g r rs ps rest net p a = ground (arith, p, a)

  greet-step :
      (fuel : ℕ) (g : Greeter) (net : Net) {g' : Greeter} {net' : Net}
      → greet_pass server_addr g net ≡ ok (g', net')
      → accepted server_addr g' ≡ ok false
      → greet server_addr (suc fuel) g net ≡ greet server_addr fuel g' net'
  unfolding greet
  greet-step fuel g net step refused = rw (step, ◌>>=◌, refused)

  greet-last :
      (fuel : ℕ) (g : Greeter) (net : Net) {g' : Greeter} {net' : Net}
      → greet_pass server_addr g net ≡ ok (g', net')
      → accepted server_addr g' ≡ ok true
      → greet server_addr (suc fuel) g net ≡ ok (tt, net')
  unfolding greet
  greet-last fuel g net step ack = rw (step, ◌>>=◌, ack)

  -- A reply that is no INIT_ACK leaves the client waiting.
  after-Waiting :
      (g : Greeter) (r : Reply) (rs : List Reply)
      → Waiting g
      → AllOther (r ∷ rs)
      → Waiting (after g r) × AllOther rs
  after-Waiting g silence rs w o = (w, o)
  after-Waiting g (packet from []) rs w o = elim o [ ]
  after-Waiting g (packet from (x ∷ p)) rs w (o, os) =
      ((x, p ++ drop (suc (length p)) g.response, refl, o), os)
  after-Waiting g no_poll rs w o = (w, o)
  after-Waiting g no_recv rs w o = (w, o)

  -- Started with nothing in the array that passes for an answer, the greeting goes through any
  -- timeouts, failures and other packets that are not empty, and ends with the first INIT_ACK from
  -- the server's address and port: it has sent INIT once for each reply and once for the last, and
  -- nothing else, and what comes behind the INIT_ACK is left.
  pub greet_lem :
      (rs : List Reply) (from : SockAddr) (q : List ℕ) (ps : List PollResult) (rest : List Arrival)
      (fuel : ℕ) (g : Greeter) (net : Net)
      → Waiting g
      → AllOther rs
      → from.addr ≡ server_addr.addr
      → from.port ≡ server_addr.port
      → net.polls ≡ polls_of rs (ready ∷ ps)
      → net.arrivals ≡ arrivals_of rs (datagram from (code init_ack ∷ q) ∷ rest)
      → length rs < fuel
      → greet server_addr fuel g net
        ≡ ok (tt, record { polls = ps; arrivals = rest; sent = net.sent ++ asked (length rs + 1) })
  greet_lem rs from q ps rest zero g net w o a p ep ea h = absurd (omega arith)
  greet_lem [] from q ps rest (suc fuel) g net w o a p ep ea h =
      greet-last fuel g net
        (greet_pass_lem g (packet from (code init_ack ∷ q)) [] ps rest net ep ea)
        (accepted-ack (after g (packet from (code init_ack ∷ q))) _ refl a p)
  greet_lem (r ∷ rs) from q ps rest (suc fuel) g net w o a p ep ea h =
      let last : List Arrival = datagram from (code init_ack ∷ q) ∷ rest in
      let (w', o') = after-Waiting g r rs w o in
      let (x, xs, e, other) = w' in
      let net' : Net = record {
        polls = polls_of rs (ready ∷ ps);
        arrivals = arrivals_of rs last;
        sent = net.sent ++ asked 1;
      } in
      greet-step fuel g net (greet_pass_lem g r rs (ready ∷ ps) last net ep ea)
        (accepted-Other (after g r) x xs e other)
      ∙ greet_lem rs from q ps rest fuel (after g r) net' w' o' a p refl refl (omega arith)
      ∙ ap {B = Outcome (Unit {0} × Net)}
          (λ l. ok (tt, record { polls = ps; arrivals = rest; sent = l }))
          (append-asked net.sent (length rs + 1) (suc (length rs) + 1) (omega arith))
