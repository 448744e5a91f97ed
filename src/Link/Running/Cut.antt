-- ===== src/Link/Running/Cut.antt =====
-- How the lines of the server's threads and of the client (VideoServer/src/server.c, buffer.c and
-- client.c) keep what the client has taken and sent in step with the frames.
use fagprojekt.Base.{
  ℕ, ◌+◌, ◌≤◌, ◌<◌, ◌≡◌, refl, sym, subst, ◌∙◌, ap, false, List, [], ◌∷◌, ◌++◌, length, take, set,
  ltb, ok, arith, append_assoc, append-nil, length-set, length-take_of_le,
}
use fagprojekt.Memory.{le16, put_at, put_at_lem, take-set}
use fagprojekt.Connection.{SockAddr, Net, max_packet_size, send_data}
use fagprojekt.Client.{un16, to_short}
use fagprojekt.Client.Stream.{AllFit, addressed}
use fagprojekt.Server.Frames.{frames}
use fagprojekt.Threads.Invariant.{frames-append, frames-one}
use fagprojekt.Threads.Lines.{LineSystem, Line}
use fagprojekt.Link.Running.{
  Pass, before_high, filling, Boards, ClientLine, read_low, read_high, read_byte, send_packet,
}
use fagprojekt.Link.Running.Partial.{partial, InArray, append_cancel, read_length, read_whole}
use fagprojekt.Threads.Lines.Growth.{Line-Grown}

module _ (server_addr : SockAddr) (net0 : Net) where
  -- The client has sent the packets `ps` of those accepted and taken their frames, and of the next
  -- what it has read so far; `rest` is in the link.
  pub record Cut (ps qs : List (List ℕ)) (rest : List ℕ) (s : Boards) : Type 0 where
    pub accepted : s.server.accepted ≡ ps ++ qs
    pub sent : s.net.sent ≡ net0.sent ++ addressed server_addr ps
    pub taken : s.taken ≡ frames ps ++ partial s.pass s.bytes
    pub inside : InArray s.pass s.bytes
    pub size : length s.bytes ≡ max_packet_size
    pub linked : s.server.out ≡ s.taken ++ rest

  pub server-Cut :
      (ps qs : List (List ℕ)) (rest : List ℕ) (s : Boards) (t : LineSystem)
      → Line s.server t
      → Cut ps qs rest s
      → (qs' : List (List ℕ)) × (rest' : List ℕ) × Cut ps qs' rest' (record s { server = t })
  server-Cut ps qs rest s t line cut =
      let (new, out, more, written) = Line-Grown line in
      (
        qs ++ new,
        rest ++ out,
        record {
          accepted = more ∙ ap (λ l. l ++ new) cut.accepted ∙ append_assoc ps qs new;
          sent = cut.sent;
          taken = cut.taken;
          inside = cut.inside;
          size = cut.size;
          linked = written ∙ ap (λ l. l ++ out) cut.linked ∙ append_assoc s.taken rest out;
        },
      )

  -- Behind what the client has sent, the bytes taken and to come are the frames of the other packets.
  pub remaining :
      (ps qs : List (List ℕ)) (rest tail : List ℕ) (s : Boards)
      → Cut ps qs rest s
      → s.server.out ++ tail ≡ frames s.server.accepted
      → partial s.pass s.bytes ++ (rest ++ tail) ≡ frames qs
  remaining ps qs rest tail s cut stream =
      append_cancel (frames ps) (partial s.pass s.bytes ++ (rest ++ tail)) (frames qs) (
        sym (append_assoc (frames ps) (partial s.pass s.bytes) (rest ++ tail))
        ∙ ap (λ l. l ++ (rest ++ tail)) (sym cut.taken)
        ∙ sym (append_assoc s.taken rest tail)
        ∙ ap (λ l. l ++ tail) (sym cut.linked)
        ∙ stream
        ∙ ap frames cut.accepted
        ∙ frames-append ps qs)

  -- A byte goes from the link to the client.
  next_byte :
      (ps qs : List (List ℕ)) (rest rest' : List ℕ) (x : ℕ) (s : Boards)
      → Cut ps qs rest s
      → s.server.out ≡ s.taken ++ (x ∷ rest')
      → (rest ≡ x ∷ rest') × (s.server.out ≡ (s.taken ++ (x ∷ [])) ++ rest')
  next_byte ps qs rest rest' x s cut e = (
    append_cancel s.taken rest (x ∷ rest') (sym cut.linked ∙ e),
    e ∙ sym (append_assoc s.taken (x ∷ []) rest'),
  )

  taken_more :
      (ps : List (List ℕ)) (x : ℕ) (s : Boards) (w : Pass) (bytes : List ℕ)
      → s.taken ≡ frames ps ++ partial s.pass s.bytes
      → partial s.pass s.bytes ++ (x ∷ []) ≡ partial w bytes
      → s.taken ++ (x ∷ []) ≡ frames ps ++ partial w bytes
  taken_more ps x s w bytes taken more =
      ap (λ l. l ++ (x ∷ [])) taken
      ∙ append_assoc (frames ps) (partial s.pass s.bytes) (x ∷ [])
      ∙ ap (λ l. frames ps ++ l) more

  stored_byte : (a b : List ℕ) (i x : ℕ) → i < length a → put_at a i x ≡ ok b → b ≡ set a i x
  stored_byte a b i x h e = let written = put_at_lem a i x h in cc

  sent_whole :
      (bytes : List ℕ) (i : ℕ) (n n' : Net)
      → send_data server_addr bytes i n ≡ ok (tt, n')
      → n'.sent ≡ n.sent ++ ((server_addr, take i bytes) ∷ [])
  unfolding send_data
  sent_whole bytes i n n' e = ground arith

  sent_packet :
      (bytes : List ℕ) (i : ℕ) (n n' : Net)
      → i ≤ max_packet_size
      → send_data server_addr bytes (to_short i) n ≡ ok (tt, n')
      → n'.sent ≡ n.sent ++ ((server_addr, take i bytes) ∷ [])
  unfolding send_data
  sent_packet bytes i n n' size e =
      let short : to_short i ≡ i = ground arith in
      sent_whole bytes i n n' (ap (λ k. send_data server_addr bytes k n) (sym short) ∙ e)

  addressed-append :
      (ps : List (List ℕ)) (c : List ℕ)
      → addressed server_addr ps ++ ((server_addr, c) ∷ []) ≡ addressed server_addr (ps ++ (c ∷ []))
  addressed-append [] c = refl
  addressed-append (p ∷ ps) c = ap (λ l. (server_addr, p) ∷ l) (addressed-append ps c)

  pub ClientLine-Cut :
      (ps qs : List (List ℕ)) (rest tail : List ℕ) {s t : Boards}
      → ClientLine server_addr s t
      → AllFit qs
      → s.server.out ++ tail ≡ frames s.server.accepted
      → Cut ps qs rest s
      → (ps' qs' : List (List ℕ)) × (rest' : List ℕ) × Cut ps' qs' rest' t
  ClientLine-Cut ps qs rest tail {s} (read_low x rest' at e) fit stream cut =
      let (_, linked) = next_byte ps qs rest rest' x s cut e in
      (
        ps,
        qs,
        rest',
        record {
          accepted = cut.accepted;
          sent = cut.sent;
          taken =
              taken_more ps x s (before_high x) s.bytes cut.taken
                (ap (λ w. partial w s.bytes ++ (x ∷ [])) at);
          inside = tt;
          size = cut.size;
          linked = linked;
        },
      )
  ClientLine-Cut ps qs rest tail {s} (read_high lo x rest' at e) fit stream cut =
      let (same_rest, linked) = next_byte ps qs rest rest' x s cut e in
      let front : lo ∷ x ∷ (rest' ++ tail) ≡ frames qs =
        ap (λ l. (lo ∷ []) ++ (l ++ tail)) (sym same_rest)
        ∙ ap (λ w. partial w s.bytes ++ (rest ++ tail)) (sym at)
        ∙ remaining ps qs rest tail s cut stream in
      let (size, header) = read_length lo x (rest' ++ tail) qs fit front in
      let fits : ltb max_packet_size (un16 lo x) ≡ false = ground arith in
      (
        ps,
        qs,
        rest',
        rw fits (record {
          accepted = cut.accepted;
          sent = cut.sent;
          taken =
              taken_more ps x s (filling (un16 lo x) 0) s.bytes cut.taken
                (ap (λ w. partial w s.bytes ++ (x ∷ [])) at ∙ sym header);
          inside = (omega arith, omega (arith, cut.size));
          size = cut.size;
          linked = linked;
        }),
      )
  ClientLine-Cut ps qs rest tail {s} (read_byte len i x rest' bytes at more e stored) fit stream
        cut =
      let (_, linked) = next_byte ps qs rest rest' x s cut e in
      let (_, small) = subst (λ w. InArray w s.bytes) at cut.inside in
      let below : i < len = ground (arith, more) in
      let written : bytes ≡ set s.bytes i x = stored_byte s.bytes bytes i x (omega arith) stored in
      (
        ps,
        qs,
        rest',
        record {
          accepted = cut.accepted;
          sent = cut.sent;
          taken = taken_more ps x s (filling len (i + 1)) bytes cut.taken (
              ap (λ w. partial w s.bytes ++ (x ∷ [])) at
              ∙ ap (λ l. le16 len ++ l)
                  (sym (take-set s.bytes i x (omega arith)) ∙ ap (take (i + 1)) (sym written)));
          inside = (omega arith, omega (arith, ap length written, length-set s.bytes i x));
          size = ap length written ∙ length-set s.bytes i x ∙ cut.size;
          linked = linked;
        },
      )
  ClientLine-Cut ps qs rest tail {s} (send_packet len i net at all sends) fit stream cut =
      let (most, small) = subst (λ w. InArray w s.bytes) at cut.inside in
      let c : List ℕ = take i s.bytes in
      let whole : i ≡ len = ground (arith, all) in
      let front : le16 len ++ (c ++ (rest ++ tail)) ≡ frames qs =
        ap (λ w. partial w s.bytes ++ (rest ++ tail)) (sym at)
        ∙ remaining ps qs rest tail s cut stream in
      let (others, first, framed) =
        read_whole len c (rest ++ tail) qs fit (length-take_of_le i s.bytes (omega arith) ∙ whole)
          (omega (arith, cut.size)) front in
      (
        ps ++ (c ∷ []),
        others,
        rest,
        record {
          accepted = cut.accepted ∙ ap (λ l. ps ++ l) first ∙ sym (append_assoc ps (c ∷ []) others);
          sent =
              sent_packet s.bytes i s.net net (omega (arith, cut.size)) sends
              ∙ ap (λ l. l ++ ((server_addr, c) ∷ [])) cut.sent
              ∙ append_assoc net0.sent (addressed server_addr ps) ((server_addr, c) ∷ [])
              ∙ ap (λ l. net0.sent ++ l) (addressed-append ps c);
          taken =
              cut.taken
              ∙ ap (λ w. frames ps ++ partial w s.bytes) at
              ∙ ap (λ l. frames ps ++ l) (sym framed)
              ∙ sym (frames-one ps c)
              ∙ sym (append-nil (frames (ps ++ (c ∷ []))));
          inside = tt;
          size = cut.size;
          linked = cut.linked;
        },
      )
