-- ===== src/Link/Running/CatchUp.antt =====
-- That the client (VideoServer/src/client.c) can always catch up with what the server has written.
use fagprojekt.Base.{
  ℕ, zero, suc, ◌+◌, ◌≤◌, ◌<◌, ◌≡◌, sym, subst, ◌∙◌, ap, false, List, [], ◌∷◌, ◌++◌, length, arith,
  length-append, inl, inr, dec_le,
}
use fagprojekt.Buffer.{CircularBuf}
use fagprojekt.Buffer.Invariant.{IsValid, contents}
use fagprojekt.Connection.{SockAddr, Net, max_packet_size}
use fagprojekt.Client.Stream.{AllFit, addressed}
use fagprojekt.Server.Frames.{frames}
use fagprojekt.Threads.Lines.Stream.{lines_stream}
use fagprojekt.Link.Interleaved.{LineReach-AllFit}
use fagprojekt.Link.Running.{Boards, BoardsReach}
use fagprojekt.Link.Running.Cut.{remaining}
use fagprojekt.Link.Running.Runs.{ClientRun, run_append}
use fagprojekt.Link.Running.Stream.{AllFit-suffix, BoardsReach-LineReach, BoardsReach-Kept}
use fagprojekt.Link.Running.Behind.{Unfinished, earlier, taken_short}
use fagprojekt.Link.Running.Alone.{
  ClientRun-server, BoardsReach-ClientRun, flush, advance, next_in_link,
}

module _ (server_addr : SockAddr) where
  -- The client by itself comes from `s` to `n` bytes taken, and no packet left to send.
  Ahead : ℕ → Boards → Type 0
  Ahead n s = (t : Boards) × ClientRun server_addr s t × (n ≤ length t.taken) × Unfinished t.pass

  module _ {b : CircularBuf} {bytes : List ℕ} {net : Net} (v : IsValid b) (e : contents b ≡ [])
      (size : length bytes ≡ max_packet_size) where
    -- It sends what it has read, and takes a byte more.
    one_more :
        (s : Boards)
        → BoardsReach server_addr b bytes net s
        → s.server.marked ≡ false
        → length s.taken < length s.server.out
        → (t : Boards) × ClientRun server_addr s t × (length t.taken ≡ suc (length s.taken))
    one_more s r clean behind =
        let (ps, qs, rest, cut) = BoardsReach-Kept server_addr v e size r clean in
        let (t, run, same, short) = flush server_addr s cut.inside cut.size in
        let same_server = ClientRun-server server_addr run in
        let (ps', qs', rest', cut') =
          BoardsReach-Kept server_addr v e size (BoardsReach-ClientRun server_addr r run)
            (ap (λ l. l.marked) (sym same_server) ∙ clean) in
        let (x, after, link) =
          next_in_link server_addr t.server.out t.taken rest' cut'.linked
            (omega (arith, ap length same, ap (λ l. length l.out) same_server)) in
        let (u, run', taken) = advance server_addr t x after short cut'.inside link in
        (
          u,
          run_append run run',
          omega (arith, ap length taken, length-append t.taken (x ∷ []), ap length same),
        )

    catch_bytes :
        (n k : ℕ) (s : Boards)
        → BoardsReach server_addr b bytes net s
        → s.server.marked ≡ false
        → n ≤ length s.server.out
        → n ≤ length s.taken + k
        → Ahead n s
    unfolding Ahead
    catch_bytes n zero s r clean written near =
        let (ps, qs, rest, cut) = BoardsReach-Kept server_addr v e size r clean in
        let (t, run, same, short) = flush server_addr s cut.inside cut.size in
        (t, run, omega (arith, ap length same), short)
    catch_bytes n (suc k) s r clean written near = elim (dec_le n (length s.taken)) [
      | yes enough ↦ catch_bytes n k s r clean written (omega arith)
      | no behind ↦
          let (t, run, taken) = one_more s r clean (omega arith) in
          let same_server = ClientRun-server server_addr run in
          let (u, run', reached, short) =
            catch_bytes n k t (BoardsReach-ClientRun server_addr r run)
              (ap (λ l. l.marked) (sym same_server) ∙ clean)
              (omega (arith, ap (λ l. length l.out) same_server)) (omega arith) in
          (u, run_append run run', reached, short)
    ]

    -- With the frames of `all` taken and no packet left to send, these packets are sent.
    all_sent :
        (all others : List (List ℕ)) (t : Boards)
        → BoardsReach server_addr b bytes net t
        → t.server.marked ≡ false
        → t.server.accepted ≡ all ++ others
        → length (frames all) ≤ length t.taken
        → Unfinished t.pass
        → (extra : List (List ℕ)) × (t.net.sent ≡ net.sent ++ addressed server_addr (all ++ extra))
    all_sent all others t r clean accepted enough short =
        let (ps, qs, rest, cut) = BoardsReach-Kept server_addr v e size r clean in
        let lines = BoardsReach-LineReach server_addr r in
        let fit = AllFit-suffix ps qs (subst AllFit cut.accepted (LineReach-AllFit lines)) in
        let stream =
          remaining server_addr net ps qs rest _ t cut (lines_stream v e lines clean).0 in
        elim (earlier all others ps qs (sym accepted ∙ cut.accepted)) [
          | inl (extra, same) ↦
              (extra, cut.sent ∙ ap (λ l. net.sent ++ addressed server_addr l) same)
          | inr (q, extra, same) ↦
              let split = ap (λ l. l ++ others) (sym same) ∙ sym accepted ∙ cut.accepted in
              let behind =
                taken_short ps qs others q extra t.pass t.bytes t.taken _ short cut.inside cut.size
                  fit stream cut.taken split in
              absurd (omega (arith, behind, ap (λ l. length (frames l)) same))
        ]

    -- Both boards at once, as long as `send_data_buffer` has never set `full` to true: from every state
    -- that they reach, when the frames of the first accepted packets `all` are written to the FIFO,
    -- the client by itself comes to a state in which the first packets that it has sent are `all`,
    -- unchanged and in order.
    pub catch_up :
        (all others : List (List ℕ)) {s : Boards}
        → BoardsReach server_addr b bytes net s
        → s.server.marked ≡ false
        → s.server.accepted ≡ all ++ others
        → length (frames all) ≤ length s.server.out
        → (t : Boards) × (extra : List (List ℕ)) × ClientRun server_addr s t
          × (t.net.sent ≡ net.sent ++ addressed server_addr (all ++ extra))
    unfolding Ahead
    catch_up all others {s} r clean accepted written =
        let n : ℕ = length (frames all) in
        let (t, run, enough, short) = catch_bytes n n s r clean written (omega arith) in
        let same_server = ClientRun-server server_addr run in
        let (extra, sent) =
          all_sent all others t (BoardsReach-ClientRun server_addr r run)
            (ap (λ l. l.marked) (sym same_server) ∙ clean)
            (ap (λ l. l.accepted) (sym same_server) ∙ accepted) enough short in
        (t, extra, run, sent)
