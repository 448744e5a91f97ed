-- ===== src/Link/Running/Delivery.antt =====
-- That the server's writing thread (VideoServer/src/server.c) and the client (VideoServer/src/client.c)
-- can bring what is stored to its end.
use fagprojekt.Base.{
  ℕ, suc, ◌≤◌, ◌≡◌, refl, sym, ◌∙◌, ap, false, List, [], ◌∷◌, ◌++◌, length, arith, append-nil,
  length-append, eq_nil_of_length,
}
use fagprojekt.Buffer.{CircularBuf}
use fagprojekt.Buffer.Invariant.{IsValid, contents}
use fagprojekt.Connection.{SockAddr, Net, max_packet_size}
use fagprojekt.Client.Stream.{addressed}
use fagprojekt.Server.Frames.{frames}
use fagprojekt.Threads.Lines.Invariant.{to_store}
use fagprojekt.Link.Running.{Boards, client_line, BoardsReach}
use fagprojekt.Link.Running.Runs.{ClientRun, none, more}
use fagprojekt.Link.Running.Stream.{running_lem}
use fagprojekt.Link.Running.Alone.{ClientRun-server}
use fagprojekt.Link.Running.Drained.{BoardsRun, step, BoardsReach-Run, drain_lem}
use fagprojekt.Link.Running.CatchUp.{catch_up}

length-addressed : (dest : SockAddr) (ps : List (List ℕ)) → length (addressed dest ps) ≡ length ps
length-addressed dest [] = refl
length-addressed dest (p ∷ ps) = ap suc (length-addressed dest ps)

module _ (server_addr : SockAddr) where
  client_after :
      {s t u : Boards}
      → BoardsRun server_addr s t
      → ClientRun server_addr t u
      → BoardsRun server_addr s u
  client_after run none = run
  client_after run (more l r) = client_after (step run (client_line l)) r

  module _ {b0 : CircularBuf} {bytes : List ℕ} {net : Net} (v : IsValid b0) (e : contents b0 ≡ [])
      (s : Boards) (r : BoardsReach server_addr b0 bytes net s)
      (clean : s.server.marked ≡ false) where
    no_more :
        (ps all extra : List (List ℕ)) (t : Net)
        → length ps ≤ length all
        → t.sent ≡ net.sent ++ addressed server_addr ps
        → t.sent ≡ net.sent ++ addressed server_addr (all ++ extra)
        → extra ≡ []
    no_more ps all extra t few sent sent' = eq_nil_of_length extra (
        omega (
          arith,
          ap length (sym sent ∙ sent'),
          length-append net.sent (addressed server_addr ps),
          length-append net.sent (addressed server_addr (all ++ extra)),
          length-addressed server_addr ps,
          length-addressed server_addr (all ++ extra),
          length-append all extra,
        ))

    -- Both boards at once, line by line, from a valid and empty buffer, and as long as
    -- `send_data_buffer` has never set `full` to true: from every state that they reach in which the
    -- receiving thread has nothing left to store, wherever the writing thread and the client stand,
    -- lines of these two lead to a state in which the buffer is empty, the FIFO has been given the
    -- frames of the accepted packets and nothing else, and the client has sent exactly these packets,
    -- unchanged and in order.
    pub delivery_lem :
        length bytes ≡ max_packet_size
        → to_store s.server.sender ≡ []
        → (t : Boards) × BoardsRun server_addr s t
          × (t.server.sender ≡ s.server.sender)
          × (t.server.accepted ≡ s.server.accepted)
          × (contents t.server.buffer ≡ [])
          × (t.server.out ≡ frames s.server.accepted)
          × (t.net.sent ≡ net.sent ++ addressed server_addr s.server.accepted)
    delivery_lem size stored =
        let (b, out, run, none_left, stream) = drain_lem server_addr v e s r clean in
        let written : out ≡ frames s.server.accepted =
          sym (append-nil out) ∙ ap (λ l. out ++ l) (sym stored) ∙ stream in
        let drained = BoardsReach-Run server_addr r run in
        let (t, extra, caught, sent) =
          catch_up server_addr v e size s.server.accepted [] drained clean
            (sym (append-nil s.server.accepted)) (omega (arith, ap length written)) in
        let all = client_after run caught in
        let same = ClientRun-server server_addr caught in
        let (ps, qs, accepted, kept, _, _) =
          running_lem server_addr v e size (BoardsReach-Run server_addr r all)
            (ap (λ l. l.marked) (sym same) ∙ clean) in
        let none_more =
          no_more ps s.server.accepted extra t.net
            (omega (arith, ap length (ap (λ l. l.accepted) same ∙ accepted), length-append ps qs))
            kept sent in
        (
          t,
          all,
          ap (λ l. l.sender) (sym same),
          ap (λ l. l.accepted) (sym same),
          ap (λ l. contents l.buffer) (sym same) ∙ none_left,
          ap (λ l. l.out) (sym same) ∙ written,
          sent
              ∙ ap (λ l. net.sent ++ addressed server_addr (s.server.accepted ++ l)) none_more
              ∙ ap (λ l. net.sent ++ addressed server_addr l) (append-nil s.server.accepted),
        )
