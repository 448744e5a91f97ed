-- ===== src/Link/Running/Stream.antt =====
-- What the client sends while the server's threads run (VideoServer/src/server.c, buffer.c and
-- client.c).
use fagprojekt.Base.{
  ℕ, ◌≡◌, refl, sym, subst, ◌∙◌, ap, false, List, [], ◌∷◌, ◌++◌, length, append-nil,
}
use fagprojekt.Buffer.{CircularBuf}
use fagprojekt.Buffer.Invariant.{IsValid, contents}
use fagprojekt.Connection.{SockAddr, Net, max_packet_size}
use fagprojekt.Client.Stream.{AllFit, addressed}
use fagprojekt.Server.Frames.{frames}
use fagprojekt.Threads.Lines.{LineReach}
use fagprojekt.Threads.Lines.Stream.{Line-marked, lines_stream}
use fagprojekt.Link.Interleaved.{LineReach-AllFit}
use fagprojekt.Link.Running.{
  Boards, ClientLine, read_low, read_high, read_byte, send_packet, server_line, client_line,
  BoardsReach, here, later,
}
use fagprojekt.Link.Running.Partial.{partial, InArray}
use fagprojekt.Link.Running.Cut.{Cut, server-Cut, ClientLine-Cut}

pub AllFit-suffix : (ps qs : List (List ℕ)) → AllFit (ps ++ qs) → AllFit qs
AllFit-suffix [] qs f = f
AllFit-suffix (p ∷ ps) qs (size, f) = AllFit-suffix ps qs f

module _ (server_addr : SockAddr) where
  pub ClientLine-server : {s t : Boards} → ClientLine server_addr s t → s.server ≡ t.server
  ClientLine-server (read_low x rest at e) = refl
  ClientLine-server (read_high lo x rest at e) = refl
  ClientLine-server (read_byte len i x rest bytes at more e stored) = refl
  ClientLine-server (send_packet len i net at all sends) = refl

  -- A state in which the client is in step.
  abbrev pub Kept : Net → Boards → Type 0
  Kept net s = (ps qs : List (List ℕ)) × (rest : List ℕ) × Cut server_addr net ps qs rest s

  module _ {b : CircularBuf} {bytes : List ℕ} {net : Net} where
    pub BoardsReach-LineReach :
        {s : Boards} → BoardsReach server_addr b bytes net s → LineReach b s.server
    BoardsReach-LineReach here = LineReach.here
    BoardsReach-LineReach (later r (server_line t line)) =
        LineReach.later (BoardsReach-LineReach r) line
    BoardsReach-LineReach (later r (client_line line)) =
        subst (λ l. LineReach b l) (ClientLine-server line) (BoardsReach-LineReach r)

    pub BoardsReach-Kept :
        {s : Boards}
        → IsValid b
        → contents b ≡ []
        → length bytes ≡ max_packet_size
        → BoardsReach server_addr b bytes net s
        → s.server.marked ≡ false
        → Kept net s
    unfolding frames
    BoardsReach-Kept v e size here clean = (
      [],
      [],
      [],
      record {
        accepted = refl;
        sent = sym (append-nil net.sent);
        taken = refl;
        inside = tt;
        size = size;
        linked = refl;
      },
    )
    BoardsReach-Kept v e size (later {s} r (server_line t line)) clean =
        let (ps, qs, rest, cut) = BoardsReach-Kept v e size r (Line-marked line clean) in
        let (qs', rest', cut') = server-Cut server_addr net ps qs rest s t line cut in
        (ps, qs', rest', cut')
    BoardsReach-Kept v e size (later {s} r (client_line line)) clean =
        let clean' : s.server.marked ≡ false =
          ap (λ l. l.marked) (ClientLine-server line) ∙ clean in
        let (ps, qs, rest, cut) = BoardsReach-Kept v e size r clean' in
        let lines = BoardsReach-LineReach r in
        let fit = AllFit-suffix ps qs (subst AllFit cut.accepted (LineReach-AllFit lines)) in
        ClientLine-Cut server_addr net ps qs rest _ line fit (lines_stream v e lines clean').0 cut

    -- Both boards at once: the server's threads, started with a valid and empty buffer, line by line,
    -- and the client with its array of 2000 bytes at the other end of the link, in any order of their
    -- lines, as long as `send_data_buffer` has never set `full` to true. In every state that they
    -- reach, the client has sent the first of the accepted packets, unchanged and in order, and
    -- nothing else; it has taken from the link exactly their frames and what it has read of the next;
    -- and the index at which it stores lies in its array.
    pub running_lem :
        {s : Boards}
        → IsValid b
        → contents b ≡ []
        → length bytes ≡ max_packet_size
        → BoardsReach server_addr b bytes net s
        → s.server.marked ≡ false
        → (ps qs : List (List ℕ)) × (s.server.accepted ≡ ps ++ qs)
          × (s.net.sent ≡ net.sent ++ addressed server_addr ps)
          × (s.taken ≡ frames ps ++ partial s.pass s.bytes)
          × InArray s.pass s.bytes
    running_lem v e size r clean =
        let (ps, qs, rest, cut) = BoardsReach-Kept v e size r clean in
        (ps, qs, cut.accepted, cut.sent, cut.taken, cut.inside)
