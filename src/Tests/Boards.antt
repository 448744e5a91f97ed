-- ===== src/Tests/Boards.antt =====
-- Both boards at once: the server has written the frame of a packet, and the client forwards it.
use fagprojekt.Base.{arith, ℕ, true, ok, ◌≡◌, refl, List, [], ◌∷◌, ◌++◌, set}
use fagprojekt.Memory.{put_at}
use fagprojekt.Buffer.{CircularBuf}
use fagprojekt.Buffer.Invariant.{contents}
use fagprojekt.Client.Stream.{addressed}
use fagprojekt.Server.Frames.{frames}
use fagprojekt.Threads.Lines.{LineSystem, idle, moved, LineReach}
use fagprojekt.Link.Running.{
  Pass, before_low, filling, Boards, read_low, read_high, read_byte, server_line, client_line,
  BoardsReach, here, later,
}
use fagprojekt.Link.Running.Partial.{partial, InArray}
use fagprojekt.Link.Running.Stream.{running_lem}
use fagprojekt.Link.Running.CatchUp.{catch_up}
use fagprojekt.Link.Running.Drained.{BoardsRun}
use fagprojekt.Link.Running.Delivery.{delivery_lem}
use fagprojekt.Tests.Interleavings.{packet}
use fagprojekt.Tests.Servers.{alice, buffer, buffer-IsValid}
use fagprojekt.Tests.Clients.{linked, bytes}
use fagprojekt.Link.Running.Runs.{ClientRun}
use fagprojekt.Link.Running.Refinement.{video_send_loop-lines}
use fagprojekt.Fifo.{read_fifo_blocking, empty_bit}
use fagprojekt.Connection.{send_data}
use fagprojekt.Client.{
  Client, video_send_pass, forward_packet, read_packet, send_video_packet, video_send_loop,
}
use fagprojekt.Tests.Device.{Sample, sample, sample-IsFifo}
use fagprojekt.Tests.Lines.{on_line, filled, written-LineReach, halfway, moving-LineReach}

-- The server runs by itself.
alone :
    {b : CircularBuf} {s : LineSystem}
    → LineReach b s
    → BoardsReach alice b bytes linked.net
        (record { server = s; pass = before_low; bytes = bytes; net = linked.net; taken = [] })
alone LineReach.here = here
alone (LineReach.later r line) = later (alone r) (server_line _ line)

abbrev boards : Pass → List ℕ → List ℕ → Boards
boards pass array taken = record {
  server = on_line (filled 3) idle (3 ∷ 0 ∷ packet);
  pass = pass;
  bytes = array;
  net = linked.net;
  taken = taken;
}

-- The client has read the length and two of the three bytes.
abbrev array : List ℕ
array = set (set bytes 0 7) 1 8

reading-BoardsReach :
    BoardsReach alice buffer bytes linked.net (boards (filling 3 2) array (3 ∷ 0 ∷ 7 ∷ 8 ∷ []))
unfolding put_at
reading-BoardsReach =
    let low = later (alone written-LineReach) (client_line (read_low 3 (0 ∷ packet) refl refl)) in
    let high = later low (client_line (read_high 3 0 packet refl refl)) in
    let first =
      later high (client_line (read_byte 3 0 7 (8 ∷ 9 ∷ []) (set bytes 0 7) refl refl refl refl)) in
    later first (client_line (read_byte 3 1 8 (9 ∷ []) array refl refl refl refl))

running_lem_example :
    (ps qs : List (List ℕ)) × (packet ∷ [] ≡ ps ++ qs)
    × (linked.net.sent ≡ linked.net.sent ++ addressed alice ps)
    × (3 ∷ 0 ∷ 7 ∷ 8 ∷ [] ≡ frames ps ++ partial (filling 3 2) array)
    × InArray (filling 3 2) array
running_lem_example = running_lem alice buffer-IsValid refl refl reading-BoardsReach refl

-- The client before the packet, with the written bytes in its FIFO, and after it.
abbrev ahead : Client Sample
ahead = record linked { dev = record { rx = 3 ∷ 0 ∷ packet; tx = []; busy = true } }

abbrev sent : Client Sample
sent = record {
  dev = record { rx = []; tx = []; busy = true };
  net = record (linked.net) { sent = (alice, packet) ∷ [] };
}

abbrev full : List ℕ
full = set array 2 9

forwarded : video_send_loop sample 2 alice 1 bytes ahead ≡ ok (full, sent)
unfolding video_send_loop put_at read_fifo_blocking send_data video_send_pass empty_bit
    forward_packet read_packet send_video_packet
forwarded = refl

video_send_loop-lines_example :
    (taken : List ℕ) × ClientRun alice
      (boards before_low bytes [])
      (record (boards before_low full taken) { net = sent.net })
    × (3 ∷ 0 ∷ packet ≡ taken ++ [])
video_send_loop-lines_example =
    video_send_loop-lines sample (λ d. d.rx) (λ d. d.tx) 1 sample-IsFifo 2 alice 1
      (boards before_low bytes []) ahead sent full refl refl refl forwarded

catch_up_example :
    (t : Boards) × (extra : List (List ℕ)) × ClientRun alice
      (boards (filling 3 2) array (3 ∷ 0 ∷ 7 ∷ 8 ∷ []))
      t
    × (t.net.sent ≡ linked.net.sent ++ addressed alice ((packet ∷ []) ++ extra))
unfolding frames
catch_up_example =
    catch_up alice buffer-IsValid refl refl (packet ∷ []) [] reading-BoardsReach refl refl
      (omega arith)

-- The receiving thread has the packet stored, and the other has read its first byte.
abbrev begun : Boards
begun = record {
  server = record halfway { buffer = record (halfway.buffer) { head = 3 }; sender = moved [] };
  pass = before_low;
  bytes = bytes;
  net = linked.net;
  taken = [];
}

delivery_lem_example :
    (t : Boards) × BoardsRun alice begun t
    × (t.server.sender ≡ moved [])
    × (t.server.accepted ≡ packet ∷ [])
    × (contents t.server.buffer ≡ [])
    × (t.server.out ≡ frames (packet ∷ []))
    × (t.net.sent ≡ linked.net.sent ++ addressed alice (packet ∷ []))
delivery_lem_example =
    delivery_lem alice buffer-IsValid refl begun (alone moving-LineReach) refl refl refl
