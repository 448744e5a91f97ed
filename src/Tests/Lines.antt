-- ===== src/Tests/Lines.antt =====
-- Both threads of the server line by line over a buffer of eight bytes.
use fagprojekt.Base.{
  Bool, true, length, drop, ok, ℕ, ◌≡◌, ◌<◌, refl, false, List, [], ◌∷◌, ◌++◌, arith,
}
use fagprojekt.Memory.{memcpy, load}
use fagprojekt.Buffer.{CircularBuf, get_space, buffer_is_empty}
use fagprojekt.Server.Frames.{frames}
use fagprojekt.Threads.Lines.{
  LineSender, idle, asking, moved, test_space, start, return, LineSystem, calling, copied, testing,
  loaded, accept_packet, copy_data, move_head, compare, set_full, load_byte, serve, send, test,
  read, LineReach, here, later,
}
use fagprojekt.Buffer.Space.{
  entered, comparing, subtracting, answered, see_open, compare_ends, subtract,
}
use fagprojekt.Threads.Lines.Asking.{ask_lines, byte_lines}
use fagprojekt.Threads.Lines.Bounds.{SenderDefined, WriterDefined, lines_defined}
use fagprojekt.Threads.Lines.Stream.{
  TrueOnEmpty, lines_stream, TrueOnRoom, FalseOnByte, lines_answers,
}
use fagprojekt.Threads.Lines.Calls.{line_by_line, line_by_line-LineReach}
use fagprojekt.Tests.Interleavings
use fagprojekt.Tests.Interleavings.{packet, halfway-Reach}
use fagprojekt.Tests.Servers.{alice, buffer, buffer-IsValid}
use fagprojekt.Tests.Clients.{linked, bytes}
use fagprojekt.Tests.Device.{Sample, sample, sample-IsFifo}
use fagprojekt.Client.{Client, video_send_loop}
use fagprojekt.Link.Interleaved.{lines_prefix_lem}
use fagprojekt.Threads.Race.{write_round}

-- The length of the packet is copied to the last two places, and the head is moved round.
abbrev with_two : CircularBuf
with_two = record buffer { buffer = 0 ∷ 0 ∷ 0 ∷ 0 ∷ 0 ∷ 0 ∷ 3 ∷ 0 ∷ []; head = 0 }

abbrev with_packet : List ℕ
with_packet = 7 ∷ 8 ∷ 9 ∷ 0 ∷ 0 ∷ 0 ∷ 3 ∷ 0 ∷ []

-- The packet is copied and the head not yet moved, while the other thread has read a byte.
abbrev pub halfway : LineSystem
halfway = record {
  buffer = record with_two { buffer = with_packet };
  sender = copied packet [];
  writer = loaded 3;
  accepted = packet ∷ [];
  out = [];
  marked = false;
}

length-LineReach :
    LineReach buffer (record halfway {
      buffer = with_two;
      sender = calling (packet ∷ []);
      writer = testing entered;
    })
unfolding get_space memcpy
length-LineReach =
    let accepted =
      later (ask_lines (start buffer) here packet refl)
        (serve (accept_packet packet _ refl (omega arith) (omega arith) refl)) in
    let copied =
      later accepted (send (copy_data (3 ∷ 0 ∷ []) (packet ∷ []) with_two.buffer refl refl refl)) in
    let moved = later copied (send (move_head (3 ∷ 0 ∷ []) (packet ∷ []) refl)) in
    later (later moved (send (compare (packet ∷ []) refl)))
      (send (set_full false (packet ∷ []) refl))

halfway-LineReach : LineReach buffer halfway
unfolding buffer_is_empty get_space memcpy load
halfway-LineReach =
    let found = byte_lines _ length-LineReach refl refl in
    let loaded = later found (read (load_byte 3 refl refl)) in
    later loaded (send (copy_data packet [] with_packet refl refl refl))

-- The head is moved, and the comparison not yet made.
pub moving-LineReach :
    LineReach buffer
      (record halfway { buffer = record (halfway.buffer) { head = 3 }; sender = moved [] })
moving-LineReach = later halfway-LineReach (send (move_head packet [] refl))

lines_defined_example :
    (0 < 8)
    × (6 < 8)
    × SenderDefined (copied packet []) halfway.buffer
    × WriterDefined (loaded 3) halfway.buffer
lines_defined_example = lines_defined buffer-IsValid halfway-LineReach

lines_stream_example :
    ([] ++ ([] ++ (3 ∷ 0 ∷ (packet ++ []))) ≡ frames (packet ∷ []))
    × TrueOnEmpty (copied packet []) halfway.buffer
lines_stream_example = lines_stream buffer-IsValid refl halfway-LineReach refl

line_by_line-LineReach_example :
    (u : Bool) × LineReach buffer (line_by_line Interleavings.halfway u)
line_by_line-LineReach_example = line_by_line-LineReach buffer-IsValid refl halfway-Reach

-- The first thread is done with the packet, the second has written its frame.
abbrev pub on_line : CircularBuf → LineSender → List ℕ → LineSystem
on_line b w out = record halfway { buffer = b; sender = w; writer = testing entered; out = out }

abbrev pub filled : ℕ → CircularBuf
filled tail = record with_two { buffer = with_packet; tail = tail; head = 3 }

stored-LineReach : LineReach buffer (on_line (filled 0) idle (3 ∷ 0 ∷ []))
unfolding memcpy load buffer_is_empty get_space
stored-LineReach =
    let first =
      write_round (on_line with_two (calling (packet ∷ [])) []) 3 length-LineReach refl refl refl in
    let second =
      write_round (on_line (record with_two { tail = 7 }) (calling (packet ∷ [])) (3 ∷ [])) 0 first
        refl refl refl in
    let copied = later second (send (copy_data packet [] with_packet refl refl refl)) in
    let moved = later copied (send (move_head packet [] refl)) in
    later (later (later moved (send (compare [] refl))) (send (set_full false [] refl)))
      (serve (return refl))

pub written-LineReach : LineReach buffer (on_line (filled 3) idle (3 ∷ 0 ∷ packet))
unfolding load buffer_is_empty get_space
written-LineReach =
    let first =
      write_round (on_line (filled 0) idle (3 ∷ 0 ∷ [])) 7 stored-LineReach refl refl refl in
    let second = write_round (on_line (filled 1) idle (3 ∷ 0 ∷ 7 ∷ [])) 8 first refl refl refl in
    write_round (on_line (filled 2) idle (3 ∷ 0 ∷ 7 ∷ 8 ∷ [])) 9 second refl refl refl

written_forwarded :
    (bytes' : List ℕ) × (c' : Client Sample) × (video_send_loop sample 2 alice 1 bytes
        (record linked { dev = record { rx = 3 ∷ 0 ∷ packet; tx = []; busy = true } })
      ≡ ok (bytes', c'))
    × (c'.net.sent ≡ (alice, packet) ∷ [])
    × (c'.dev.rx ≡ drop (length (frames (packet ∷ []))) (3 ∷ 0 ∷ packet))
unfolding frames
written_forwarded =
    lines_prefix_lem sample (λ d. d.rx) (λ d. d.tx) 1 sample-IsFifo 2 (omega arith)
      (λ l. record { rx = l; tx = []; busy = true }) (λ l. refl) alice (packet ∷ []) [] bytes linked
      buffer-IsValid refl written-LineReach refl refl (omega arith) refl

-- The writing thread has compared head and tail before a packet was stored, and subtracts after the
-- head has moved round.
abbrev asked : LineSystem
asked = record (start buffer) {
  sender = asking packet (answered 8);
  writer = testing (subtracting false);
}

asked-LineReach : LineReach buffer asked
unfolding get_space
asked-LineReach =
    let space = ask_lines (start buffer) here packet refl in
    let open_ = later space (test (test_space entered comparing refl (see_open refl))) in
    later open_ (test (test_space comparing (subtracting false) refl compare_ends))

abbrev overtaken : LineSystem
overtaken = record asked {
  buffer = with_two;
  sender = moved (packet ∷ []);
  writer = testing (answered 14);
  accepted = packet ∷ [];
}

overtaken-LineReach : LineReach buffer overtaken
unfolding memcpy
overtaken-LineReach =
    let accepted =
      later asked-LineReach
        (serve (accept_packet packet 8 refl (omega arith) (omega arith) refl)) in
    let copied =
      later accepted (send (copy_data (3 ∷ 0 ∷ []) (packet ∷ []) with_two.buffer refl refl refl)) in
    let after = later copied (send (move_head (3 ∷ 0 ∷ []) (packet ∷ []) refl)) in
    later after (test (test_space (subtracting false) (answered 14) refl subtract))

lines_answers_example :
    TrueOnRoom (moved (packet ∷ [])) with_two × FalseOnByte (testing (answered 14)) with_two
lines_answers_example = lines_answers buffer-IsValid refl overtaken-LineReach refl
