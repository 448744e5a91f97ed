-- ===== src/Tests/Interleavings.antt =====
-- Both threads of the server over a buffer of eight bytes.
use fagprojekt.Base.{ℕ, ◌≡◌, refl, true, List, [], ◌∷◌, ◌++◌, arith}
use fagprojekt.Buffer.{CircularBuf, send_data_buffer, get_space, buffer_is_empty}
use fagprojekt.Buffer.Invariant.{IsValid, contents}
use fagprojekt.Server.Frames.{frames}
use fagprojekt.Threads.{
  System, storing_bytes, reading, Reach, here, later, test, store, write, accept_packet,
  store_length, find_byte,
}
use fagprojekt.Threads.Safety.{stream_lem}
use fagprojekt.Threads.Lines.{LineSystem, LineReach, calling}
use fagprojekt.Threads.Race.{empty_but_full}
use fagprojekt.Tests.Servers.{buffer, buffer-IsValid}

abbrev pub packet : List ℕ
packet = 7 ∷ 8 ∷ 9 ∷ []

-- The buffer with the length of the packet stored.
abbrev pub with_length : CircularBuf
with_length = record buffer { buffer = 0 ∷ 0 ∷ 0 ∷ 0 ∷ 0 ∷ 0 ∷ 3 ∷ 0 ∷ []; head = 0 }

abbrev pub halfway : System
halfway = record {
  buffer = with_length;
  sender = storing_bytes packet;
  writer = reading;
  accepted = packet ∷ [];
  out = [];
}

pub halfway-Reach : Reach buffer halfway
unfolding send_data_buffer get_space buffer_is_empty
halfway-Reach =
    later
      (later (later here (test (accept_packet packet refl (omega arith) (omega arith) refl)))
        (store (store_length packet with_length refl refl)))
      (write (find_byte refl refl))

halfway_stream : [] ++ ([] ++ (contents with_length ++ packet)) ≡ frames (packet ∷ [])
halfway_stream = stream_lem buffer-IsValid refl halfway-Reach

abbrev low : CircularBuf
low = record buffer { buffer = 0 ∷ 0 ∷ 5 ∷ 0 ∷ 0 ∷ 0 ∷ 0 ∷ 0 ∷ []; head = 0; tail = 0 }

low-IsValid : IsValid low
low-IsValid = record {
  nonempty = omega arith;
  small = omega arith;
  block = refl;
  head_in = omega arith;
  tail_in = omega arith;
  full_at = λ e. refl;
}

empty_but_full_example :
    (s t : LineSystem) × LineReach low s
    × (s.buffer.head ≡ s.buffer.tail)
    × (s.buffer.full ≡ true)
    × (s.out ≡ 3 ∷ 0 ∷ [])
    × LineReach low t
    × (t.sender ≡ calling (packet ∷ []))
    × (t.accepted ≡ packet ∷ [])
    × (t.out ≡ 3 ∷ 0 ∷ 5 ∷ [])
empty_but_full_example =
    empty_but_full low packet 5 low-IsValid refl (omega arith) (omega arith) (omega arith)
      (omega arith) refl
