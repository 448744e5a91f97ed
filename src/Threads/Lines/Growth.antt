-- ===== src/Threads/Lines/Growth.antt =====
-- What the lines of the server's threads (VideoServer/src/server.c and buffer.c) add to.
use fagprojekt.Base.{ℕ, ◌≡◌, refl, sym, List, [], ◌∷◌, ◌++◌, append-nil}
use fagprojekt.Threads.Lines.{
  LineSystem, Line, receive_packet, ask_space, drop_packet, accept_packet, return, split_data,
  copy_data, move_head, compare, set_full, test_space, find_empty, find_byte, write_byte, load_byte,
  move_tail, clear_full, serve, send, test, read,
}

-- A line of the server adds to the accepted packets and to the bytes written.
abbrev pub Grown : List (List ℕ) → List (List ℕ) → List ℕ → List ℕ → Type 0
Grown ps ps' out out' =
    (more : List (List ℕ)) × (written : List ℕ) × (ps' ≡ ps ++ more) × (out' ≡ out ++ written)

same : (ps : List (List ℕ)) (out : List ℕ) → Grown ps ps out out
same ps out = ([], [], sym (append-nil ps), sym (append-nil out))

pub Line-Grown : {s t : LineSystem} → Line s t → Grown s.accepted t.accepted s.out t.out
Line-Grown {s} (serve (receive_packet p e)) = same s.accepted s.out
Line-Grown {s} (serve (ask_space p a a' e asked)) = same s.accepted s.out
Line-Grown {s} (serve (drop_packet p n e tested)) = same s.accepted s.out
Line-Grown {s} (serve (accept_packet p n e pos size tested)) =
    (p ∷ [], [], refl, sym (append-nil s.out))
Line-Grown {s} (serve (return e)) = same s.accepted s.out
Line-Grown {s} (send (split_data c cs e over)) = same s.accepted s.out
Line-Grown {s} (send (copy_data c cs block e under done)) = same s.accepted s.out
Line-Grown {s} (send (move_head c cs e)) = same s.accepted s.out
Line-Grown {s} (send (compare cs e)) = same s.accepted s.out
Line-Grown {s} (send (set_full full cs e)) = same s.accepted s.out
Line-Grown {s} (test (test_space a a' e asked)) = same s.accepted s.out
Line-Grown {s} (test (find_empty n e tested)) = same s.accepted s.out
Line-Grown {s} (test (find_byte n e tested)) = same s.accepted s.out
Line-Grown {s} (test (write_byte x e)) = ([], x ∷ [], sym (append-nil s.accepted), refl)
Line-Grown {s} (read (load_byte x e done)) = same s.accepted s.out
Line-Grown {s} (read (move_tail x e)) = same s.accepted s.out
Line-Grown {s} (read (clear_full x e)) = same s.accepted s.out
