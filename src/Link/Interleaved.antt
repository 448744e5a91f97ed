-- ===== src/Link/Interleaved.antt =====
-- The client behind a server whose two threads are interleaved.
use fagprojekt.Base.{
  ℕ, ◌≤◌, ◌<◌, ◌≡◌, false, sym, ◌∙◌, ap, List, [], ◌∷◌, ◌++◌, length, take, drop, ok,
  take-append-drop, take-append_of_le, take-append_length,
}
use fagprojekt.Buffer.{CircularBuf}
use fagprojekt.Buffer.Invariant.{IsValid, contents}
use fagprojekt.Connection.{SockAddr, max_packet_size}
use fagprojekt.Fifo.{FifoDevice}
use fagprojekt.Fifo.Laws.{IsFifo}
use fagprojekt.Server.Frames.{frames}
use fagprojekt.Threads.Invariant.{frames-append}
use fagprojekt.Threads.Lines.{
  LineSystem, Line, receive_packet, ask_space, drop_packet, accept_packet, find_empty, find_byte,
  write_byte, test, here, later, test_space, serve, send, read, return, split_data, copy_data,
  move_head, compare, set_full, load_byte, move_tail, clear_full, LineReach,
}
use fagprojekt.Threads.Lines.Stream.{lines_stream}
use fagprojekt.Client.{Client, video_send_loop}
use fagprojekt.Client.Stream.{AllFit, addressed, video_send_loop_lem}

pub AllFit-append : (ps qs : List (List ℕ)) → AllFit ps → AllFit qs → AllFit (ps ++ qs)
AllFit-append [] qs f g = g
AllFit-append (p ∷ ps) qs (size, f) g = (size, AllFit-append ps qs f g)

AllFit-prefix : (ps qs : List (List ℕ)) → AllFit (ps ++ qs) → AllFit ps
AllFit-prefix [] qs f = tt
AllFit-prefix (p ∷ ps) qs (size, f) = (size, AllFit-prefix ps qs f)

Line-AllFit : {s t : LineSystem} → Line s t → AllFit s.accepted → AllFit t.accepted
Line-AllFit (serve (receive_packet p e)) f = f
Line-AllFit (serve (ask_space p a a' e asked)) f = f
Line-AllFit (serve (drop_packet p n e tested)) f = f
Line-AllFit {s} (serve (accept_packet p n e pos size tested)) f =
    AllFit-append s.accepted (p ∷ []) f (size, tt)
Line-AllFit (serve (return e)) f = f
Line-AllFit (send (split_data c cs e over)) f = f
Line-AllFit (send (copy_data c cs block e under done)) f = f
Line-AllFit (send (move_head c cs e)) f = f
Line-AllFit (send (compare cs e)) f = f
Line-AllFit (send (set_full full cs e)) f = f
Line-AllFit (test (test_space a a' e asked)) f = f
Line-AllFit (test (find_empty n e tested)) f = f
Line-AllFit (test (find_byte n e tested)) f = f
Line-AllFit (test (write_byte x e)) f = f
Line-AllFit (read (load_byte x e done)) f = f
Line-AllFit (read (move_tail x e)) f = f
Line-AllFit (read (clear_full x e)) f = f

pub LineReach-AllFit : {b : CircularBuf} {s : LineSystem} → LineReach b s → AllFit s.accepted
LineReach-AllFit here = tt
LineReach-AllFit (later r l) = Line-AllFit l (LineReach-AllFit r)

-- What begins with both `a` and `f`, `f` being no longer.
prefix_of :
    (a a' f f' : List ℕ) → a ++ a' ≡ f ++ f' → length f ≤ length a → a ≡ f ++ drop (length f) a
prefix_of a a' f f' e h =
    sym (take-append-drop (length f) a)
    ∙ ap (λ l. l ++ drop (length f) a)
        (sym (take-append_of_le (length f) a a' h)
          ∙ ap (take (length f)) e
          ∙ take-append_length f f')

module _ (fifo_c : FifoDevice) (in_c out_c : fifo_c.Device → List ℕ) (patience_c : ℕ)
    (laws_c : IsFifo fifo_c in_c out_c patience_c) (polls_c : ℕ) (enough_c : patience_c < polls_c)
    (link : List ℕ → fifo_c.Device) (delivers : (l : List ℕ) → in_c (link l) ≡ l)
    (server_addr : SockAddr) where
  -- The client on the bytes `out`, which begin with the frames of `ps`.
  Forwards : List (List ℕ) → List ℕ → List ℕ → Client fifo_c.Device → Type 0
  Forwards ps out bytes c =
      (bytes' : List ℕ) × (c' : Client fifo_c.Device) × (video_send_loop fifo_c polls_c server_addr
          (length ps) bytes (record c { dev = link out })
        ≡ ok (bytes', c'))
      × (c'.net.sent ≡ c.net.sent ++ addressed server_addr ps)
      × (in_c c'.dev ≡ drop (length (frames ps)) out)

  forwards :
      (ps qs : List (List ℕ)) (out rest bytes : List ℕ) (c : Client fifo_c.Device)
      → AllFit (ps ++ qs)
      → out ++ rest ≡ frames (ps ++ qs)
      → length (frames ps) ≤ length out
      → length bytes ≡ max_packet_size
      → Forwards ps out bytes c
  unfolding Forwards
  forwards ps qs out rest bytes c fit stream enough len =
      let (bytes', c', sent, net, left, _) =
        video_send_loop_lem fifo_c in_c out_c patience_c laws_c polls_c enough_c server_addr ps
          (drop (length (frames ps)) out) bytes (record c { dev = link out })
          (AllFit-prefix ps qs fit)
          (delivers out
            ∙ prefix_of out rest (frames ps) (frames qs) (stream ∙ frames-append ps qs) enough)
          len in
      (bytes', c', sent, ap (λ n. n.sent) net, left)

  -- In every state that the server's threads reach from a valid and empty
  -- buffer in any order of their lines, as long as `send_data_buffer` has never set `full` to true,
  -- when the frames of the first accepted packets `ps` are written to the FIFO, the client that takes
  -- the written bytes from the link sends on `ps` in as many passes, unchanged and in order, and what
  -- it leaves are the bytes written behind those frames.
  pub lines_prefix_lem :
      {b : CircularBuf} {s : LineSystem} (ps qs : List (List ℕ)) (bytes : List ℕ)
      (c : Client fifo_c.Device)
      → IsValid b
      → contents b ≡ []
      → LineReach b s
      → s.marked ≡ false
      → s.accepted ≡ ps ++ qs
      → length (frames ps) ≤ length s.out
      → length bytes ≡ max_packet_size
      → (bytes' : List ℕ) × (c' : Client fifo_c.Device) × (video_send_loop fifo_c polls_c
            server_addr
            (length ps)
            bytes
            (record c { dev = link s.out })
          ≡ ok (bytes', c'))
        × (c'.net.sent ≡ c.net.sent ++ addressed server_addr ps)
        × (in_c c'.dev ≡ drop (length (frames ps)) s.out)
  unfolding Forwards
  lines_prefix_lem {s = s} ps qs bytes c v e r clean accepted enough len =
      forwards ps qs s.out _ bytes c (rw (sym accepted) (LineReach-AllFit r))
        ((lines_stream v e r clean).0 ∙ ap frames accepted) enough len
