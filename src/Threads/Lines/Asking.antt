-- ===== src/Threads/Lines/Asking.antt =====
-- The runs of the lines of `get_space` (VideoServer/src/buffer.c) that the other thread does not
-- interrupt.
use fagprojekt.Base.{ℕ, ◌≡◌, refl, sym, subst, List, true, false}
use fagprojekt.Buffer.{CircularBuf, get_space, buffer_is_empty}
use fagprojekt.Buffer.Space.{entered, answered, space_lines}
use fagprojekt.Threads.Lines.{
  idle, asking, testing, reading, LineSystem, receive_packet, ask_space, test_space, find_empty,
  find_byte, serve, test, LineReach, later,
}

module _ {b : CircularBuf} (s : LineSystem) (r : LineReach b s) where
  -- The receiving thread has the free space for a new packet.
  pub ask_lines :
      (p : List ℕ)
      → s.sender ≡ idle
      → LineReach b (record s { sender = asking p (answered (get_space s.buffer)) })
  ask_lines p e =
      space_lines s.buffer (λ a. LineReach b (record s { sender = asking p a }))
        (λ a a' asked reach. later reach (serve (ask_space p a a' refl asked)))
        (later r (serve (receive_packet p e)))

  test_lines :
      s.writer ≡ testing entered
      → LineReach b (record s { writer = testing (answered (get_space s.buffer)) })
  test_lines e =
      space_lines s.buffer (λ a. LineReach b (record s { writer = testing a }))
        (λ a a' asked reach. later reach (test (test_space a a' refl asked)))
        (subst (λ w. LineReach b (record s { writer = w })) e r)

  -- The test of the writing thread comes out as `buffer_is_empty` does.
  pub empty_lines : s.writer ≡ testing entered → buffer_is_empty s.buffer ≡ true → LineReach b s
  unfolding buffer_is_empty
  empty_lines e empty =
      subst (λ w. LineReach b (record s { writer = w })) (sym e)
        (later (test_lines e) (test (find_empty _ refl empty)))

  pub byte_lines :
      s.writer ≡ testing entered
      → buffer_is_empty s.buffer ≡ false
      → LineReach b (record s { writer = reading })
  unfolding buffer_is_empty
  byte_lines e more = later (test_lines e) (test (find_byte _ refl more))
