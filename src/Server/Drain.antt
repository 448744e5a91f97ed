-- ===== src/Server/Drain.antt =====
-- `fifo_write_thread`: the second thread moves the buffer's bytes to the FIFO.
use fagprojekt.Base.{
  ℕ, zero, suc, ◌-◌, ◌<◌, ◌≡◌, refl, sym, ◌∙◌, ap, List, [], ◌∷◌, ◌++◌, length, arith, ok,
  append_assoc, Bool-cases, inl, inr,
}
use fagprojekt.Buffer.{CircularBuf, buffer_is_empty}
use fagprojekt.Buffer.Invariant.{IsValid, contents}
use fagprojekt.Buffer.Contents.{read_data_buffer_lem, fill_level_lem, length-contents_pos}
use fagprojekt.Fifo.{FifoDevice}
use fagprojekt.Fifo.Laws.{IsFifo}
use fagprojekt.Fifo.Polling.{write_fifo_blocking_lem}
use fagprojekt.Server.{fifo_write_pass, fifo_write_thread}

module _ (fifo : FifoDevice) (incoming outgoing : fifo.Device → List ℕ) (patience : ℕ)
    (laws : IsFifo fifo incoming outgoing patience) (polls : ℕ) (enough : patience < polls) where
  open fifo use {Device, sleep}

  -- What a pass of the thread has done: no byte is lost or made up between buffer and FIFO, and the
  -- buffer is no fuller; if there was a byte it has moved.
  record Moved (b b' : CircularBuf) (d d' : Device) : Type 0 where
    valid : IsValid b'
    same_max : b'.max ≡ b.max
    bytes : outgoing d' ++ contents b' ≡ outgoing d ++ contents b
    fewer : length (contents b') ≡ length (contents b) - 1

  fifo_write_pass_lem :
      (b : CircularBuf) (d : Device)
      → IsValid b
      → (b' : CircularBuf) × (d' : Device) × (fifo_write_pass fifo polls b d ≡ ok (b', d'))
        × Moved b b' d d'
  unfolding fifo_write_pass
  fifo_write_pass_lem b d v = elim (Bool-cases (buffer_is_empty b)) [
    | inl empty ↦
        let none_held : contents b ≡ [] = (fill_level_lem v).1.0 empty in
        (
          b,
          sleep 10000 d,
          rw empty,
          record {
            valid = v;
            same_max = refl;
            bytes = ap (λ l. l ++ contents b) (laws.idle 10000 d).1;
            fewer = omega (arith, ap length none_held);
          },
        )
    | inr some_held ↦
        let (x, b', got, valid, same, split) =
          read_data_buffer_lem v (length-contents_pos v some_held) in
        let (d', wrote, out, _) =
          write_fifo_blocking_lem fifo incoming outgoing patience laws polls x d enough in
        (
          b',
          d',
          rw (some_held, got, wrote),
          record {
            valid = valid;
            same_max = same;
            bytes =
                ap (λ l. l ++ contents b') out
                ∙ append_assoc (outgoing d) (x ∷ []) (contents b')
                ∙ ap (λ l. outgoing d ++ l) (sym split);
            fewer = omega (arith, ap length split);
          },
        )
  ]

  -- Any number of passes of the writing thread ends, given enough polls for each byte: the bytes
  -- that the FIFO has taken and those left in the buffer are together what they were before, in
  -- order, and as many bytes as there were passes have moved, or all.
  pub fifo_write_thread_lem :
      (passes : ℕ) (b : CircularBuf) (d : Device)
      → IsValid b
      → (b' : CircularBuf) × (d' : Device) × (fifo_write_thread fifo passes polls b d ≡ ok (b', d'))
        × IsValid b'
        × (b'.max ≡ b.max)
        × (outgoing d' ++ contents b' ≡ outgoing d ++ contents b)
        × (length (contents b') ≡ length (contents b) - passes)
  unfolding fifo_write_thread
  fifo_write_thread_lem zero b d v = (b, d, refl, v, refl, refl, omega arith)
  fifo_write_thread_lem (suc passes) b d v =
      let (b1, d1, step, m) = fifo_write_pass_lem b d v in
      let (b', d', done, valid, same, bytes, count) = fifo_write_thread_lem passes b1 d1 m.valid in
      (
        b',
        d',
        rw (step, fifo_write_thread) done,
        valid,
        same ∙ m.same_max,
        bytes ∙ m.bytes,
        omega (arith, m.fewer, count),
      )
