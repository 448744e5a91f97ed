-- ===== src/Fifo/Polling.antt =====
-- What the polling loops do with a device that is a FIFO and is served in time.
use fagprojekt.Base.{
  ℕ, zero, suc, ◌<◌, ◌≡◌, ◌∙◌, ap, sym, true, false, List, [], ◌∷◌, ◌++◌, length, arith, Bool-cases,
  inl, inr, Outcome, ok,
}
use fagprojekt.Fifo.{
  FifoDevice, fifo_wait_time, tx_full, rx_empty, write_fifo_blocking, read_fifo_blocking,
}
use fagprojekt.Fifo.Laws.{IsFifo, slept}

module _ (fifo : FifoDevice) (incoming outgoing : fifo.Device → List ℕ) (patience : ℕ)
    (laws : IsFifo fifo incoming outgoing patience) where
  open fifo use {Device, write_tx, read_rx, sleep}

  -- What a write that ends has done, and what a read that ends has done.
  abbrev Wrote : ℕ → Device → Outcome Device → Type 0
  Wrote x d r =
      (d' : Device) × (r ≡ ok d')
      × (outgoing d' ≡ outgoing d ++ (x ∷ []))
      × (incoming d' ≡ incoming d)

  abbrev Took : Device → Outcome (ℕ × Device) → Type 0
  Took d r =
      (x : ℕ) × (d' : Device) × (r ≡ ok (x, d'))
      × (incoming d ≡ x ∷ incoming d')
      × (outgoing d' ≡ outgoing d)

  write_now :
      (fuel x : ℕ) (d : Device)
      → tx_full fifo d ≡ false
      → Wrote x d (write_fifo_blocking fifo (suc fuel) x d)
  unfolding write_fifo_blocking
  write_now fuel x d free =
      (write_tx x d, rw (free, write_fifo_blocking), (laws.push x d free).0, (laws.push x d free).1)

  write_wait :
      (fuel x : ℕ) (d : Device)
      → tx_full fifo d ≡ true
      → Wrote x (sleep fifo_wait_time d) (write_fifo_blocking fifo fuel x (sleep fifo_wait_time d))
      → Wrote x d (write_fifo_blocking fifo (suc fuel) x d)
  unfolding write_fifo_blocking
  write_wait fuel x d full (d', done, out, inc) =
      let (i, o) = laws.idle fifo_wait_time d in
      (d', rw (full, write_fifo_blocking) done, out ∙ ap (λ l. l ++ (x ∷ [])) o, inc ∙ i)

  write_within :
      (k fuel x : ℕ) (d : Device)
      → k < fuel
      → tx_full fifo (slept fifo k d) ≡ false
      → Wrote x d (write_fifo_blocking fifo fuel x d)
  write_within k zero x d h free = absurd (omega arith)
  write_within zero (suc fuel) x d h free = write_now fuel x d free
  write_within (suc k) (suc fuel) x d h free = elim (Bool-cases (tx_full fifo d)) [
    | inl full ↦
        write_wait fuel x d full (write_within k fuel x (sleep fifo_wait_time d) (omega arith) free)
    | inr now ↦ write_now fuel x d now
  ]

  read_now :
      (fuel : ℕ) (d : Device)
      → rx_empty fifo d ≡ false
      → Took d (read_fifo_blocking fifo (suc fuel) d)
  unfolding read_fifo_blocking
  read_now fuel d there =
      let (i, o) = laws.pull d there in
      ((read_rx d).0, (read_rx d).1, rw (there, read_fifo_blocking), i, o)

  read_wait :
      (fuel : ℕ) (d : Device)
      → rx_empty fifo d ≡ true
      → Took (sleep fifo_wait_time d) (read_fifo_blocking fifo fuel (sleep fifo_wait_time d))
      → Took d (read_fifo_blocking fifo (suc fuel) d)
  unfolding read_fifo_blocking
  read_wait fuel d empty (x, d', done, inc, out) =
      let (i, o) = laws.idle fifo_wait_time d in
      (x, d', rw (empty, read_fifo_blocking) done, sym i ∙ inc, out ∙ o)

  read_within :
      (k fuel : ℕ) (d : Device)
      → k < fuel
      → rx_empty fifo (slept fifo k d) ≡ false
      → Took d (read_fifo_blocking fifo fuel d)
  read_within k zero d h there = absurd (omega arith)
  read_within zero (suc fuel) d h there = read_now fuel d there
  read_within (suc k) (suc fuel) d h there = elim (Bool-cases (rx_empty fifo d)) [
    | inl empty ↦
        read_wait fuel d empty (read_within k fuel (sleep fifo_wait_time d) (omega arith) there)
    | inr now ↦ read_now fuel d now
  ]

  -- With more polls than the device's patience a blocking write ends: it puts its byte last among
  -- the outgoing ones, once, and takes nothing from the incoming ones.
  pub write_fifo_blocking_lem :
      (fuel x : ℕ) (d : Device)
      → patience < fuel
      → (d' : Device) × (write_fifo_blocking fifo fuel x d ≡ ok d')
        × (outgoing d' ≡ outgoing d ++ (x ∷ []))
        × (incoming d' ≡ incoming d)
  write_fifo_blocking_lem fuel x d h =
      let (k, near, free) = laws.drains d in write_within k fuel x d (omega arith) free

  -- With more polls than the device's patience a blocking read of a FIFO to which a byte is still
  -- to come ends: it takes the first of the incoming bytes, and leaves the outgoing ones.
  pub read_fifo_blocking_lem :
      (fuel : ℕ) (d : Device)
      → patience < fuel
      → 0 < length (incoming d)
      → (x : ℕ) × (d' : Device) × (read_fifo_blocking fifo fuel d ≡ ok (x, d'))
        × (incoming d ≡ x ∷ incoming d')
        × (outgoing d' ≡ outgoing d)
  read_fifo_blocking_lem fuel d h more =
      let (k, near, there) = laws.arrives d more in read_within k fuel d (omega arith) there
