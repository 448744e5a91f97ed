-- ===== src/Fifo/Laws.antt =====
-- What the program relies on in the FPGA's FIFOs (altera_avalon_fifo), which are not part of it.
use fagprojekt.Base.{ℕ, zero, suc, ◌≤◌, ◌<◌, ◌≡◌, false, List, [], ◌∷◌, ◌++◌, length}
use fagprojekt.Fifo.{FifoDevice, fifo_wait_time, full_bit, empty_bit}

module _ (fifo : FifoDevice) where
  open fifo use {Device, tx_status, rx_status, write_tx, read_rx, sleep}

  -- The device after `k` waits of a polling loop.
  abbrev pub slept : ℕ → Device → Device
  slept zero d = d
  slept (suc k) d = slept k (sleep fifo_wait_time d)

  -- `incoming` is what the receive side will deliver, in order, and `outgoing` what the transmit
  -- side has taken. A value written while not full goes out last, one read while not empty comes
  -- in first, and waiting loses nothing. The far ends are served: within `patience` waits there is
  -- room, and a value that is to come has come.
  pub record IsFifo (incoming outgoing : Device → List ℕ) (patience : ℕ) : Type 0 where
    pub push :
        (x : ℕ) (d : Device)
        → full_bit (tx_status d) ≡ false
        → (outgoing (write_tx x d) ≡ outgoing d ++ (x ∷ []))
          × (incoming (write_tx x d) ≡ incoming d)
    pub pull :
        (d : Device)
        → empty_bit (rx_status d) ≡ false
        → (incoming d ≡ (read_rx d).0 ∷ incoming (read_rx d).1)
          × (outgoing (read_rx d).1 ≡ outgoing d)
    pub idle :
        (t : ℕ) (d : Device)
        → (incoming (sleep t d) ≡ incoming d) × (outgoing (sleep t d) ≡ outgoing d)
    pub drains :
        (d : Device) → (k : ℕ) × (k ≤ patience) × (full_bit (tx_status (slept k d)) ≡ false)
    pub arrives :
        (d : Device)
        → 0 < length (incoming d)
        → (k : ℕ) × (k ≤ patience) × (empty_bit (rx_status (slept k d)) ≡ false)
