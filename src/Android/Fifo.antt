-- ===== src/Android/Fifo.antt =====
-- androidServer/src/fifo/fifo.c: the code of the video program's fifo.c with the addresses of the
-- control FIFOs; a value of the receive FIFO is a word of the size of `unsigned long`. No other
-- file calls these functions.
use fagprojekt.Base.{ℕ, ◌≡◌, ◌⊎◌, inl, inr, refl, true, false, List, [], ◌∷◌, ◌++◌, Bool-cases}
use fagprojekt.Process.{Process}
use fagprojekt.Fifo
use fagprojekt.Fifo.{FifoDevice, tx_full, rx_empty}
use fagprojekt.Fifo.Laws.{IsFifo}
use fagprojekt.Fifo.Mapping
use fagprojekt.Fifo.Mapping.{Mappings, control_layout}

abbrev pub open_physical_memory_device : Process Mappings (Unit {0})
open_physical_memory_device = Mapping.open_physical_memory_device

abbrev pub close_physical_memory_device : Process Mappings (Unit {0})
close_physical_memory_device = Mapping.close_physical_memory_device

abbrev pub mmap_fpga_peripherals : Process Mappings (Unit {0})
mmap_fpga_peripherals = Mapping.mmap_fpga_peripherals control_layout

abbrev pub munmap_fpga_peripherals : Process Mappings (Unit {0})
munmap_fpga_peripherals = Mapping.munmap_fpga_peripherals

module _ (fifo : FifoDevice) where
  open fifo use {Device}

  unfoldable pub send_data_fifo : ℕ → Device → ℕ × Device
  send_data_fifo = Fifo.send_data_fifo fifo

  unfoldable pub read_data_fifo : ℕ → Device → ℕ × ℕ × Device
  read_data_fifo = Fifo.read_data_fifo fifo

module _ (fifo : FifoDevice) (incoming outgoing : fifo.Device → List ℕ) (patience : ℕ)
    (laws : IsFifo fifo incoming outgoing patience) where
  open fifo use {Device, write_tx, read_rx}

  abbrev pub Sent : ℕ → Device → Type 0
  Sent x d =
      (status : ℕ) × (d' : Device) × (send_data_fifo fifo x d ≡ (status, d'))
      × (incoming d' ≡ incoming d)
      × (((tx_full fifo d ≡ false) × (status ≡ 0) × (outgoing d' ≡ outgoing d ++ (x ∷ [])))
          ⊎ ((tx_full fifo d ≡ true) × (status ≡ 1) × (d' ≡ d)))

  sent : (x : ℕ) (d : Device) → Sent x d
  unfolding send_data_fifo Fifo.send_data_fifo
  sent x d = elim (Bool-cases (tx_full fifo d)) [
    | inl full ↦ (1, d, rw full refl, refl, inr (full, refl, refl))
    | inr free ↦
        let (out, inc) = laws.push x d free in
        (0, write_tx x d, rw free refl, inc, inl (free, refl, out))
  ]

  abbrev pub Taken : ℕ → Device → Type 0
  Taken old d =
      (status x : ℕ) × (d' : Device) × (read_data_fifo fifo old d ≡ (status, x, d'))
      × (outgoing d' ≡ outgoing d)
      × (((rx_empty fifo d ≡ false) × (status ≡ 0) × (incoming d ≡ x ∷ incoming d'))
          ⊎ ((rx_empty fifo d ≡ true) × (status ≡ 1) × (x ≡ old) × (d' ≡ d)))

  taken : (old : ℕ) (d : Device) → Taken old d
  unfolding read_data_fifo Fifo.read_data_fifo
  taken old d = elim (Bool-cases (rx_empty fifo d)) [
    | inl empty ↦ (1, old, d, rw empty refl, refl, inr (empty, refl, refl, refl))
    | inr there ↦
        let (inc, out) = laws.pull d there in
        (0, (read_rx d).0, (read_rx d).1, rw there refl, out, inl (there, refl, inc))
  ]

  -- For a device that is a FIFO: send_data_fifo returns 0 with its value put last among the outgoing
  -- ones, or 1 with the device as it was, exactly if the transmit FIFO is full, and takes nothing
  -- from what comes in; read_data_fifo returns 0 and the first of the incoming values, which it
  -- takes, or 1 with what `*dataPtr` held and the device as it was, exactly if the receive FIFO is
  -- empty, and leaves the outgoing values.
  pub data_fifo_lem : (x old : ℕ) (d : Device) → Sent x d × Taken old d
  data_fifo_lem x old d = (sent x d, taken old d)
