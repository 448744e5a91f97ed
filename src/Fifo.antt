-- ===== src/Fifo.antt =====
-- VideoServer/src/fifo.c: bytes to and from the FPGA's FIFOs through their memory-mapped registers.
pub mod Laws
pub mod Polling
pub mod Mapping
pub mod Opening
pub mod Registers
use Prim.Native.Nat.{bit_and}
use fagprojekt.Base.{
  ℕ, zero, suc, ◌+◌, Bool, true, false, not, List, [], ◌∷◌, ◌==◌, if◌then◌else◌, Outcome, ok,
  pending,
}

-- The registers that the program reads and writes. A read of the data register takes a value off
-- the FIFO; `sleep` is what the FPGA does while the program sleeps for some microseconds.
pub record FifoDevice : Type 1 where
  pub Device : Type 0
  pub tx_status : Device → ℕ
  pub rx_status : Device → ℕ
  pub write_tx : ℕ → Device → Device
  pub read_rx : Device → ℕ × Device
  pub sleep : ℕ → Device → Device

abbrev pub fifo_wait_time : ℕ
fifo_wait_time = 250

-- The status macros: bit 0 is "full", bit 1 is "empty".
unfoldable pub full_bit : ℕ → Bool
full_bit status = not (bit_and status 1 == 0)

unfoldable pub empty_bit : ℕ → Bool
empty_bit status = not (bit_and status 2 == 0)

module _ (fifo : FifoDevice) where
  open fifo use {Device, tx_status, rx_status, write_tx, read_rx, sleep}

  abbrev pub tx_full : Device → Bool
  tx_full d = full_bit (tx_status d)

  abbrev pub rx_empty : Device → Bool
  rx_empty d = empty_bit (rx_status d)

  -- 0 on success, 1 if the FIFO is full
  unfoldable pub send_data_fifo : ℕ → Device → ℕ × Device
  send_data_fifo x d = if tx_full d then (1, d) else (0, write_tx x d)

  unfoldable pub write_fifo_blocking : ℕ → ℕ → Device → Outcome Device
  write_fifo_blocking zero x d = pending
  write_fifo_blocking (suc fuel) x d = elim (tx_full d) [
    | true ↦ write_fifo_blocking fuel x (sleep fifo_wait_time d)
    | false ↦ ok (write_tx x d)
  ]

  -- `old` is what `*dataPtr` held; the result is 0 on success, 1 if the FIFO is empty.
  unfoldable pub read_data_fifo : ℕ → Device → ℕ × ℕ × Device
  read_data_fifo old d = let (x, d') = read_rx d in if rx_empty d then (1, old, d) else (0, x, d')

  unfoldable pub read_fifo_blocking : ℕ → Device → Outcome (ℕ × Device)
  read_fifo_blocking zero d = pending
  read_fifo_blocking (suc fuel) d = elim (rx_empty d) [
    | true ↦ read_fifo_blocking fuel (sleep fifo_wait_time d)
    | false ↦ ok (read_rx d)
  ]
