-- ===== src/Fifo/Registers.antt =====
-- What the pointers that `mmap_fpga_peripherals` makes point to, against hps_soc_system.h.
use fagprojekt.Base.{
  ℕ, ◌+◌, ◌^◌, ◌≤◌, ◌<◌, ◌≡◌, ◌≢◌, refl, List, ◌∷◌, Option, some, add32, ok, arith,
}
use fagprojekt.Board.{FifoSlave}
use fagprojekt.Board.Video
use fagprojekt.Board.Control
use fagprojekt.Fifo.Mapping.{
  Mappings, minus_one, video_layout, control_layout, mapped, mmap_fpga_peripherals,
  mmap_fpga_peripherals-mapped, h2f_lw_axi_master_span, h2f_axi_master_span,
}

-- An access of `width` bytes, `skip` bytes behind where `ptr` points to, stays within the slave in a
-- bridge that is mapped at `bridge`.
abbrev pub InSlave : Option ℕ → ℕ → ℕ → ℕ → FifoSlave → Type 0
InSlave ptr skip width bridge slave =
    (a : ℕ) × (ptr ≡ some a)
    × (bridge + slave.base ≤ a + skip)
    × (a + skip + width ≤ bridge + slave.end + 1)

pointer-InSlave :
    (bridge span skip width : ℕ) (slave : FifoSlave)
    → bridge + span ≤ 2 ^ 32
    → slave.end < span
    → slave.base + skip + width ≤ slave.end + 1
    → 0 < width
    → InSlave (some (add32 bridge slave.base)) skip width bridge slave
pointer-InSlave bridge span skip width slave h inside fits pos =
    (add32 bridge slave.base, refl, omega arith, omega arith)

-- The accesses of fifo.c, when both bridges are mapped below 2 ^ 32: a byte of the transmit and
-- `rx_width` bytes of the receive register, and the second word of each status register.
abbrev pub Accesses : Mappings → ℕ → ℕ → ℕ → FifoSlave → FifoSlave → FifoSlave → FifoSlave → Type 0
Accesses s lw h2f rx_width tx_in tx_in_csr rx_out rx_out_csr =
    InSlave s.transmit_ptr 0 1 h2f tx_in
    × InSlave s.txstatus_ptr 4 4 lw tx_in_csr
    × InSlave s.receive_ptr 0 rx_width h2f rx_out
    × InSlave s.rxstatus_ptr 4 4 lw rx_out_csr

module _ (lw h2f : ℕ) (later : List ℕ) (s : Mappings) (good_lw : lw ≢ minus_one)
    (good_h2f : h2f ≢ minus_one) (results : s.results ≡ lw ∷ h2f ∷ later)
    (low_lw : lw + h2f_lw_axi_master_span ≤ 2 ^ 32)
    (low_h2f : h2f + h2f_axi_master_span ≤ 2 ^ 32) where
  h2f_slave :
      (width : ℕ) (slave : FifoSlave)
      → slave.end < h2f_axi_master_span
      → (0 < width) × (slave.base + width ≤ slave.end + 1)
      → InSlave (some (add32 h2f slave.base)) 0 width h2f slave
  h2f_slave width slave inside (pos, fits) =
      pointer-InSlave h2f h2f_axi_master_span 0 width slave low_h2f inside (omega arith) pos

  -- The second word of a slave's registers.
  lw_slave :
      (slave : FifoSlave)
      → slave.end < h2f_lw_axi_master_span
      → slave.base + 8 ≤ slave.end + 1
      → InSlave (some (add32 lw slave.base)) 4 4 lw slave
  lw_slave slave inside fits =
      pointer-InSlave lw h2f_lw_axi_master_span 4 4 slave low_lw inside (omega arith) (omega arith)

  -- When both calls of `mmap` succeed and the maps end below 2 ^ 32: each access that the video and
  -- the android program make through the pointers of `mmap_fpga_peripherals` stays within the slave
  -- that it is meant for. The receive register is read as a byte by the one and as a word of four
  -- bytes by the other.
  pub mmap_fpga_peripherals-Accesses :
      ((s' : Mappings) × (mmap_fpga_peripherals video_layout s ≡ ok (tt, s'))
        × Accesses s' lw h2f 1 Video.fifo_tx_video_in Video.fifo_tx_video_in_csr
            Video.fifo_rx_video_out Video.fifo_rx_video_out_csr)
      × (s' : Mappings) × (mmap_fpga_peripherals control_layout s ≡ ok (tt, s'))
      × Accesses s' lw h2f 4 Control.fifo_control_tx_in Control.fifo_control_tx_in_csr
          Control.fifo_control_rx_out Control.fifo_control_rx_out_csr
  mmap_fpga_peripherals-Accesses = (
    (
      mapped lw h2f later video_layout s,
      mmap_fpga_peripherals-mapped lw h2f later video_layout s good_lw good_h2f results,
      (
        h2f_slave 1 Video.fifo_tx_video_in (omega arith) (omega arith, omega arith),
        lw_slave Video.fifo_tx_video_in_csr (omega arith) (omega arith),
        h2f_slave 1 Video.fifo_rx_video_out (omega arith) (omega arith, omega arith),
        lw_slave Video.fifo_rx_video_out_csr (omega arith) (omega arith),
      ),
    ),
    mapped lw h2f later control_layout s,
    mmap_fpga_peripherals-mapped lw h2f later control_layout s good_lw good_h2f results,
    (
      h2f_slave 1 Control.fifo_control_tx_in (omega arith) (omega arith, omega arith),
      lw_slave Control.fifo_control_tx_in_csr (omega arith) (omega arith),
      h2f_slave 4 Control.fifo_control_rx_out (omega arith) (omega arith, omega arith),
      lw_slave Control.fifo_control_rx_out_csr (omega arith) (omega arith),
    ),
  )
