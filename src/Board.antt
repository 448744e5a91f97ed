-- ===== src/Board.antt =====
-- The address map that the programs rely on: hps_soc_system.h, which describes the slaves of the
-- FPGA's bridges, and hps.h, which gives each part of the processor system its window.
pub mod Video
pub mod Control
pub mod Bridges
pub mod Middle
pub mod Upper
pub mod Decode
use Prim.Native.String.{String}
use fagprojekt.Base.{ℕ, ◌+◌, ◌-◌, ◌≤◌}

-- The macros of a slave of the class altera_avalon_fifo.
pub record FifoSlave : Type 0 where
  pub component_name : String
  pub base : ℕ
  pub span : ℕ
  pub end : ℕ
  pub avalonmm_avalonmm_data_width : ℕ
  pub avalonmm_avalonst_data_width : ℕ
  pub bits_per_symbol : ℕ
  pub channel_width : ℕ
  pub error_width : ℕ
  pub fifo_depth : ℕ
  pub single_clock_mode : ℕ
  pub symbols_per_beat : ℕ
  pub use_avalonmm_read_slave : ℕ
  pub use_avalonmm_write_slave : ℕ
  pub use_avalonst_sink : ℕ
  pub use_avalonst_source : ℕ
  pub use_backpressure : ℕ
  pub use_irq : ℕ
  pub use_packet : ℕ
  pub use_read_control : ℕ
  pub use_register : ℕ
  pub use_write_control : ℕ

-- The macro NONE, of an edge or an interrupt.
pub data Trigger : Type 0 where
  none : Trigger

-- The macros of a slave of the class altera_avalon_pio.
pub record PioSlave : Type 0 where
  pub component_name : String
  pub base : ℕ
  pub span : ℕ
  pub end : ℕ
  pub bit_clearing_edge_register : ℕ
  pub bit_modifying_output_register : ℕ
  pub capture : ℕ
  pub data_width : ℕ
  pub do_test_bench_wiring : ℕ
  pub driven_sim_value : ℕ
  pub edge_type : Trigger
  pub freq : ℕ
  pub has_in : ℕ
  pub has_out : ℕ
  pub has_tri : ℕ
  pub irq_type : Trigger
  pub reset_value : ℕ

-- The addresses from `first` to `last`.
pub record Window : Type 0 where
  pub first : ℕ
  pub last : ℕ

-- The macros _LB_ADDR and _UB_ADDR of hps.h for an offset and a size.
abbrev pub window : ℕ → ℕ → Window
window ofst size = record { first = ofst; last = ofst + size - 1 }

abbrev pub Within : ℕ → Window → Type 0
Within x w = (w.first ≤ x) × (x ≤ w.last)
