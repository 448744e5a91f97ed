-- ===== src/Board/Video.antt =====
-- The slaves of the FPGA's two bridges, as VideoServer/src/hps_soc_system.h describes them.
use fagprojekt.Board.{FifoSlave, PioSlave, none}

abbrev pub fifo_rx_video_out : FifoSlave
fifo_rx_video_out = record {
  component_name = "fifo_rx_video";
  base = 0;
  span = 1;
  end = 0;
  avalonmm_avalonmm_data_width = 8;
  avalonmm_avalonst_data_width = 32;
  bits_per_symbol = 16;
  channel_width = 8;
  error_width = 8;
  fifo_depth = 2048;
  single_clock_mode = 0;
  symbols_per_beat = 2;
  use_avalonmm_read_slave = 1;
  use_avalonmm_write_slave = 1;
  use_avalonst_sink = 0;
  use_avalonst_source = 0;
  use_backpressure = 0;
  use_irq = 0;
  use_packet = 1;
  use_read_control = 1;
  use_register = 0;
  use_write_control = 1;
}

abbrev pub fifo_rx_video_out_csr : FifoSlave
fifo_rx_video_out_csr = record {
  component_name = "fifo_rx_video";
  base = 0;
  span = 32;
  end = 31;
  avalonmm_avalonmm_data_width = 8;
  avalonmm_avalonst_data_width = 32;
  bits_per_symbol = 16;
  channel_width = 8;
  error_width = 8;
  fifo_depth = 2048;
  single_clock_mode = 0;
  symbols_per_beat = 2;
  use_avalonmm_read_slave = 1;
  use_avalonmm_write_slave = 1;
  use_avalonst_sink = 0;
  use_avalonst_source = 0;
  use_backpressure = 0;
  use_irq = 0;
  use_packet = 1;
  use_read_control = 1;
  use_register = 0;
  use_write_control = 1;
}

abbrev pub fifo_tx_video_in : FifoSlave
fifo_tx_video_in = record {
  component_name = "fifo_tx_video";
  base = 1;
  span = 1;
  end = 1;
  avalonmm_avalonmm_data_width = 8;
  avalonmm_avalonst_data_width = 32;
  bits_per_symbol = 16;
  channel_width = 8;
  error_width = 8;
  fifo_depth = 2048;
  single_clock_mode = 0;
  symbols_per_beat = 2;
  use_avalonmm_read_slave = 1;
  use_avalonmm_write_slave = 1;
  use_avalonst_sink = 0;
  use_avalonst_source = 0;
  use_backpressure = 0;
  use_irq = 0;
  use_packet = 1;
  use_read_control = 1;
  use_register = 0;
  use_write_control = 1;
}

abbrev pub fifo_control_rx_out_csr : FifoSlave
fifo_control_rx_out_csr = record {
  component_name = "fifo_control_rx";
  base = 32;
  span = 32;
  end = 63;
  avalonmm_avalonmm_data_width = 32;
  avalonmm_avalonst_data_width = 32;
  bits_per_symbol = 16;
  channel_width = 8;
  error_width = 8;
  fifo_depth = 8;
  single_clock_mode = 0;
  symbols_per_beat = 2;
  use_avalonmm_read_slave = 1;
  use_avalonmm_write_slave = 1;
  use_avalonst_sink = 0;
  use_avalonst_source = 0;
  use_backpressure = 0;
  use_irq = 0;
  use_packet = 1;
  use_read_control = 1;
  use_register = 0;
  use_write_control = 1;
}

abbrev pub fifo_control_tx_in_csr : FifoSlave
fifo_control_tx_in_csr = record {
  component_name = "fifo_control_tx";
  base = 64;
  span = 32;
  end = 95;
  avalonmm_avalonmm_data_width = 8;
  avalonmm_avalonst_data_width = 32;
  bits_per_symbol = 16;
  channel_width = 8;
  error_width = 8;
  fifo_depth = 8;
  single_clock_mode = 0;
  symbols_per_beat = 2;
  use_avalonmm_read_slave = 1;
  use_avalonmm_write_slave = 1;
  use_avalonst_sink = 0;
  use_avalonst_source = 0;
  use_backpressure = 0;
  use_irq = 0;
  use_packet = 1;
  use_read_control = 1;
  use_register = 0;
  use_write_control = 1;
}

abbrev pub fifo_tx_video_in_csr : FifoSlave
fifo_tx_video_in_csr = record {
  component_name = "fifo_tx_video";
  base = 96;
  span = 32;
  end = 127;
  avalonmm_avalonmm_data_width = 8;
  avalonmm_avalonst_data_width = 32;
  bits_per_symbol = 16;
  channel_width = 8;
  error_width = 8;
  fifo_depth = 2048;
  single_clock_mode = 0;
  symbols_per_beat = 2;
  use_avalonmm_read_slave = 1;
  use_avalonmm_write_slave = 1;
  use_avalonst_sink = 0;
  use_avalonst_source = 0;
  use_backpressure = 0;
  use_irq = 0;
  use_packet = 1;
  use_read_control = 1;
  use_register = 0;
  use_write_control = 1;
}

abbrev pub hps_fpga_switches : PioSlave
hps_fpga_switches = record {
  component_name = "hps_fpga_switches";
  base = 128;
  span = 16;
  end = 143;
  bit_clearing_edge_register = 0;
  bit_modifying_output_register = 0;
  capture = 0;
  data_width = 10;
  do_test_bench_wiring = 0;
  driven_sim_value = 0;
  edge_type = none;
  freq = 50000000;
  has_in = 1;
  has_out = 0;
  has_tri = 0;
  irq_type = none;
  reset_value = 0;
}

abbrev pub hps_fpga_leds : PioSlave
hps_fpga_leds = record {
  component_name = "hps_fpga_leds";
  base = 144;
  span = 16;
  end = 159;
  bit_clearing_edge_register = 0;
  bit_modifying_output_register = 0;
  capture = 0;
  data_width = 10;
  do_test_bench_wiring = 0;
  driven_sim_value = 0;
  edge_type = none;
  freq = 50000000;
  has_in = 0;
  has_out = 1;
  has_tri = 0;
  irq_type = none;
  reset_value = 0;
}

abbrev pub fifo_control_rx_out : FifoSlave
fifo_control_rx_out = record {
  component_name = "fifo_control_rx";
  base = 160;
  span = 4;
  end = 163;
  avalonmm_avalonmm_data_width = 32;
  avalonmm_avalonst_data_width = 32;
  bits_per_symbol = 16;
  channel_width = 8;
  error_width = 8;
  fifo_depth = 8;
  single_clock_mode = 0;
  symbols_per_beat = 2;
  use_avalonmm_read_slave = 1;
  use_avalonmm_write_slave = 1;
  use_avalonst_sink = 0;
  use_avalonst_source = 0;
  use_backpressure = 0;
  use_irq = 0;
  use_packet = 1;
  use_read_control = 1;
  use_register = 0;
  use_write_control = 1;
}

abbrev pub fifo_control_tx_in : FifoSlave
fifo_control_tx_in = record {
  component_name = "fifo_control_tx";
  base = 164;
  span = 1;
  end = 164;
  avalonmm_avalonmm_data_width = 8;
  avalonmm_avalonst_data_width = 32;
  bits_per_symbol = 16;
  channel_width = 8;
  error_width = 8;
  fifo_depth = 8;
  single_clock_mode = 0;
  symbols_per_beat = 2;
  use_avalonmm_read_slave = 1;
  use_avalonmm_write_slave = 1;
  use_avalonst_sink = 0;
  use_avalonst_source = 0;
  use_backpressure = 0;
  use_irq = 0;
  use_packet = 1;
  use_read_control = 1;
  use_register = 0;
  use_write_control = 1;
}
