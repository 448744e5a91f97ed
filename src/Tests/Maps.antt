-- ===== src/Tests/Maps.antt =====
-- The registers mapped and unmapped, their places on the board, and the socket of the video program.
use fagprojekt.Base.{◌%◌, ◌^◌, htons, ℕ, ◌≡◌, refl, true, ◌↔◌, none, some, List, [], ◌∷◌, arith, ok}
use fagprojekt.Connection.{SockAddr, addr_match}
use fagprojekt.Connection.Sockets.{
  Sockets, init_client_socket_udp, init_client_socket_udp-addr_match,
}
use fagprojekt.Board.Video
use fagprojekt.Board.Control
use fagprojekt.Board.Decode.{h2f_lw, windows, windows_unique}
use fagprojekt.Fifo.Registers.{Accesses, mmap_fpga_peripherals-Accesses}
use fagprojekt.Process.{◌>>◌}
use fagprojekt.Fifo.Mapping.{
  Mappings, control_layout, mmap, munmap, video_layout, h2f_lw_axi_master_span,
  h2f_lw_axi_master_ofst, h2f_axi_master_span, h2f_axi_master_ofst, mmap_fpga_peripherals,
  munmap_fpga_peripherals, munmap-mmap,
}

abbrev pub unmapped : List ℕ → Mappings
unmapped results = record {
  fd_dev_mem = 3;
  h2f_lw_axi_master = none;
  h2f_axi_master = none;
  transmit_ptr = none;
  txstatus_ptr = none;
  receive_ptr = none;
  rxstatus_ptr = none;
  results = results;
  calls = [];
}

munmap-mmap_example :
    (mmap_fpga_peripherals video_layout >> munmap_fpga_peripherals)
      (unmapped (4096 ∷ 8192 ∷ 0 ∷ 0 ∷ []))
    ≡ ok (
      tt,
      record (unmapped []) {
        calls =
            mmap h2f_lw_axi_master_span 3 h2f_lw_axi_master_ofst
            ∷ mmap h2f_axi_master_span 3 h2f_axi_master_ofst
            ∷ munmap (some 4096) h2f_lw_axi_master_span
            ∷ munmap (some 8192) h2f_axi_master_span
            ∷ [];
      },
    )
munmap-mmap_example =
    munmap-mmap 4096 8192 [] video_layout (unmapped (4096 ∷ 8192 ∷ 0 ∷ 0 ∷ [])) (λ e. omega arith)
      (λ e. omega arith) refl

abbrev pub closed : List ℕ → Sockets
closed results = record {
  sockfd = 0;
  own_addr = record { family = 0; addr = 0; port = 0 };
  results = results;
  calls = [];
}

init_client_socket_udp-addr_match_example :
    (server_addr : SockAddr) × (s : Sockets) × (init_client_socket_udp 7 66873 (closed (4 ∷ []))
      ≡ ok (server_addr, s))
    × (s.sockfd ≡ 4)
    × ((addr_match (record { family = 2; addr = 8; port = htons 1337 }) server_addr ≡ true)
        ↔ ((◌≡◌ {A = ℕ} 8 7) × (◌≡◌ {A = ℕ} 1337 (66873 % 2 ^ 16))))
init_client_socket_udp-addr_match_example =
    init_client_socket_udp-addr_match 4 7 66873 8 1337 [] (closed (4 ∷ [])) (λ e. omega arith)
      (omega arith) refl

mmap_fpga_peripherals-Accesses_example :
    ((s' : Mappings) × (mmap_fpga_peripherals video_layout (unmapped (4096 ∷ 8192 ∷ []))
        ≡ ok (tt, s'))
      × Accesses s' 4096 8192 1 Video.fifo_tx_video_in Video.fifo_tx_video_in_csr
          Video.fifo_rx_video_out Video.fifo_rx_video_out_csr)
    × (s' : Mappings) × (mmap_fpga_peripherals control_layout (unmapped (4096 ∷ 8192 ∷ []))
        ≡ ok (tt, s'))
    × Accesses s' 4096 8192 4 Control.fifo_control_tx_in Control.fifo_control_tx_in_csr
        Control.fifo_control_rx_out Control.fifo_control_rx_out_csr
mmap_fpga_peripherals-Accesses_example =
    mmap_fpga_peripherals-Accesses 4096 8192 [] (unmapped (4096 ∷ 8192 ∷ [])) (λ e. omega arith)
      (λ e. omega arith) refl (omega arith) (omega arith)

-- The address of the LEDs' first register, behind the lightweight bridge.
windows_unique_example : ◌≡◌ {A = ℕ} 5 5
unfolding windows
windows_unique_example = windows_unique h2f_lw 0x90 5 5 refl refl (omega arith) (omega arith)
