-- ===== src/Fifo/Mapping.antt =====
-- The mapping of the FPGA's registers into the address space of a process: the functions at the
-- start of VideoServer/src/fifo.c and of androidServer/src/fifo/fifo.c, which differ only in the
-- addresses. The results of `open`, `mmap` and `munmap` are a list in the state.
use fagprojekt.Base.{
  ℕ, ◌+◌, ◌-◌, ◌^◌, ◌≡◌, ◌≢◌, ◌⊎◌, inl, inr, Bool-cases, refl, ◌∙◌, ap, Bool, true, false, List, [],
  ◌∷◌, ◌++◌, ◌==◌, if◌then◌else◌, arith, Option, none, some, add32, ok, exits, pending,
  append_assoc,
}
use fagprojekt.Board.Bridges.{fpga_bridge_h2f128, fpga_bridge_lwh2f}
use fagprojekt.Board.Video
use fagprojekt.Board.Control
use fagprojekt.Process.{Process, ◌>>=◌, ◌>>◌, modify, >>=_step}

-- Offsets of the registers from the start of the two bridges, of hps_soc_system.h.
pub record Layout : Type 0 where
  pub tx_in_base : ℕ
  pub tx_in_csr_base : ℕ
  pub rx_out_base : ℕ
  pub rx_out_csr_base : ℕ

abbrev pub video_layout : Layout
video_layout = record {
  tx_in_base = Video.fifo_tx_video_in.base;
  tx_in_csr_base = Video.fifo_tx_video_in_csr.base;
  rx_out_base = Video.fifo_rx_video_out.base;
  rx_out_csr_base = Video.fifo_rx_video_out_csr.base;
}

abbrev pub control_layout : Layout
control_layout = record {
  tx_in_base = Control.fifo_control_tx_in.base;
  tx_in_csr_base = Control.fifo_control_tx_in_csr.base;
  rx_out_base = Control.fifo_control_rx_out.base;
  rx_out_csr_base = Control.fifo_control_rx_out_csr.base;
}

pub data MapCall : Type 0 where
  open_mem : MapCall
  mmap : ℕ → ℕ → ℕ → MapCall
  munmap : Option ℕ → ℕ → MapCall
  close : ℕ → MapCall

-- The globals; a null pointer is `none`.
pub record Mappings : Type 0 where
  pub fd_dev_mem : ℕ
  pub h2f_lw_axi_master : Option ℕ
  pub h2f_axi_master : Option ℕ
  pub transmit_ptr : Option ℕ
  pub txstatus_ptr : Option ℕ
  pub receive_ptr : Option ℕ
  pub rxstatus_ptr : Option ℕ
  pub results : List ℕ
  pub calls : List MapCall

-- MAP_FAILED, and what `open` returns on an error
abbrev pub minus_one : ℕ
minus_one = 2 ^ 32 - 1

log : MapCall → Process Mappings (Unit {0})
log c = modify (λ s. record s { calls = s.calls ++ (c ∷ []) })

next_result : Process Mappings ℕ
next_result s = elim s.results [ [] ↦ pending | n ∷ rest ↦ ok (n, record s { results = rest }) ]

call : MapCall → Process Mappings ℕ
unfolding log next_result
call c = log c >> next_result

-- exit(EXIT_FAILURE)
exit_if : Bool → Process Mappings (Unit {0})
exit_if failed s = if failed then exits 1 else ok (tt, s)

unfoldable pub open_physical_memory_device : Process Mappings (Unit {0})
unfolding call exit_if
open_physical_memory_device = do
  fd ← call open_mem
  modify (λ s. record s { fd_dev_mem = fd })
  exit_if (fd == minus_one)

unfoldable pub close_physical_memory_device : Process Mappings (Unit {0})
unfolding log
close_physical_memory_device s = log (close s.fd_dev_mem) s

-- hps_linux.h
abbrev pub h2f_lw_axi_master_span : ℕ
h2f_lw_axi_master_span = fpga_bridge_lwh2f.last - fpga_bridge_lwh2f.first + 1

abbrev pub h2f_lw_axi_master_ofst : ℕ
h2f_lw_axi_master_ofst = fpga_bridge_lwh2f.first

abbrev pub h2f_axi_master_span : ℕ
h2f_axi_master_span = fpga_bridge_h2f128.last - fpga_bridge_h2f128.first + 1

abbrev pub h2f_axi_master_ofst : ℕ
h2f_axi_master_ofst = fpga_bridge_h2f128.first

-- Before it exits the program closes the file.
unfoldable pub mmap_fpga_peripherals : Layout → Process Mappings (Unit {0})
unfolding call exit_if
mmap_fpga_peripherals l s =
    (do
      lw ← call (mmap h2f_lw_axi_master_span s.fd_dev_mem h2f_lw_axi_master_ofst)
      modify (λ t. record t { h2f_lw_axi_master = some lw })
      exit_if (lw == minus_one)
      h2f ← call (mmap h2f_axi_master_span s.fd_dev_mem h2f_axi_master_ofst)
      modify (λ t. record t { h2f_axi_master = some h2f })
      exit_if (h2f == minus_one)
      modify (λ t. record t {
        transmit_ptr = some (add32 h2f l.tx_in_base);
        txstatus_ptr = some (add32 lw l.tx_in_csr_base);
        receive_ptr = some (add32 h2f l.rx_out_base);
        rxstatus_ptr = some (add32 lw l.rx_out_csr_base);
      }))
      s

unfoldable pub munmap_fpga_peripherals : Process Mappings (Unit {0})
unfolding call exit_if
munmap_fpga_peripherals s =
    (do
      lw ← call (munmap s.h2f_lw_axi_master h2f_lw_axi_master_span)
      exit_if (if lw == 0 then false else true)
      h2f ← call (munmap s.h2f_axi_master h2f_axi_master_span)
      exit_if (if h2f == 0 then false else true)
      modify (λ t. record t {
        h2f_lw_axi_master = none;
        h2f_axi_master = none;
        transmit_ptr = none;
        txstatus_ptr = none;
        receive_ptr = none;
        rxstatus_ptr = none;
      }))
      s

abbrev pub mapped : ℕ → ℕ → List ℕ → Layout → Mappings → Mappings
mapped lw h2f later l s = record s {
  h2f_lw_axi_master = some lw;
  h2f_axi_master = some h2f;
  transmit_ptr = some (add32 h2f l.tx_in_base);
  txstatus_ptr = some (add32 lw l.tx_in_csr_base);
  receive_ptr = some (add32 h2f l.rx_out_base);
  rxstatus_ptr = some (add32 lw l.rx_out_csr_base);
  results = later;
  calls =
      s.calls
      ++ (mmap h2f_lw_axi_master_span s.fd_dev_mem h2f_lw_axi_master_ofst
          ∷ mmap h2f_axi_master_span s.fd_dev_mem h2f_axi_master_ofst
          ∷ []);
}

pub mmap_fpga_peripherals-mapped :
    (lw h2f : ℕ) (later : List ℕ) (l : Layout) (s : Mappings)
    → lw ≢ minus_one
    → h2f ≢ minus_one
    → s.results ≡ lw ∷ h2f ∷ later
    → mmap_fpga_peripherals l s ≡ ok (tt, mapped lw h2f later l s)
unfolding mmap_fpga_peripherals call exit_if log next_result
mmap_fpga_peripherals-mapped lw h2f later l s good good' e =
    let lw_ok : (lw == minus_one) ≡ false = ground arith in
    let h2f_ok : (h2f == minus_one) ≡ false = ground arith in
    rw (e, ◌>>=◌, lw_ok, h2f_ok)
      (ap (λ c. ok (tt, record (mapped lw h2f later l s) { calls = c })) (simp append_assoc))

-- The two bridges are mapped and unmapped again, when the calls succeed: each is unmapped with the
-- address that its `mmap` returned and the same size, and no pointer into them is left.
pub munmap-mmap :
    (lw h2f : ℕ) (later : List ℕ) (l : Layout) (s : Mappings)
    → lw ≢ minus_one
    → h2f ≢ minus_one
    → s.results ≡ lw ∷ h2f ∷ 0 ∷ 0 ∷ later
    → (mmap_fpga_peripherals l >> munmap_fpga_peripherals) s
      ≡ ok (
        tt,
        record s {
          h2f_lw_axi_master = none;
          h2f_axi_master = none;
          transmit_ptr = none;
          txstatus_ptr = none;
          receive_ptr = none;
          rxstatus_ptr = none;
          results = later;
          calls =
              s.calls
              ++ (mmap h2f_lw_axi_master_span s.fd_dev_mem h2f_lw_axi_master_ofst
                  ∷ mmap h2f_axi_master_span s.fd_dev_mem h2f_axi_master_ofst
                  ∷ munmap (some lw) h2f_lw_axi_master_span
                  ∷ munmap (some h2f) h2f_axi_master_span
                  ∷ []);
        },
      )
unfolding munmap_fpga_peripherals call exit_if log next_result
munmap-mmap lw h2f later l s good good' e =
    let unmapped : Mappings = record s {
      h2f_lw_axi_master = none;
      h2f_axi_master = none;
      transmit_ptr = none;
      txstatus_ptr = none;
      receive_ptr = none;
      rxstatus_ptr = none;
      results = later;
    } in
    >>=_step (mmap_fpga_peripherals l) (λ _. munmap_fpga_peripherals) s
      (mmap_fpga_peripherals-mapped lw h2f (0 ∷ 0 ∷ later) l s good good' e)
    ∙ ap (λ c. ok (tt, record unmapped { calls = c })) (simp append_assoc)

-- When either `mmap` fails the program exits with EXIT_FAILURE.
pub mmap_fpga_peripherals-failed :
    (lw h2f : ℕ) (later : List ℕ) (l : Layout) (s : Mappings)
    → (lw ≡ minus_one) ⊎ (h2f ≡ minus_one)
    → s.results ≡ lw ∷ h2f ∷ later
    → mmap_fpga_peripherals l s ≡ exits 1
unfolding mmap_fpga_peripherals call exit_if log next_result
mmap_fpga_peripherals-failed lw h2f later l s bad e = elim (Bool-cases (lw == minus_one)) [
  | inl lw_bad ↦ rw (e, ◌>>=◌, lw_bad) refl
  | inr lw_ok ↦
      let h2f_bad : (h2f == minus_one) ≡ true = ground arith in rw (e, ◌>>=◌, lw_ok, h2f_bad) refl
]
