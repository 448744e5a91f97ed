-- ===== src/Board/Decode.antt =====
-- The windows of the address spaces that the programs use (hps_soc_system.h and hps.h).
use fagprojekt.Base.{
  ℕ, zero, suc, ◌+◌, ◌≤◌, ◌≡◌, refl, ap, Bool, true, ◌&&◌, leb, List, [], ◌∷◌, ◌++◌, some,
  get_elem?, arith,
}
use fagprojekt.Board.{Window, Within, FifoSlave, PioSlave}
use fagprojekt.Board.Video
use fagprojekt.Board.Bridges
use fagprojekt.Board.Middle
use fagprojekt.Board.Upper

-- Windows that are not empty and lie one behind the other from `n` on.
ordered : ℕ → List Window → Bool
ordered n [] = true
ordered n (w ∷ ws) = (leb n w.first && leb w.first w.last) && ordered (w.last + 1) ws

ordered-first :
    (n i : ℕ) (ws : List Window) (w : Window)
    → ordered n ws ≡ true
    → get_elem? ws i ≡ some w
    → n ≤ w.first
unfolding ordered
ordered-first n i [] w o e = absurd (cc)
ordered-first n zero (v ∷ ws) w o e = ground arith
ordered-first n (suc i) (v ∷ ws) w o e = ground (arith, ordered-first (v.last + 1) i ws w)

ordered_unique :
    (n x i j : ℕ) (ws : List Window) (v w : Window)
    → ordered n ws ≡ true
    → get_elem? ws i ≡ some v
    → get_elem? ws j ≡ some w
    → Within x v
    → Within x w
    → i ≡ j
unfolding ordered
ordered_unique n x i j [] v w o ei ej hv hw = absurd (cc)
ordered_unique n x zero zero (u ∷ ws) v w o ei ej hv hw = refl
ordered_unique n x zero (suc j) (u ∷ ws) v w o ei ej hv hw =
    ground (arith, ordered-first (u.last + 1) j ws w)
ordered_unique n x (suc i) zero (u ∷ ws) v w o ei ej hv hw =
    ground (arith, ordered-first (u.last + 1) i ws v)
ordered_unique n x (suc i) (suc j) (u ∷ ws) v w o ei ej hv hw =
    ap suc (ordered_unique (u.last + 1) x i j ws v w (ground arith) ei ej hv hw)

-- The address ranges of the slaves.
abbrev fifo_window : FifoSlave → Window
fifo_window s = record { first = s.base; last = s.end }

abbrev pio_window : PioSlave → Window
pio_window s = record { first = s.base; last = s.end }

-- The two bridges, and the address space of the processor system. Which bridge the switches and
-- the LEDs are behind is not said: they stand in both lists.
pub data AddressSpace : Type 0 where
  h2f h2f_lw hps : AddressSpace

unfoldable pub windows : AddressSpace → List Window
windows h2f =
    fifo_window Video.fifo_rx_video_out
    ∷ fifo_window Video.fifo_tx_video_in
    ∷ pio_window Video.hps_fpga_switches
    ∷ pio_window Video.hps_fpga_leds
    ∷ fifo_window Video.fifo_control_rx_out
    ∷ fifo_window Video.fifo_control_tx_in
    ∷ []
windows h2f_lw =
    fifo_window Video.fifo_rx_video_out_csr
    ∷ fifo_window Video.fifo_control_rx_out_csr
    ∷ fifo_window Video.fifo_control_tx_in_csr
    ∷ fifo_window Video.fifo_tx_video_in_csr
    ∷ pio_window Video.hps_fpga_switches
    ∷ pio_window Video.hps_fpga_leds
    ∷ []
windows hps = Bridges.windows ++ (Middle.windows ++ Upper.windows)

windows-ordered : (space : AddressSpace) → ordered 0 (windows space) ≡ true
unfolding ordered windows
windows-ordered h2f = refl
windows-ordered h2f_lw = refl
windows-ordered hps = refl

-- In each of the three address spaces every address lies in at most one window: no slave of a
-- bridge overlaps another, and the windows of the bridges overlap no other part of the processor
-- system.
pub windows_unique :
    (space : AddressSpace) (x i j : ℕ) {v w : Window}
    → get_elem? (windows space) i ≡ some v
    → get_elem? (windows space) j ≡ some w
    → Within x v
    → Within x w
    → i ≡ j
windows_unique space x i j {v} {w} =
    ordered_unique 0 x i j (windows space) v w (windows-ordered space)
