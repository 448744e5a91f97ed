-- ===== src/Tests/Device.antt =====
-- A FIFO that keeps the program waiting for one poll at each byte.
use fagprojekt.Base.{ℕ, ◌<◌, ◌≡◌, refl, Bool, true, false, List, [], ◌∷◌, ◌++◌, length, arith}
use fagprojekt.Fifo.{FifoDevice, full_bit, empty_bit}
use fagprojekt.Fifo.Laws.{IsFifo}

pub record Sample : Type 0 where
  pub rx : List ℕ
  pub tx : List ℕ
  pub busy : Bool

abbrev status : ℕ → Bool → ℕ
status bit true = bit
status bit false = 0

abbrev rx_status : List ℕ → Bool → ℕ
rx_status [] busy = 2
rx_status (x ∷ q) busy = status 2 busy

abbrev take_rx : List ℕ → List ℕ → Bool → ℕ × Sample
take_rx [] tx busy = (0, record { rx = []; tx = tx; busy = busy })
take_rx (x ∷ q) tx busy = (x, record { rx = q; tx = tx; busy = true })

abbrev pub sample : FifoDevice
sample = record {
  Device = Sample;
  tx_status = λ d. status 1 d.busy;
  rx_status = λ d. rx_status d.rx d.busy;
  write_tx = λ x d. record d { tx = d.tx ++ (x ∷ []); busy = true };
  read_rx = λ d. take_rx d.rx d.tx d.busy;
  sleep = λ t d. record d { busy = false };
}

pull-sample :
    (rx tx : List ℕ) (busy : Bool)
    → empty_bit (rx_status rx busy) ≡ false
    → (rx ≡ (take_rx rx tx busy).0 ∷ (take_rx rx tx busy).1.rx) × ((take_rx rx tx busy).1.tx ≡ tx)
unfolding empty_bit
pull-sample [] tx busy e = cc
pull-sample (x ∷ q) tx busy e = (refl, refl)

arrives-sample : (rx : List ℕ) → 0 < length rx → empty_bit (rx_status rx false) ≡ false
unfolding empty_bit
arrives-sample [] h = absurd (omega arith)
arrives-sample (x ∷ q) h = refl

not_full : full_bit (status 1 false) ≡ false
unfolding full_bit
not_full = refl

pub sample-IsFifo : IsFifo sample (λ d. d.rx) (λ d. d.tx) 1
sample-IsFifo = record {
  push = λ x d e. (refl, refl);
  pull = λ d e. pull-sample d.rx d.tx d.busy e;
  idle = λ t d. (refl, refl);
  drains = λ d. (1, omega arith, not_full);
  arrives = λ d h. (1, omega arith, arrives-sample d.rx h);
}
