-- ===== src/Fifo/Opening.antt =====
-- The opening of /dev/mem, when it succeeds.
use fagprojekt.Base.{ℕ, ◌≡◌, ◌≢◌, refl, false, List, [], ◌∷◌, ◌++◌, ok, ◌==◌, arith}
use fagprojekt.Process.{◌>>=◌}
use fagprojekt.Fifo.Mapping.{Mappings, open_mem, minus_one, open_physical_memory_device}

abbrev pub opened : ℕ → List ℕ → Mappings → Mappings
opened fd later m = record m {
  fd_dev_mem = fd;
  results = later;
  calls = m.calls ++ (open_mem ∷ []);
}

pub open_physical_memory_device-opened :
    (fd : ℕ) (later : List ℕ) (m : Mappings)
    → fd ≢ minus_one
    → m.results ≡ fd ∷ later
    → open_physical_memory_device m ≡ ok (tt, opened fd later m)
unfolding open_physical_memory_device
open_physical_memory_device-opened fd later m good e =
    let fd_ok : (fd == minus_one) ≡ false = ground arith in rw (e, ◌>>=◌, fd_ok) refl
