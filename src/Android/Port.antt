-- ===== src/Android/Port.antt =====
-- The command line of androidServer.c.
use Prim.Native.String.{String}
use text.Mathlib.Text.{◌==◌ as str_eq}
use fagprojekt.Base.{ℕ, ◌≡◌, refl, true, false, List, [], ◌∷◌, ◌++◌, ok, fault}
use fagprojekt.Process.{pure, ◌>>◌}
use fagprojekt.Android.{AndroidServer, main, run_server}

-- Arguments none of which is -p.
abbrev pub NoPort : List String → Type 0
NoPort [] = Unit
NoPort (a ∷ rest) = (str_eq a "-p" ≡ false) × NoPort rest

-- The server runs on the port behind the first -p, whatever follows; if that -p is the last
-- argument, `atoi` is called on a null pointer; without one, nothing happens.
pub main_lem :
    (atoi : String → ℕ) (before : List String) (v : String) (rest : List String) (s : AndroidServer)
    → NoPort before
    → (main atoi (before ++ ("-p" ∷ v ∷ rest)) s ≡ (run_server (atoi v) >> pure true) s)
      × (main atoi (before ++ ("-p" ∷ [])) s ≡ fault)
      × (main atoi before s ≡ ok (false, s))
unfolding main
main_lem atoi [] v rest s free = (refl, refl, refl)
main_lem atoi (a ∷ []) v rest s (this, free) = (rw this refl, rw this refl, rw this refl)
main_lem atoi (a ∷ b ∷ before) v rest s (this, free) =
    let (some_port, null_port, no_port) = main_lem atoi (b ∷ before) v rest s free in
    (rw this some_port, rw this null_port, rw this no_port)
