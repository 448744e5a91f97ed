-- ===== src/Tests/Arguments.antt =====
-- Command lines of the video program.
use Prim.Native.String.{String}
use fagprojekt.Base.{ℕ, ◌≡◌, ◌⊎◌, true, false, refl, List, [], ◌∷◌, arith, ok, fault}
use fagprojekt.Video.{
  Settings, defaults, serve, main, take_flags, take_port, take_argument, take_arguments,
}
use fagprojekt.Video.Options.{ends_with, Taken, take_arguments_lem}

-- `atoi`, for the texts that stand in these command lines.
abbrev atoi : String → ℕ
atoi a = 5001

abbrev as_server : List String
as_server = "video" ∷ "-s" ∷ "-p" ∷ "5001" ∷ "-iperf" ∷ []

main-as_server : main atoi as_server ≡ ok (serve 5001 2)
unfolding main take_arguments take_argument take_port take_flags
main-as_server = refl

take_arguments_lem_example :
    ((ends_with "-p" as_server ≡ true) × (take_arguments atoi as_server defaults ≡ fault))
    ⊎ ((ends_with "-p" as_server ≡ false)
        × ((s : Settings) × (take_arguments atoi as_server defaults ≡ ok s)
            × Taken atoi as_server defaults s))
take_arguments_lem_example = take_arguments_lem atoi as_server defaults (omega arith) (omega arith)
