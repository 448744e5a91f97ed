-- ===== src/Video.antt =====
-- VideoServer/src/video.c: the command line of the video server and client.
pub mod Options
use Prim.Native.Nat.{bit_or}
use Prim.Native.String.{String}
use text.Mathlib.Text.{◌==◌ as str_eq}
use fagprojekt.Base.{
  ℕ, Bool, true, false, List, [], ◌∷◌, if◌then◌else◌, Option, none, some, Outcome, ok, fault, exits,
  ◌>>=◌,
}
use fagprojekt.Connection.{server_port}

abbrev pub server_ip : String
server_ip = "127.0.0.1"

-- `enum client_options` and `enum server_options`
abbrev pub run_debug : ℕ
run_debug = 1

abbrev pub no_fifo : ℕ
no_fifo = 1

abbrev pub server_run_iperf : ℕ
server_run_iperf = 2

-- The variables of `main`; the null pointer that `-ip` as the last argument leaves is `none`.
pub record Settings : Type 0 where
  pub port : ℕ
  pub ip : Option String
  pub client_options : ℕ
  pub server_options : ℕ

abbrev pub defaults : Settings
defaults = record {
  port = server_port;
  ip = some server_ip;
  client_options = 0;
  server_options = 0;
}

-- What `main` goes on to: `run_server`, `run_client`, or nothing.
pub data Action : Type 0 where
  serve : ℕ → ℕ → Action
  connect : Option String → ℕ → ℕ → Action
  idle : Action

-- `argv[i + 1]` behind an argument that ends the list is null.
abbrev pub next_argument : List String → Option String
next_argument [] = none
next_argument (a ∷ rest) = some a

-- The options of a pass that set no port.
unfoldable pub take_flags : String → List String → Settings → Settings
take_flags a rest s =
    let ip = if str_eq a "-ip" then next_argument rest else s.ip in
    let client_options =
      if str_eq a "-d" then bit_or s.client_options run_debug else s.client_options in
    let fifo_options =
      if str_eq a "-nf" then bit_or s.server_options no_fifo else s.server_options in
    let server_options =
      if str_eq a "-iperf" then bit_or fifo_options server_run_iperf else fifo_options in
    record s { ip = ip; client_options = client_options; server_options = server_options }

module _ (atoi : String → ℕ) where
  -- `atoi` of the null pointer is undefined.
  unfoldable pub take_port : String → List String → Settings → Outcome Settings
  take_port a rest s =
      if str_eq a "-p"
      then elim (next_argument rest) [ none ↦ fault | some v ↦ ok (record s { port = atoi v }) ]
      else ok s

  -- A pass of the loop over the arguments.
  unfoldable pub take_argument : String → List String → Settings → Outcome Settings
  take_argument a rest s = take_port a rest s >>= λ s1. ok (take_flags a rest s1)

  unfoldable pub take_arguments : List String → Settings → Outcome Settings
  take_arguments [] s = ok s
  take_arguments (a ∷ rest) s = take_argument a rest s >>= take_arguments rest

  -- `argv` begins with the program's name.
  unfoldable pub main : List String → Outcome Action
  main [] = fault
  main (program ∷ []) = exits 0
  main (program ∷ mode ∷ rest) =
      if str_eq mode "-h"
      then exits 0
      else take_arguments (program ∷ mode ∷ rest) defaults >>= λ s. ok (
          if str_eq mode "-s"
          then serve s.port s.server_options
          else if str_eq mode "-c"
          then connect s.ip s.port s.client_options
          else idle)
