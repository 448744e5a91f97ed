-- ===== src/Video/Options.antt =====
-- Which options a command line sets.
use Prim.Native.Nat.{bit_or}
use Prim.Native.String.{String}
use text.Mathlib.Text.{◌==◌ as str_eq}
use fagprojekt.Base.{
  ℕ, zero, suc, ◌≡◌, ◌⊎◌, inl, inr, ◌<◌, refl, sym, ◌∙◌, Bool, true, false, ◌||◌, List, [], ◌∷◌,
  if◌then◌else◌, Option, none, some, Outcome, ok, fault, arith, ◌>>=◌, Bool-cases,
}
use fagprojekt.Connection.{is_option_set}
use fagprojekt.Video.{
  Settings, next_argument, take_flags, take_port, take_argument, take_arguments, run_debug, no_fifo,
  server_run_iperf,
}

abbrev pub contains : String → List String → Bool
contains o [] = false
contains o (a ∷ rest) = str_eq a o || contains o rest

-- Whether the last argument is `o`, and the argument behind the last `o` that has one.
abbrev pub ends_with : String → List String → Bool
ends_with o [] = false
ends_with o (a ∷ []) = str_eq a o
ends_with o (a ∷ b ∷ rest) = ends_with o (b ∷ rest)

abbrev pub last_value : String → List String → Option String
last_value o [] = none
last_value o (a ∷ rest) = elim (last_value o rest) [
  | some v ↦ some v
  | none ↦ if str_eq a o then next_argument rest else none
]

-- The two flags after a pass, and the one flag of the client.
abbrev Flags : ℕ → Bool → Bool → Type 0
Flags x n i =
    let a = if n then bit_or x 1 else x in
    let b = if i then bit_or a 2 else a in
    (b < 4)
    × (is_option_set b 1 ≡ (n || is_option_set x 1))
    × (is_option_set b 2 ≡ (i || is_option_set x 2))

set-Flags : (x : ℕ) (n i : Bool) → x < 4 → Flags x n i
unfolding is_option_set
set-Flags zero n i h = ground arith
set-Flags (suc zero) n i h = ground arith
set-Flags (suc (suc zero)) n i h = ground arith
set-Flags (suc (suc (suc zero))) n i h = ground arith
set-Flags (suc (suc (suc (suc x)))) n i h = absurd (omega arith)

set_debug :
    (x : ℕ) (d : Bool)
    → x < 2
    → ((if d then bit_or x 1 else x) < 2)
      × (is_option_set (if d then bit_or x 1 else x) 1 ≡ (d || is_option_set x 1))
unfolding is_option_set
set_debug zero d h = ground arith
set_debug (suc zero) d h = ground arith
set_debug (suc (suc x)) d h = absurd (omega arith)

-- What the options of a pass do to settings with no other flag.
record Passed (a : String) (rest : List String) (s s' : Settings) : Type 0 where
  port : s'.port ≡ s.port
  debug_range : s'.client_options < 2
  range : s'.server_options < 4
  debug :
      is_option_set s'.client_options run_debug
      ≡ (str_eq a "-d" || is_option_set s.client_options run_debug)
  fifo :
      is_option_set s'.server_options no_fifo
      ≡ (str_eq a "-nf" || is_option_set s.server_options no_fifo)
  iperf :
      is_option_set s'.server_options server_run_iperf
      ≡ (str_eq a "-iperf" || is_option_set s.server_options server_run_iperf)

take_flags-Passed :
    (a : String) (rest : List String) (s : Settings)
    → s.client_options < 2
    → s.server_options < 4
    → Passed a rest s (take_flags a rest s)
unfolding take_flags
take_flags-Passed a rest s hc hs = ground (
  arith,
  set-Flags s.server_options (str_eq a "-nf") (str_eq a "-iperf") hs,
  set_debug s.client_options (str_eq a "-d") hc,
)

module _ (atoi : String → ℕ) where
  abbrev pub port_from : Option String → ℕ → ℕ
  port_from none port = port
  port_from (some v) port = atoi v

  -- What the arguments say of the settings that they are taken into.
  pub record Taken (args : List String) (s s' : Settings) : Type 0 where
    pub port : s'.port ≡ port_from (last_value "-p" args) s.port
    pub debug :
        is_option_set s'.client_options run_debug
        ≡ (contains "-d" args || is_option_set s.client_options run_debug)
    pub fifo :
        is_option_set s'.server_options no_fifo
        ≡ (contains "-nf" args || is_option_set s.server_options no_fifo)
    pub iperf :
        is_option_set s'.server_options server_run_iperf
        ≡ (contains "-iperf" args || is_option_set s.server_options server_run_iperf)

  Taken-cons :
      (a : String) (rest : List String) (s1 s s2 s' : Settings)
      → Passed a rest s1 s2
      → s1.client_options ≡ s.client_options
      → s1.server_options ≡ s.server_options
      → s1.port ≡ (if str_eq a "-p" then port_from (next_argument rest) s.port else s.port)
      → Taken rest s2 s'
      → Taken (a ∷ rest) s s'
  Taken-cons a rest s1 s s2 s' p ec es ep t = record {
    port = ground (arith, t.port, p.port, ep);
    debug = ground (arith, t.debug, p.debug, ec);
    fifo = ground (arith, t.fifo, p.fifo, es);
    iperf = ground (arith, t.iperf, p.iperf, es);
  }

  -- A pass that is not at a last `-p`.
  abbrev ported : String → List String → Settings → Settings
  ported a rest s = record s {
    port = if str_eq a "-p" then port_from (next_argument rest) s.port else s.port;
  }

  take_port-more :
      (a b : String) (rest : List String) (s : Settings)
      → take_port atoi a (b ∷ rest) s ≡ ok (ported a (b ∷ rest) s)
  unfolding take_port
  take_port-more a b rest s = ground arith

  take_port-end :
      (a : String) (s : Settings)
      → str_eq a "-p" ≡ false
      → take_port atoi a [] s ≡ ok (ported a [] s)
  unfolding take_port
  take_port-end a s e = ground (arith, e)

  take_port-fault :
      (a : String) (s : Settings) → str_eq a "-p" ≡ true → take_port atoi a [] s ≡ fault
  unfolding take_port
  take_port-fault a s e = rw e

  -- The outcome of the loop over the arguments, from settings without unknown flags.
  abbrev Parsed : List String → Settings → Outcome Settings → Type 0
  Parsed args s r =
      (ends_with "-p" args ≡ true → r ≡ fault)
      × (ends_with "-p" args ≡ false → (s' : Settings) × (r ≡ ok s') × Taken args s s')

  -- The step from the arguments behind the first to all of them.
  Parsed-cons :
      (a : String) (rest : List String) (s : Settings)
      → s.client_options < 2
      → s.server_options < 4
      → take_port atoi a rest s ≡ ok (ported a rest s)
      → (ends_with "-p" (a ∷ rest) ≡ ends_with "-p" rest)
      → Parsed rest
          (take_flags a rest (ported a rest s))
          (take_arguments atoi rest (take_flags a rest (ported a rest s)))
      → Parsed (a ∷ rest) s (take_arguments atoi (a ∷ rest) s)
  unfolding take_arguments take_argument
  Parsed-cons a rest s hc hs step same (bad, good) = (
    λ e. rw (step, ◌>>=◌) (bad (sym same ∙ e)),
    λ e.
        let (s', done, t) = good (sym same ∙ e) in
        (
          s',
          rw (step, ◌>>=◌) done,
          Taken-cons a rest (ported a rest s) s (take_flags a rest (ported a rest s)) s'
              (take_flags-Passed a rest (ported a rest s) hc hs) refl refl refl t,
        ),
  )

  parsed :
      (args : List String) (s : Settings)
      → s.client_options < 2
      → s.server_options < 4
      → Parsed args s (take_arguments atoi args s)
  unfolding take_arguments take_argument
  parsed [] s hc hs =
      (λ e. cc, λ e. (s, refl, record { port = refl; debug = refl; fifo = refl; iperf = refl }))
  parsed (a ∷ []) s hc hs = elim (Bool-cases (str_eq a "-p")) [
    | inl p ↦ (λ e. rw (take_port-fault a s p), λ e. cc)
    | inr n ↦
        let f = take_flags-Passed a [] (ported a [] s) hc hs in
        Parsed-cons a [] s hc hs (take_port-end a s n) n (parsed [] _ f.debug_range f.range)
  ]
  parsed (a ∷ b ∷ rest) s hc hs =
      let f = take_flags-Passed a (b ∷ rest) (ported a (b ∷ rest) s) hc hs in
      Parsed-cons a (b ∷ rest) s hc hs (take_port-more a b rest s) refl
        (parsed (b ∷ rest) _ f.debug_range f.range)

  take_arguments-fault :
      (args : List String) (s : Settings)
      → s.client_options < 2
      → s.server_options < 4
      → ends_with "-p" args ≡ true
      → take_arguments atoi args s ≡ fault
  take_arguments-fault args s hc hs e = (parsed args s hc hs).0 e

  take_arguments-Taken :
      (args : List String) (s : Settings)
      → s.client_options < 2
      → s.server_options < 4
      → ends_with "-p" args ≡ false
      → (s' : Settings) × (take_arguments atoi args s ≡ ok s') × Taken args s s'
  take_arguments-Taken args s hc hs e = (parsed args s hc hs).1 e

  -- Either `-p` is the last argument, and the loop of `main` over the arguments is undefined: it
  -- hands `atoi` a null pointer. Or it is not, and the loop comes to its end: the port is the value
  -- behind the last `-p`, or what it was if there is none, and each of the flags of `-d`, `-nf` and
  -- `-iperf` is set exactly if it stands among the arguments or was set.
  pub take_arguments_lem :
      (args : List String) (s : Settings)
      → s.client_options < 2
      → s.server_options < 4
      → ((ends_with "-p" args ≡ true) × (take_arguments atoi args s ≡ fault))
        ⊎ ((ends_with "-p" args ≡ false)
            × ((s' : Settings) × (take_arguments atoi args s ≡ ok s') × Taken args s s'))
  take_arguments_lem args s hc hs = elim (Bool-cases (ends_with "-p" args)) [
    | inl last ↦ inl (last, take_arguments-fault args s hc hs last)
    | inr before ↦ inr (before, take_arguments-Taken args s hc hs before)
  ]
