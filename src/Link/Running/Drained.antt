-- ===== src/Link/Running/Drained.antt =====
-- How the server's writing thread (VideoServer/src/server.c) empties the buffer by itself, line by line.
use fagprojekt.Base.{
  ℕ, zero, suc, Bool, ◌+◌, ◌%◌, ◌≤◌, ◌≡◌, refl, sym, ◌∙◌, ap, true, false, List, [], ◌∷◌, ◌++◌,
  length, add32, ◌==◌, arith, length-append, Bool-cases, inl, inr,
}
use fagprojekt.Buffer.{CircularBuf, get_space, buffer_is_empty}
use fagprojekt.Buffer.Invariant.{IsValid, contents}
use fagprojekt.Buffer.Contents.{fill_level_lem, read_data_buffer_lem}
use fagprojekt.Buffer.Space.{
  entered, comparing, subtracting, answered, compare_ends, subtract_wrapped, subtract, space_lines,
}
use fagprojekt.Connection.{SockAddr, Net}
use fagprojekt.Server.Frames.{frames}
use fagprojekt.Threads.Lines.{
  LineWriter, testing, reading, loaded, advanced, writing, LineSystem, test_space, find_empty,
  find_byte, load_byte, move_tail, clear_full, write_byte, test, read, Line,
}
use fagprojekt.Threads.Lines.Calls.{read_data_buffer-lines}
use fagprojekt.Threads.Lines.Invariant.{to_store, Inv, Inv-IsValid}
use fagprojekt.Threads.Lines.Stream.{LineReach-Inv}
use fagprojekt.Link.Running.{Boards, BoardsStep, server_line, BoardsReach, later}
use fagprojekt.Link.Running.Stream.{BoardsReach-LineReach}

-- Lines of both boards, one after the other.
pub data BoardsRun (server_addr : SockAddr) (s : Boards) : Boards → Type 0 where
  rest : BoardsRun server_addr s s
  step :
      {t u : Boards}
      → BoardsRun server_addr s t
      → BoardsStep server_addr t u
      → BoardsRun server_addr s u

module _ (server_addr : SockAddr) where
  pub BoardsReach-Run :
      {b : CircularBuf} {bytes : List ℕ} {net : Net} {s t : Boards}
      → BoardsReach server_addr b bytes net s
      → BoardsRun server_addr s t
      → BoardsReach server_addr b bytes net t
  BoardsReach-Run r rest = r
  BoardsReach-Run r (step run st) = later (BoardsReach-Run r run) st

  module _ {b0 : CircularBuf} {bytes : List ℕ} {net : Net} (v : IsValid b0) (e : contents b0 ≡ [])
      (s : Boards) (r : BoardsReach server_addr b0 bytes net s)
      (clean : s.server.marked ≡ false) where
    -- The server with the writing thread elsewhere.
    abbrev moved_to : CircularBuf → LineWriter → List ℕ → LineSystem
    moved_to b w out = record (s.server) { buffer = b; writer = w; out = out }

    -- That state is reached from `s`.
    abbrev At : CircularBuf → LineWriter → List ℕ → Type 0
    At b w out = BoardsRun server_addr s (record s { server = moved_to b w out })

    line :
        {b b' : CircularBuf} {w w' : LineWriter} {out out' : List ℕ}
        → Line (moved_to b w out) (moved_to b' w' out')
        → At b w out
        → At b' w' out'
    line l run = step run (server_line _ l)

    At-Inv : {b : CircularBuf} {w : LineWriter} {out : List ℕ} → At b w out → Inv (moved_to b w out)
    At-Inv run = LineReach-Inv v e (BoardsReach-LineReach server_addr (BoardsReach-Run r run)) clean

    -- The writing thread is before its test.
    Home : Type 0
    Home = (b : CircularBuf) × (out : List ℕ) × At b (testing entered) out

    loaded-At :
        (b : CircularBuf) (x : ℕ) (out : List ℕ)
        → At b (loaded x) out
        → At
            (record b { tail = add32 b.tail 1 % b.max; full = false })
            (testing entered)
            (out ++ (x ∷ []))
    loaded-At b x out run =
        line (test (write_byte x refl))
          (line (read (clear_full x refl)) (line (read (move_tail x refl)) run))

    -- A byte is taken out and written to the FIFO.
    reading-At :
        (b : CircularBuf) (out : List ℕ)
        → At b reading out
        → (b' : CircularBuf) × (x : ℕ) × At b' (testing entered) (out ++ (x ∷ []))
    reading-At b out run =
        let inv = At-Inv run in
        let (x, b', done, _, _, _) = read_data_buffer_lem (Inv-IsValid inv) inv.held in
        let loads = (read_data_buffer-lines b b' x done).0 in
        (_, x, loaded-At b x out (line (read (load_byte x refl loads)) run))

    answered-Home :
        (b : CircularBuf) (n : ℕ) (out : List ℕ) → At b (testing (answered n)) out → Home
    unfolding Home
    answered-Home b n out run = elim (Bool-cases (n == b.max)) [
      | inl all ↦ (b, out, line (test (find_empty n refl all)) run)
      | inr some_left ↦
          let (b', x, home) = reading-At b out (line (test (find_byte n refl some_left)) run) in
          (b', out ++ (x ∷ []), home)
    ]

    subtracting-Home :
        (b : CircularBuf) (c : Bool) (out : List ℕ) → At b (testing (subtracting c)) out → Home
    subtracting-Home b true out run =
        answered-Home b _ out (line (test (test_space _ _ refl subtract_wrapped)) run)
    subtracting-Home b false out run =
        answered-Home b _ out (line (test (test_space _ _ refl subtract)) run)

    -- The writing thread comes to its test, wherever it stands.
    place-Home : (b : CircularBuf) (w : LineWriter) (out : List ℕ) → At b w out → Home
    unfolding Home
    place-Home b (testing entered) out run = (b, out, run)
    place-Home b (testing comparing) out run =
        subtracting-Home b _ out (line (test (test_space _ _ refl compare_ends)) run)
    place-Home b (testing (subtracting c)) out run = subtracting-Home b c out run
    place-Home b (testing (answered n)) out run = answered-Home b n out run
    place-Home b reading out run =
        let (b', x, home) = reading-At b out run in (b', out ++ (x ∷ []), home)
    place-Home b (loaded x) out run = (_, out ++ (x ∷ []), loaded-At b x out run)
    place-Home b (advanced x) out run =
        (_, _, line (test (write_byte x refl)) (line (read (clear_full x refl)) run))
    place-Home b (writing x) out run = (_, _, line (test (write_byte x refl)) run)

    Emptied : Type 0
    Emptied =
        (b : CircularBuf) × (out : List ℕ) × At b (testing entered) out
        × (contents b ≡ [])
        × (out ++ to_store s.server.sender ≡ frames s.server.accepted)

    count_out :
        (b : CircularBuf) (out : List ℕ)
        → At b (testing entered) out
        → length out + length (contents b) ≤ length (frames s.server.accepted)
    count_out b out run = omega (
      arith,
      ap length (At-Inv run).stream,
      length-append out (contents b ++ to_store s.server.sender),
      length-append (contents b) (to_store s.server.sender),
    )

    -- With a byte in the buffer it goes round its loop.
    round :
        (b : CircularBuf) (out : List ℕ)
        → At b (testing entered) out
        → (get_space b == b.max) ≡ false
        → (b' : CircularBuf) × (x : ℕ) × At b' (testing entered) (out ++ (x ∷ []))
    round b out run some_left = reading-At b out (
        line (test (find_byte _ refl some_left)) (
          space_lines b (λ a. At b (testing a) out)
            (λ a a' l p. line (test (test_space a a' refl l)) p) run))

    stop :
        (b : CircularBuf) (out : List ℕ)
        → At b (testing entered) out
        → (get_space b == b.max) ≡ true
        → Emptied
    unfolding Emptied buffer_is_empty
    stop b out run all =
        let inv = At-Inv run in
        let none_left = (fill_level_lem (Inv-IsValid inv)).1.0 all in
        (
          b,
          out,
          run,
          none_left,
          ap (λ l. out ++ (l ++ to_store s.server.sender)) (sym none_left) ∙ inv.stream,
        )

    -- It does so until the buffer is empty; `n` bounds the rounds.
    drain :
        (n : ℕ) (b : CircularBuf) (out : List ℕ)
        → At b (testing entered) out
        → length (frames s.server.accepted) ≤ length out + n
        → Emptied
    drain zero b out run bound = elim (Bool-cases (get_space b == b.max)) [
      | inl all ↦ stop b out run all
      | inr some_left ↦
          let (b', x, home) = round b out run some_left in
          absurd (omega (arith, count_out b' (out ++ (x ∷ [])) home, length-append out (x ∷ [])))
    ]
    drain (suc n) b out run bound = elim (Bool-cases (get_space b == b.max)) [
      | inl all ↦ stop b out run all
      | inr some_left ↦
          let (b', x, home) = round b out run some_left in
          drain n b' (out ++ (x ∷ [])) home (omega (arith, length-append out (x ∷ [])))
    ]

    -- From every state that is reached, wherever it stands, it comes to its test with an empty buffer,
    -- and what is to be stored apart, all the frames are written.
    pub drain_lem :
        (b : CircularBuf) × (out : List ℕ) × BoardsRun server_addr s (record s {
          server = record (s.server) { buffer = b; writer = testing entered; out = out };
        })
        × (contents b ≡ [])
        × (out ++ to_store s.server.sender ≡ frames s.server.accepted)
    unfolding Home Emptied
    drain_lem =
        let (b, out, home) = place-Home s.server.buffer s.server.writer s.server.out rest in
        drain (length (frames s.server.accepted)) b out home (omega arith)
