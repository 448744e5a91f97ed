-- ===== src/Client/Program.antt =====
-- `run_client` of VideoServer/src/client.c as a whole, and the test client that it runs with -d.
use fagprojekt.Base.{
  ℕ, zero, suc, ◌+◌, ◌^◌, List, [], ◌∷◌, ltb, ◌==◌, if◌then◌else◌, Option, none, some, Outcome, ok,
  fault, exits, pending,
}
use fagprojekt.Memory.{load, put_at}
use fagprojekt.Process.{Process, pure, lift, zoom, ◌>>=◌, ◌>>◌}
use fagprojekt.Connection.{
  SockAddr, init, terminate, send_packet_type, recv_data_timeout, addr_match, is_option_set,
}
use fagprojekt.Connection.Sockets.{Sockets, init_client_socket_udp, close_connection}
use fagprojekt.Fifo.{FifoDevice, read_data_fifo}
use fagprojekt.Fifo.Mapping.{
  Mappings, video_layout, open_physical_memory_device, close_physical_memory_device,
  mmap_fpga_peripherals, munmap_fpga_peripherals,
}
use fagprojekt.Client.{
  Client, Greeter, on_socket, on_fifo, send_video_packet, video_send_loop, empty_fifo, greet,
}
use fagprojekt.Video.{run_debug}

-- All that the client works on: the memory maps, the descriptor of its socket, and the rest.
-- `typed` are the numbers that `scanf` is to read.
pub record Program (D : Type 0) : Type 0 where
  pub maps : Mappings
  pub sockets : Sockets
  pub client : Client D
  pub typed : List ℕ

abbrev pub on_maps : {D A : Type 0} → Process Mappings A → Process (Program D) A
on_maps = zoom (λ p. p.maps) (λ m p. record p { maps = m })

abbrev pub on_sockets : {D A : Type 0} → Process Sockets A → Process (Program D) A
on_sockets = zoom (λ p. p.sockets) (λ s p. record p { sockets = s })

abbrev pub on_client : {D A : Type 0} → Process (Client D) A → Process (Program D) A
on_client = zoom (λ p. p.client) (λ c p. record p { client = c })

-- The length of the dummy packet, and what `sprintf` writes there: ten digits and a zero.
abbrev pub dummy_data_len : ℕ
dummy_data_len = 11

abbrev pub dummy_data : List ℕ
dummy_data = 48 ∷ 49 ∷ 50 ∷ 51 ∷ 52 ∷ 53 ∷ 54 ∷ 55 ∷ 56 ∷ 57 ∷ 0 ∷ []

-- `scanf` with no number left waits for ever.
unfoldable pub scan : {D : Type 0} → Process (Program D) ℕ
scan p = elim p.typed [ [] ↦ pending | n ∷ rest ↦ ok (n, record p { typed = rest }) ]

unfoldable pub close_client : {D : Type 0} → Process (Program D) (Unit {0})
close_client =
    on_sockets close_connection
    >> (on_maps munmap_fpga_peripherals >> on_maps close_physical_memory_device)

module _ (fifo : FifoDevice) (polls : ℕ) where
  open fifo use {Device}

  -- The loop of choice 3: `left` reads from index `i` on. An empty FIFO leaves the byte as it was.
  unfoldable pub read_amount : ℕ → ℕ → List ℕ → Process (Client Device) (List ℕ)
  unfolding read_data_fifo
  read_amount zero i bytes = pure bytes
  read_amount (suc left) i bytes = do
    old ← lift (load bytes i)
    x ← on_fifo (λ d. let (status, x, d') = read_data_fifo fifo old d in ok (x, d'))
    bytes' ← lift (put_at bytes i x)
    read_amount left (i + 1) bytes'

  module _ (server_addr : SockAddr) where
    -- What choice 1 reads of an answer.
    look_at : Option ℕ → SockAddr → List ℕ → Outcome (Unit {0})
    look_at none from bytes = ok tt
    look_at (some len) from bytes =
        if addr_match from server_addr
        then elim (load bytes 0) [
          | ok x ↦ ok tt
          | fault ↦ fault
          | exits c ↦ exits c
          | pending ↦ pending
        ]
        else ok tt

    -- Choice 1; `g` are the two variables of the block. What is found out is only printed.
    unfoldable pub test_init : Greeter → Process (Client Device) Greeter
    unfolding recv_data_timeout send_packet_type look_at
    test_init g = do
      on_socket (send_packet_type server_addr init)
      (n, from, bytes) ← on_socket (recv_data_timeout g.src_addr g.response)
      lift (look_at n from bytes)
      pure (record { src_addr = from; response = bytes })

    unfoldable pub test_dummy : Process (Client Device) (Unit {0})
    unfolding send_video_packet
    test_dummy = send_video_packet fifo polls server_addr dummy_data dummy_data_len

    -- Choice 3 for the number that was typed; `block` is what `malloc` returned. A number that is
    -- negative as an `int` makes no pass of the loop.
    unfoldable pub test_amount : ℕ → List ℕ → Process (Client Device) (Unit {0})
    unfolding read_amount send_video_packet
    test_amount amount block =
        read_amount (if ltb amount (2 ^ 31) then amount else 0) 0 block >>= λ bytes.
        send_video_packet fifo polls server_addr bytes amount

    -- Choice 5, before it exits.
    unfoldable pub say_goodbye : Process (Program Device) (Unit {0})
    unfolding send_packet_type close_connection
    say_goodbye =
        on_client (on_socket (send_packet_type server_addr terminate))
        >> on_sockets close_connection

    -- The `switch` of `run_test_client`. Choice 4 does not return: `none` says that the
    -- program stands in the loop, after `passes` of its passes. `malloc` gives the blocks.
    unfoldable pub run_choice :
        (ℕ → List ℕ) → ℕ → ℕ → List ℕ → Greeter → ℕ → Process (Program Device) (Option Greeter)
    unfolding scan test_init test_dummy test_amount say_goodbye
    run_choice malloc reads passes bytes g choice =
        if choice == 1
        then (on_client (test_init g) >>= λ g'. pure (some g'))
        else if choice == 2
        then (on_client test_dummy >> pure (some g))
        else if choice == 3
        then (scan >>= λ amount. on_client (test_amount amount (malloc amount)) >> pure (some g))
        else if choice == 4
        then (on_client (video_send_loop fifo polls server_addr passes bytes) >>= λ _. pure none)
        else if choice == 5
        then (say_goodbye >> lift (exits 0))
        else if choice == 6
        then (on_client (empty_fifo fifo polls server_addr reads) >>= λ _. pure (some g))
        else pure (some g)

    -- A round of the loop: a number is typed, and its choice is run.
    unfoldable pub test_pass :
        (ℕ → List ℕ) → ℕ → ℕ → List ℕ → Greeter → Process (Program Device) (Option Greeter)
    unfolding scan run_choice
    test_pass malloc reads passes bytes g = do
      choice ← scan
      run_choice malloc reads passes bytes g choice

    -- `run_test_client` ends only by `exit`: this is where it stands after some rounds.
    unfoldable pub run_test_client :
        ℕ → (ℕ → List ℕ) → ℕ → ℕ → List ℕ → Greeter → Process (Program Device) (Option Greeter)
    unfolding test_pass
    run_test_client zero malloc reads passes bytes g = pure (some g)
    run_test_client (suc rounds) malloc reads passes bytes g =
        test_pass malloc reads passes bytes g >>= elim [
          | none ↦ pure none
          | some g' ↦ run_test_client rounds malloc reads passes bytes g'
        ]

  -- `run_client` behind the branch for -d.
  unfoldable pub run_normal :
      SockAddr → ℕ → ℕ → ℕ → List ℕ → Greeter → Process (Program Device) (Unit {0})
  run_normal server_addr reads fuel passes bytes g =
      on_client (empty_fifo fifo polls server_addr reads) >>= λ _.
      on_client (on_socket (greet server_addr fuel g))
      >> (on_client (video_send_loop fifo polls server_addr passes bytes) >>= λ _. pure tt)

  -- `run_client`, with `ip` for what `inet_addr` makes of the text. `video_send_loop` does not
  -- return: this is where the program stands after `passes` of its passes. `reads` bounds the reads
  -- of `empty_fifo`, `fuel` the passes of the greeting, `rounds` those of the test client.
  unfoldable pub run_client :
      ℕ
      → (ℕ → List ℕ)
      → ℕ
      → ℕ
      → ℕ
      → List ℕ
      → Greeter
      → ℕ
      → ℕ
      → ℕ
      → Process (Program Device) (Unit {0})
  run_client rounds malloc reads fuel passes bytes g ip port options = do
    on_maps open_physical_memory_device
    on_maps (mmap_fpga_peripherals video_layout)
    server_addr ← on_sockets (init_client_socket_udp ip port)
    if is_option_set options run_debug
        then (run_test_client server_addr rounds malloc reads passes bytes g >>= λ _. pure tt)
        else run_normal server_addr reads fuel passes bytes g
