-- ===== src/Client.antt =====
-- VideoServer/src/client.c: the client greets the server, then sends it the packets that it reads
-- from the FIFO.
pub mod Stream
pub mod Cutting
pub mod Greeting
pub mod Emptying
pub mod Program
pub mod Start
pub mod TestClient
use fagprojekt.Base.{
  ℕ, zero, suc, ◌+◌, ◌-◌, ◌*◌, ◌%◌, ◌^◌, Bool, true, false, ◌&&◌, not, List, [], ◌∷◌, ltb, leb,
  ◌==◌, if◌then◌else◌, Outcome, Option, ok, fault, exits, pending,
}
use fagprojekt.Memory.{load, put_at}
use fagprojekt.Process.{Process, pure, lift, modify, zoom, ◌>>=◌, ◌>>◌}
use fagprojekt.Connection.{
  SockAddr, Net, code, init, init_ack, max_packet_size, recv_data_timeout, send_data,
  send_packet_type, addr_match,
}
use fagprojekt.Fifo.{FifoDevice, read_fifo_blocking, read_data_fifo}

-- What the client works on: the FIFO and the socket.
pub record Client (D : Type 0) : Type 0 where
  pub dev : D
  pub net : Net

abbrev pub on_socket : {D A : Type 0} → Process Net A → Process (Client D) A
on_socket = zoom (λ c. c.net) (λ n c. record c { net = n })

abbrev pub on_fifo : {D A : Type 0} → Process D A → Process (Client D) A
on_fifo = zoom (λ c. c.dev) (λ d c. record c { dev = d })

-- An `int` cut to a `short`, and taken as an `int` again.
abbrev pub to_short : ℕ → ℕ
to_short n = if ltb (n % 2 ^ 16) (2 ^ 15) then n % 2 ^ 16 else n % 2 ^ 16 + (2 ^ 32 - 2 ^ 16)

-- Two bytes in memory as an `unsigned short`.
abbrev pub un16 : ℕ → ℕ → ℕ
un16 lo hi = lo + 256 * hi

-- `polls` bounds each wait for a byte, and `server_addr` is `serverAddr`.
module _ (fifo : FifoDevice) (polls : ℕ) (server_addr : SockAddr) where
  open fifo use {Device}

  unfoldable pub send_video_packet : List ℕ → ℕ → Process (Client Device) (Unit {0})
  send_video_packet bytes len = on_socket (send_data server_addr bytes (to_short len))

  -- The loop that reads a packet's bytes: `left` passes from index `i` on.
  unfoldable pub read_packet : ℕ → ℕ → List ℕ → Process (Client Device) (List ℕ)
  read_packet zero i bytes = pure bytes
  read_packet (suc left) i bytes = do
    x ← on_fifo (read_fifo_blocking fifo polls)
    bytes' ← lift (put_at bytes i x)
    read_packet left (i + 1) bytes'

  -- The pass for a packet length that was read.
  unfoldable pub forward_packet : ℕ → List ℕ → Process (Client Device) (List ℕ)
  forward_packet packet_len bytes =
      if ltb max_packet_size packet_len
      then pure bytes
      else read_packet packet_len 0 bytes >>= λ bytes'.
          send_video_packet bytes' packet_len >> pure bytes'

  -- A pass of the loop of `video_send_loop`, over the array `dataBuffer`.
  unfoldable pub video_send_pass : List ℕ → Process (Client Device) (List ℕ)
  video_send_pass bytes = do
    lo ← on_fifo (read_fifo_blocking fifo polls)
    hi ← on_fifo (read_fifo_blocking fifo polls)
    forward_packet (un16 lo hi) bytes

  -- `video_send_loop` never returns: this is where it stands after some passes.
  unfoldable pub video_send_loop : ℕ → List ℕ → Process (Client Device) (List ℕ)
  video_send_loop zero bytes = pure bytes
  video_send_loop (suc passes) bytes = video_send_pass bytes >>= video_send_loop passes

  -- `counter` when the loop of `empty_fifo` ends, with a bound on the reads.
  unfoldable pub empty_from : ℕ → ℕ → ℕ → Process Device ℕ
  unfolding read_data_fifo
  empty_from zero held counter d = pending
  empty_from (suc reads) held counter d =
      let (temp, x, d') = read_data_fifo fifo held d in
      elim (temp == 0) [ true ↦ empty_from reads x (counter + 1) d' | false ↦ ok (counter, d') ]

  unfoldable pub empty_fifo : ℕ → Process (Client Device) ℕ
  empty_fifo reads = on_fifo (empty_from reads 0 0)

-- The variables of the greeting in `run_client`.
pub record Greeter : Type 0 where
  pub src_addr : SockAddr
  pub response : List ℕ

module _ (server_addr : SockAddr) where
  -- The test that ends the greeting.
  unfoldable pub accepted : Greeter → Outcome Bool
  unfolding load addr_match
  accepted g = elim (load g.response 0) [
    | ok x ↦ ok (addr_match g.src_addr server_addr && x == code init_ack)
    | fault ↦ fault
    | exits c ↦ exits c
    | pending ↦ pending
  ]

  -- A pass of the greeting, up to its test.
  unfoldable pub greet_pass : Greeter → Process Net Greeter
  greet_pass g = do
    send_packet_type server_addr init
    (_, from, bytes) ← recv_data_timeout g.src_addr g.response
    pure (record { src_addr = from; response = bytes })

  -- The greeting of `run_client`; the fuel bounds the passes.
  unfoldable pub greet : ℕ → Greeter → Process Net (Unit {0})
  greet zero g net = pending
  greet (suc fuel) g net =
      (greet_pass g >>= λ g'.
      lift (accepted g') >>= elim [ true ↦ pure tt | false ↦ greet fuel g' ])
        net
