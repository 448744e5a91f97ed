-- ===== src/Client/TestClient.antt =====
-- The choices of the test client.
use fagprojekt.Base.{ℕ, ◌+◌, ◌<◌, ◌≡◌, List, ◌++◌, length, take, drop, true, ◌⊎◌, ok}
use fagprojekt.Connection.{SockAddr}
use fagprojekt.Fifo.{FifoDevice, rx_empty}
use fagprojekt.Fifo.Laws.{IsFifo}
use fagprojekt.Client.{Client}
use fagprojekt.Client.Program.{read_amount}

module _ (fifo : FifoDevice) (incoming outgoing : fifo.Device → List ℕ) (patience : ℕ)
    (laws : IsFifo fifo incoming outgoing patience) (polls : ℕ) (server_addr : SockAddr) where
  open fifo use {Device, read_rx}

  -- The bytes of the block from its front on are those taken; fewer than asked for only when the FIFO
  -- has become empty, and those behind them are as they were.
  Reads : ℕ → ℕ → List ℕ → Client Device → Type 0
  Reads left i bytes c =
      (taken : List ℕ) × (d : Device) × (read_amount fifo polls left i bytes c
        ≡ ok (take i bytes ++ (taken ++ drop (i + length taken) bytes), record c { dev = d }))
      × (incoming c.dev ≡ taken ++ incoming d)
      × ((length taken ≡ left) ⊎ ((length taken < left) × (rx_empty fifo d ≡ true)))
