-- ===== src/Client/Emptying.antt =====
-- `empty_fifo`: what the client throws away before its greeting.
use fagprojekt.Base.{
  ℕ, zero, suc, ◌+◌, ◌<◌, ◌≡◌, refl, ◌∙◌, ap, true, false, List, [], ◌∷◌, ◌++◌, length, arith,
  Bool-cases, inl, inr, ok,
}
use fagprojekt.Fifo.{FifoDevice, rx_empty, read_data_fifo}
use fagprojekt.Fifo.Laws.{IsFifo}
use fagprojekt.Connection.{SockAddr}
use fagprojekt.Process.{zoom}
use fagprojekt.Client.{Client, empty_from, empty_fifo}

-- A read that finds the FIFO empty, and one that does not.
module _ (fifo : FifoDevice) where
  open fifo use {Device, read_rx}

  pub read_data_fifo-empty :
      (held : ℕ) (d : Device) → rx_empty fifo d ≡ true → read_data_fifo fifo held d ≡ (1, held, d)
  unfolding read_data_fifo
  read_data_fifo-empty held d e = rw e refl

  pub read_data_fifo-more :
      (held : ℕ) (d : Device)
      → rx_empty fifo d ≡ false
      → read_data_fifo fifo held d ≡ (0, (read_rx d).0, (read_rx d).1)
  unfolding read_data_fifo
  read_data_fifo-more held d e = rw e refl

-- The device after reads until it is empty, `n` at most.
unfoldable pub emptied : (fifo : FifoDevice) → ℕ → fifo.Device → fifo.Device
emptied fifo zero d = d
emptied fifo (suc n) d = elim (rx_empty fifo d) [
  | true ↦ d
  | false ↦ emptied fifo n (fifo.read_rx d).1
]

module _ (fifo : FifoDevice) (incoming outgoing : fifo.Device → List ℕ) (patience : ℕ)
    (laws : IsFifo fifo incoming outgoing patience) (polls : ℕ) (server_addr : SockAddr) where
  open fifo use {Device, read_rx}

  emptied-empty : (n : ℕ) (d : Device) → rx_empty fifo d ≡ true → emptied fifo (suc n) d ≡ d
  unfolding emptied
  emptied-empty n d e = rw (e, emptied) refl

  emptied-more :
      (n : ℕ) (d : Device)
      → rx_empty fifo d ≡ false
      → emptied fifo (suc n) d ≡ emptied fifo n (read_rx d).1
  unfolding emptied
  emptied-more n d e = rw (e, emptied) refl

  -- The loop of `empty_fifo` ends, with more reads allowed than there are bytes to come: it takes
  -- bytes off the front of what comes in, counts them, and stops when the FIFO is empty.
  pub empty_from_lem :
      (reads held counter : ℕ) (d : Device)
      → length (incoming d) < reads
      → (dropped : List ℕ) × (empty_from fifo polls server_addr reads held counter d
          ≡ ok (counter + length dropped, emptied fifo reads d))
        × (incoming d ≡ dropped ++ incoming (emptied fifo reads d))
        × (rx_empty fifo (emptied fifo reads d) ≡ true)
        × (outgoing (emptied fifo reads d) ≡ outgoing d)
  unfolding empty_from
  empty_from_lem zero held counter d h = absurd (omega arith)
  empty_from_lem (suc reads) held counter d h = elim (Bool-cases (rx_empty fifo d)) [
    | inl empty ↦
        rw (emptied-empty reads d empty)
          ([], ground (arith, read_data_fifo-empty fifo held d empty), refl, empty, refl)
    | inr more ↦
        let (front, out) = laws.pull d more in
        let x = (read_rx d).0 in
        let d1 = (read_rx d).1 in
        let (dropped, done, rest, empty, out') =
          empty_from_lem reads x (counter + 1) d1 (omega (arith, ap length front)) in
        rw (emptied-more reads d more) (
          x ∷ dropped,
          ground (arith, read_data_fifo-more fifo held d more, done),
          front ∙ ap (λ l. x ∷ l) rest,
          empty,
          out' ∙ out,
        )
  ]

  pub empty_fifo_lem :
      (reads : ℕ) (c : Client Device)
      → length (incoming c.dev) < reads
      → (dropped : List ℕ) × (empty_fifo fifo polls server_addr reads c
          ≡ ok (length dropped, record c { dev = emptied fifo reads c.dev }))
        × (incoming c.dev ≡ dropped ++ incoming (emptied fifo reads c.dev))
        × (rx_empty fifo (emptied fifo reads c.dev) ≡ true)
  unfolding empty_fifo
  empty_fifo_lem reads c h =
      let (dropped, done, rest, empty, _) = empty_from_lem reads 0 0 c.dev h in
      let count : 0 + length dropped ≡ length dropped = omega arith in
      (dropped, rw (done, zoom, count) refl, rest, empty)
