-- ===== src/Link/Running/Calls.antt =====
-- What calls that come to their end say of the client's FIFO and socket.
use fagprojekt.Base.{
  ℕ, zero, suc, ◌≡◌, refl, sym, ◌∙◌, ap, List, [], ◌∷◌, ok, Bool-cases, inl, inr, Outcome, fault,
  exits, pending,
}
use fagprojekt.Process.{zoom, lift}
use fagprojekt.Connection.{Net}
use fagprojekt.Fifo.{FifoDevice, rx_empty, fifo_wait_time, read_fifo_blocking}
use fagprojekt.Fifo.Laws.{IsFifo}
use fagprojekt.Client.{Client, on_fifo, on_socket}

pub ok_inv :
    {A S : Type 0} (a b : A) (s t : S)
    → ◌≡◌ {A = Outcome (A × S)} (ok (a, s)) (ok (b, t))
    → (a ≡ b) × (s ≡ t)
ok_inv a b s t e = (cc, cc)

pub lift_inv :
    {S A : Type 0} (o : Outcome A) (a : A) (s t : S) → lift o s ≡ ok (a, t) → (o ≡ ok a) × (s ≡ t)
lift_inv (ok b) a s t e = (cc, cc)
lift_inv fault a s t e = absurd (cc)
lift_inv (exits n) a s t e = absurd (cc)
lift_inv pending a s t e = absurd (cc)

pub on_socket_inv :
    {D : Type 0} (m : Net → Outcome (Unit {0} × Net)) (c c' : Client D)
    → on_socket m c ≡ ok (tt, c')
    → (m c.net ≡ ok (tt, c'.net)) × (c'.dev ≡ c.dev)
on_socket_inv m c c' e = of_outcome (m c.net) refl e
  where
    of_outcome :
        (o : Outcome (Unit {0} × Net))
        → m c.net ≡ o
        → zoom (λ a. a.net) (λ n a. record a { net = n }) (λ n. o) c ≡ ok (tt, c')
        → (m c.net ≡ ok (tt, c'.net)) × (c'.dev ≡ c.dev)
    of_outcome (ok (u, n)) e done =
        let same_c : record c { net = n } ≡ c' = cc in
        (e ∙ ap (λ a. ok (tt, a.net)) same_c, ap (λ a. a.dev) (sym same_c))
    of_outcome fault e done = absurd (cc)
    of_outcome (exits n) e done = absurd (cc)
    of_outcome pending e done = absurd (cc)

module _ (fifo : FifoDevice) (incoming outgoing : fifo.Device → List ℕ) (patience : ℕ)
    (laws : IsFifo fifo incoming outgoing patience) (polls : ℕ) where
  open fifo use {Device, sleep, read_rx}

  -- A read that ends has taken the first byte.
  read_first :
      (fuel : ℕ) (x : ℕ) (d d' : Device)
      → read_fifo_blocking fifo fuel d ≡ ok (x, d')
      → incoming d ≡ x ∷ incoming d'
  unfolding read_fifo_blocking
  read_first zero x d d' e = absurd (cc)
  read_first (suc fuel) x d d' e = elim (Bool-cases (rx_empty fifo d)) [
    | inl empty ↦
        let waits : read_fifo_blocking fifo (suc fuel) d
            ≡ read_fifo_blocking fifo fuel (sleep fifo_wait_time d) =
          rw (empty, read_fifo_blocking) refl in
        sym (laws.idle fifo_wait_time d).0
        ∙ read_first fuel x (sleep fifo_wait_time d) d' (sym waits ∙ e)
    | inr there ↦
        let takes : read_fifo_blocking fifo (suc fuel) d ≡ ok (read_rx d) =
          rw (there, read_fifo_blocking) refl in
        let same : ok (read_rx d) ≡ ok (x, d') = sym takes ∙ e in
        (laws.pull d there).0
        ∙ ap
            (λ r. elim r [
              | ok (y, d1) ↦ y ∷ incoming d1
              | fault ↦ []
              | exits n ↦ []
              | pending ↦ []
            ])
            same
  ]

  -- The client after such a read.
  pub on_fifo_inv :
      (c c' : Client Device) (x : ℕ)
      → on_fifo (read_fifo_blocking fifo polls) c ≡ ok (x, c')
      → (incoming c.dev ≡ x ∷ incoming c'.dev) × (c'.net ≡ c.net)
  on_fifo_inv c c' x e = of_outcome (read_fifo_blocking fifo polls c.dev) refl e
    where
      of_outcome :
          (o : Outcome (ℕ × Device))
          → read_fifo_blocking fifo polls c.dev ≡ o
          → zoom (λ a. a.dev) (λ d a. record a { dev = d }) (λ d. o) c ≡ ok (x, c')
          → (incoming c.dev ≡ x ∷ incoming c'.dev) × (c'.net ≡ c.net)
      of_outcome (ok (y, d)) e done =
          let same_x : y ≡ x = cc in
          let same_c : record c { dev = d } ≡ c' = cc in
          (
            read_first polls y c.dev d e
                ∙ ap (λ n. n ∷ incoming d) same_x
                ∙ ap (λ a. x ∷ incoming a.dev) same_c,
            ap (λ a. a.net) (sym same_c),
          )
      of_outcome fault e done = absurd (cc)
      of_outcome (exits n) e done = absurd (cc)
      of_outcome pending e done = absurd (cc)
