-- ===== src/Process.antt =====
-- A C function that reads and changes the state of its process: it gives a result and the state
-- that it leaves, or does not come to its end.
use fagprojekt.Base.{Outcome, ok, fault, exits, pending, ◌≡◌, refl}

abbrev pub Process : Type 0 → Type 0 → Type 0
Process S A = S → Outcome (A × S)

abbrev pub pure : {S A : Type 0} → A → Process S A
pure a s = ok (a, s)

infixl 5 ◌>>=◌ ◌>>◌
abbrev pub ◌>>=◌ : {S A B : Type 0} → Process S A → (A → Process S B) → Process S B
◌>>=◌ m f s = elim (m s) [
  | ok (a, s') ↦ f a s'
  | fault ↦ fault
  | exits c ↦ exits c
  | pending ↦ pending
]

abbrev pub ◌>>◌ : {S B : Type 0} → Process S (Unit {0}) → Process S B → Process S B
m >> k = m >>= λ _. k

-- A part of the state that a function works on, `get` and `put` its place in the whole.
abbrev pub zoom : {S T A : Type 0} → (S → T) → (T → S → S) → Process T A → Process S A
zoom get put m s = elim (m (get s)) [
  | ok (a, t) ↦ ok (a, put t s)
  | fault ↦ fault
  | exits c ↦ exits c
  | pending ↦ pending
]

-- A step that succeeds is passed over.
pub >>=_step :
    {S A B : Type 0} (m : Process S A) (f : A → Process S B) (s : S) {s' : S} {a : A}
    → m s ≡ ok (a, s')
    → (m >>= f) s ≡ f a s'
>>=_step m f s e = rw (e, ◌>>=◌)

-- A function that has no part in the state.
abbrev pub lift : {S A : Type 0} → Outcome A → Process S A
lift m s = elim m [ ok a ↦ ok (a, s) | fault ↦ fault | exits c ↦ exits c | pending ↦ pending ]

abbrev pub modify : {S : Type 0} → (S → S) → Process S (Unit {0})
modify f s = ok (tt, f s)

-- A sequence that succeeds has a first part that succeeds.
pub >>=_inv :
    {S A B : Type 0} (m : Process S A) (f : A → Process S B) (s : S) {t : S} {b : B}
    → (m >>= f) s ≡ ok (b, t)
    → (a : A) × (s' : S) × (m s ≡ ok (a, s')) × (f a s' ≡ ok (b, t))
>>=_inv {S} {A} {B} m f s {t} {b} = inverted (m s)
  where
    inverted :
        (o : Outcome (A × S))
        → ◌>>=◌ {B = B} (λ _. o) f s ≡ ok (b, t)
        → (a : A) × (s' : S) × (o ≡ ok (a, s')) × (f a s' ≡ ok (b, t))
    inverted (ok (a, s')) e = (a, s', refl, e)
    inverted fault e = cc
    inverted (exits c) e = cc
    inverted pending e = cc
