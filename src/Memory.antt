-- ===== src/Memory.antt =====
-- Reads and writes of arrays in C: an access out of bounds is a fault.
use fagprojekt.Base.{
  ℕ, zero, suc, ◌+◌, ◌/◌, ◌%◌, ◌≤◌, ◌<◌, ◌≡◌, refl, ap, ◌∙◌, ltb, set, arith, List, [], ◌∷◌, ◌++◌,
  leb, ◌&&◌, if◌then◌else◌, none, some, length, take, drop, get_elem?, Outcome, ok, fault, blit,
  length-take_of_le,
}

-- memcpy of `n` bytes to index `i` of a block: defined if both sides hold as many bytes.
unfoldable pub memcpy : List ℕ → ℕ → List ℕ → ℕ → Outcome (List ℕ)
memcpy dst i src n =
    if leb n (length src) && leb (i + n) (length dst)
    then ok (take i dst ++ (take n src ++ drop (i + n) dst))
    else fault

-- a[i]
unfoldable pub load : List ℕ → ℕ → Outcome ℕ
load a i = elim (get_elem? a i) [ none ↦ fault | some x ↦ ok x ]

pub load_within : (a : List ℕ) (i : ℕ) → i < length a → (x : ℕ) × (load a i ≡ ok x)
unfolding load
load_within [] i h = absurd (omega arith)
load_within (x ∷ a) zero h = (x, refl)
load_within (x ∷ a) (suc i) h = load_within a i (omega arith)

-- The two bytes of an `unsigned short` in memory, the low one first.
abbrev pub le16 : ℕ → List ℕ
le16 n = n % 256 ∷ n / 256 % 256 ∷ []

pub memcpy_lem :
    (dst src : List ℕ) (i n : ℕ)
    → n ≤ length src
    → i + n ≤ length dst
    → memcpy dst i src n ≡ ok (blit dst i (take n src))
unfolding memcpy
memcpy_lem dst src i n h k = ground (arith, length-take_of_le n src)

-- a[i] = x
unfoldable pub put_at : List ℕ → ℕ → ℕ → Outcome (List ℕ)
put_at a i x = if ltb i (length a) then ok (set a i x) else fault

pub put_at_lem : (a : List ℕ) (i x : ℕ) → i < length a → put_at a i x ≡ ok (set a i x)
unfolding put_at
put_at_lem a i x h = ground arith

-- The first `i + 1` elements after the write of the one at `i`.
pub take-set :
    (a : List ℕ) (i x : ℕ) → i < length a → take (i + 1) (set a i x) ≡ take i a ++ (x ∷ [])
take-set [] i x h = absurd (omega arith)
take-set (y ∷ a) zero x h = refl
take-set (y ∷ a) (suc i) x h =
    ap (λ k. take k (set (y ∷ a) (suc i) x)) {x = suc i + 1} {y = suc (i + 1)} (omega arith)
    ∙ ap (λ l. y ∷ l) (take-set a i x (omega arith))

-- What stands behind the write of the element at `i`.
pub drop-set : (a : List ℕ) (i x n : ℕ) → drop (suc (i + n)) (set a i x) ≡ drop (suc (i + n)) a
drop-set [] i x n = refl
drop-set (y ∷ a) zero x n = refl
drop-set (y ∷ a) (suc i) x n =
    ap (λ k. drop k (set a i x)) {x = suc i + n} {y = suc (i + n)} (omega arith)
    ∙ drop-set a i x n
    ∙ ap (λ k. drop k a) {x = suc (i + n)} {y = suc i + n} (omega arith)

-- A byte that is read and written back.
set_loaded : (a : List ℕ) (i x : ℕ) → load a i ≡ ok x → set a i x ≡ a
unfolding load
set_loaded [] i x e = refl
set_loaded (y ∷ a) zero x e = ap (λ z. z ∷ a) (cc e)
set_loaded (y ∷ a) (suc i) x e = ap (λ l. y ∷ l) (set_loaded a i x e)

pub put_at-load : (a : List ℕ) (i x : ℕ) → i < length a → load a i ≡ ok x → put_at a i x ≡ ok a
put_at-load a i x h e = put_at_lem a i x h ∙ ap ok (set_loaded a i x e)
