-- ===== src/Base/Every.antt =====
-- Predicates of all members of a list.
use mathlib.Core.List.{List, [], ◌∷◌, ◌++◌}

abbrev pub All {ℓ κ} : {A : Type ℓ} → (A → Type κ) → List A → Type κ
All holds [] = Unit
All holds (z ∷ zs) = holds z × All holds zs

pub All-append {ℓ κ} :
    {A : Type ℓ} (holds : A → Type κ) (front back : List A)
    → All holds front
    → All holds back
    → All holds (front ++ back)
All-append holds [] back _ of_back = of_back
All-append holds (z ∷ front) back (first, others) of_back =
    (first, All-append holds front back others of_back)

-- A member and the others.
pub All-pick {ℓ κ} :
    {A : Type ℓ} (P : A → Type κ) (xs ys : List A) (z : A)
    → All P (xs ++ (z ∷ ys))
    → P z × All P (xs ++ ys)
All-pick P [] ys z h = h
All-pick P (x ∷ xs) ys z (h, hs) = let (hz, others) = All-pick P xs ys z hs in (hz, (h, others))

pub All-insert {ℓ κ} :
    {A : Type ℓ} (P : A → Type κ) (xs ys : List A) (z : A)
    → P z
    → All P (xs ++ ys)
    → All P (xs ++ (z ∷ ys))
All-insert P [] ys z hz h = (hz, h)
All-insert P (x ∷ xs) ys z hz (h, hs) = (h, All-insert P xs ys z hz hs)

pub All-map {ℓ κ} :
    {A : Type ℓ} (P Q : A → Type κ) (xs : List A) → ((x : A) → P x → Q x) → All P xs → All Q xs
All-map P Q [] f h = tt
All-map P Q (x ∷ xs) f (h, hs) = (f x h, All-map P Q xs f hs)
