-- ===== src/Base/Blocks.antt =====
-- What a part of an array holds after a block has been written into the array.
use Prim.Native.Nat.{ℕ, zero, suc, ◌+◌, ◌-◌, ◌≤◌, ◌<◌}
use mathlib.Core.Path.{◌≡◌, refl, ap, ap₂, ◌∙◌}
use mathlib.Core.List.{List, [], ◌∷◌, ◌++◌, append-nil}
use mathlib.Core.Option.{some}
use native.Mathlib.Omega.{arith}
use fagprojekt.Base.Lists.{length, take, drop, get_elem?, length-append, length-drop}
use fagprojekt.Base.Parts.{
  take-append_of_le, take-append_past, drop-append_of_le, drop-append_past, drop-drop, drop-take,
  length-take_of_le, slice, blit,
}

module _ {ℓ} {A : Type ℓ} where
  pub take-take : (m n : ℕ) (xs : List A) → m ≤ n → take m (take n xs) ≡ take m xs
  take-take zero n xs h = refl
  take-take (suc m) zero xs h = absurd (omega arith)
  take-take (suc m) (suc n) [] h = refl
  take-take (suc m) (suc n) (x ∷ xs) h = ap (λ l. x ∷ l) (take-take m n xs (omega arith))

  -- The element at an index in range starts each part that begins there.
  pub slice-cons :
      (i : ℕ) (a : List A)
      → i < length a
      → (x : A) × (get_elem? a i ≡ some x) × ((n : ℕ) → slice a i (suc n) ≡ x ∷ slice a (suc i) n)
  slice-cons i [] h = absurd (omega arith)
  slice-cons zero (x ∷ a) h = (x, refl, λ n. refl)
  slice-cons (suc i) (x ∷ a) h = slice-cons i a (omega arith)

module _ {ℓ} {A : Type ℓ} (a : List A) (i : ℕ) (s : List A) (fits : i + length s ≤ length a) where
  length-front : length (take i a) ≡ i
  length-front = length-take_of_le i a (omega arith)

  drop-blit :
      (t : ℕ) → t ≤ i → drop t (blit a i s) ≡ slice a t (i - t) ++ (s ++ drop (i + length s) a)
  drop-blit t h =
      drop-append_of_le t (take i a) _ (omega (arith, length-front))
      ∙ ap (λ l. l ++ (s ++ drop (i + length s) a)) (drop-take t i a)

  length-before : (t : ℕ) → t ≤ i → length (slice a t (i - t)) ≡ i - t
  length-before t h = length-take_of_le (i - t) (drop t a) (omega (arith, length-drop t a))

  -- A part in front of the written block is as before.
  pub slice-blit_before : (t n : ℕ) → t + n ≤ i → slice (blit a i s) t n ≡ slice a t n
  slice-blit_before t n h =
      ap (take n) (drop-blit t (omega arith))
      ∙ take-append_of_le n (slice a t (i - t)) _ (omega (arith, length-before t (omega arith)))
      ∙ take-take n (i - t) (drop t a) (omega arith)

  -- A part that ends with the written block is the old part in front, then the block.
  pub slice-blit_across :
      (t n : ℕ) → t ≤ i → n ≡ i - t + length s → slice (blit a i s) t n ≡ slice a t (i - t) ++ s
  slice-blit_across t n h e =
      ap₂ take count (drop-blit t h)
      ∙ take-append_past (length s + 0) (slice a t (i - t)) _
      ∙ ap (λ l. slice a t (i - t) ++ l) (take-append_past 0 s _ ∙ append-nil s)
    where
      count : n ≡ length (slice a t (i - t)) + (length s + 0)
      count = omega (arith, length-before t h)

  -- A part behind the written block is as before.
  pub slice-blit_after : (t n : ℕ) → i + length s ≤ t → slice (blit a i s) t n ≡ slice a t n
  slice-blit_after t n h = ap (take n) (
      ap (λ k. drop k (blit a i s)) at_front
      ∙ drop-append_past (length s + (t - (i + length s))) (take i a) _
      ∙ drop-append_past (t - (i + length s)) s _
      ∙ drop-drop (t - (i + length s)) (i + length s) a
      ∙ ap (λ k. drop k a) (omega arith))
    where
      at_front : t ≡ length (take i a) + (length s + (t - (i + length s)))
      at_front = omega (arith, length-front)

  pub length-blit : length (blit a i s) ≡ length a
  length-blit = omega (
    arith,
    length-append (take i a) (s ++ drop (i + length s) a),
    length-append s (drop (i + length s) a),
    length-front,
    length-drop (i + length s) a,
  )
