-- ===== src/Base/Parts.antt =====
-- Laws of `take`, `drop` and of a part of an array.
use Prim.Native.Nat.{ℕ, zero, suc, ◌+◌, ◌-◌, ◌≤◌}
use mathlib.Core.Path.{◌≡◌, refl, ap, sym, ◌∙◌}
use mathlib.Core.List.{List, [], ◌∷◌, ◌++◌}
use native.Mathlib.Omega.{arith}
use fagprojekt.Base.Lists.{length, take, drop, length-take}

module _ {ℓ} {A : Type ℓ} where
  pub drop-nil : (n : ℕ) → drop {A = A} n [] ≡ []
  drop-nil zero = refl
  drop-nil (suc n) = refl

  pub take-append_of_le : (n : ℕ) (xs ys : List A) → n ≤ length xs → take n (xs ++ ys) ≡ take n xs
  take-append_of_le zero xs ys h = refl
  take-append_of_le (suc n) [] ys h = absurd (omega arith)
  take-append_of_le (suc n) (x ∷ xs) ys h =
      ap (λ l. x ∷ l) (take-append_of_le n xs ys (omega arith))

  pub take-append_past :
      (n : ℕ) (xs ys : List A) → take (length xs + n) (xs ++ ys) ≡ xs ++ take n ys
  take-append_past n [] ys = ap (λ k. take k ys) (omega arith)
  take-append_past n (x ∷ xs) ys =
      (let e : length (x ∷ xs) + n ≡ suc (length xs + n) = omega arith in
        rw e (ap (λ l. x ∷ l) (take-append_past n xs ys)))

  pub drop-append_of_le :
      (n : ℕ) (xs ys : List A) → n ≤ length xs → drop n (xs ++ ys) ≡ drop n xs ++ ys
  drop-append_of_le zero xs ys h = refl
  drop-append_of_le (suc n) [] ys h = absurd (omega arith)
  drop-append_of_le (suc n) (x ∷ xs) ys h = drop-append_of_le n xs ys (omega arith)

  pub drop-append_past : (n : ℕ) (xs ys : List A) → drop (length xs + n) (xs ++ ys) ≡ drop n ys
  drop-append_past n [] ys = ap (λ k. drop k ys) (omega arith)
  drop-append_past n (x ∷ xs) ys =
      (let e : length (x ∷ xs) + n ≡ suc (length xs + n) = omega arith in
        rw e (drop-append_past n xs ys))

  pub drop-drop : (m n : ℕ) (xs : List A) → drop m (drop n xs) ≡ drop (n + m) xs
  drop-drop m zero xs = ap (λ k. drop k xs) (omega arith)
  drop-drop m (suc n) [] = drop-nil m ∙ sym (drop-nil (suc n + m))
  drop-drop m (suc n) (x ∷ xs) =
      drop-drop m n xs ∙ ap (λ k. drop k (x ∷ xs)) {x = suc (n + m)} {y = suc n + m} (omega arith)

  pub drop-take : (m n : ℕ) (xs : List A) → drop m (take n xs) ≡ take (n - m) (drop m xs)
  drop-take zero n xs = ap (λ k. take k xs) (omega arith)
  drop-take (suc m) zero xs =
      ap (λ k. take k (drop (suc m) xs)) {x = 0} {y = 0 - suc m} (omega arith)
  drop-take (suc m) (suc n) [] = sym (take-nil (suc n - suc m))
    where
      take-nil : (k : ℕ) → take {A = A} k [] ≡ []
      take-nil zero = refl
      take-nil (suc k) = refl
  drop-take (suc m) (suc n) (x ∷ xs) =
      drop-take m n xs ∙ ap (λ k. take k (drop m xs)) {x = n - m} {y = suc n - suc m} (omega arith)

  pub take-length : (n : ℕ) (xs : List A) → length xs ≤ n → take n xs ≡ xs
  take-length zero [] h = refl
  take-length zero (x ∷ xs) h = absurd (omega arith)
  take-length (suc n) [] h = refl
  take-length (suc n) (x ∷ xs) h = ap (λ l. x ∷ l) (take-length n xs (omega arith))

  pub length-take_of_le : (n : ℕ) (xs : List A) → n ≤ length xs → length (take n xs) ≡ n
  length-take_of_le n xs h = omega (arith, length-take n xs)

  -- `n` elements from index `i` on
  abbrev pub slice : List A → ℕ → ℕ → List A
  slice a i n = take n (drop i a)

  -- the array `a` with `s` written from index `i` on
  abbrev pub blit : List A → ℕ → List A → List A
  blit a i s = take i a ++ (s ++ drop (i + length s) a)

  pub take-append_length : (xs ys : List A) → take (length xs) (xs ++ ys) ≡ xs
  take-append_length [] ys = refl
  take-append_length (x ∷ xs) ys = ap (λ l. x ∷ l) (take-append_length xs ys)

  pub eq_nil_of_length : (l : List A) → length l ≡ 0 → l ≡ []
  eq_nil_of_length [] e = refl
  eq_nil_of_length (x ∷ l) e = absurd (omega arith)
