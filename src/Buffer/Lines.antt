-- ===== src/Buffer/Lines.antt =====
-- What single lines of VideoServer/src/buffer.c do to the bytes of a buffer that is not marked as
-- full.
use fagprojekt.Base.{
  ℕ, ◌+◌, ◌-◌, ◌%◌, ◌≤◌, ◌<◌, ◌≡◌, ◌⊎◌, inl, inr, Bool-cases, eq_nil_of_length, refl, sym, ◌∙◌, ap,
  false, List, [], ◌∷◌, ◌++◌, length, take, drop, slice, blit, slice-blit_across, slice-blit_after,
  slice-blit_before, take-append-drop, drop-drop, length-append, some, ok, get_elem?, add32, arith,
  ◌==◌,
}
use fagprojekt.Buffer.{CircularBuf, get_space}
use fagprojekt.Memory.{load}
use fagprojekt.Buffer.Invariant.{IsValid, contents, put, put-IsValid, get_space_lem}
use fagprojekt.Buffer.Contents.{get_space-contents, contents-put, contents-pop, pop}

pub slice-blit_self :
    (a : List ℕ) (i : ℕ) (c : List ℕ)
    → i + length c ≤ length a
    → slice (blit a i c) i (length c) ≡ c
slice-blit_self a i c fits =
    slice-blit_across a i c fits i (length c) (omega arith) (omega arith)
    ∙ ap (λ k. take k (drop i a) ++ c) {x = i - i} {y = 0} (omega arith)

-- A block that is already there is written.
blit-slice : (a : List ℕ) (i : ℕ) (c : List ℕ) → slice a i (length c) ≡ c → blit a i c ≡ a
blit-slice a i c there =
    ap (λ l. take i a ++ (l ++ drop (i + length c) a)) (sym there)
    ∙ ap (λ l. take i a ++ (take (length c) (drop i a) ++ l)) (sym (drop-drop (length c) i a))
    ∙ ap (λ l. take i a ++ l) (take-append-drop (length c) (drop i a))
    ∙ take-append-drop i a

put-max : (c : List ℕ) (b : CircularBuf) → (put c b).max ≡ b.max
unfolding put
put-max c b = refl

put-fields :
    (c : List ℕ) (b : CircularBuf)
    → record b {
      buffer = blit b.buffer b.head c;
      head = (b.head + length c) % b.max;
      full = (put c b).full;
    }
      ≡ put c b
unfolding put
put-fields c b = refl

load-same : (a : List ℕ) (i x y : ℕ) → get_elem? a i ≡ some y → load a i ≡ ok x → y ≡ x
unfolding load
load-same a i x y e loads = ground arith

same_first : (l m : List ℕ) (x y : ℕ) → x ∷ l ≡ y ∷ m → x ≡ y
same_first l m x y e = cc e

module _ {b : CircularBuf} (v : IsValid b) (open_ : b.full ≡ false) where
  -- The line that copies changes only places that are free.
  pub contents-blit :
      (c : List ℕ)
      → b.head + length c ≤ b.max
      → length (contents b) + length c < b.max
      → contents (record b { buffer = blit b.buffer b.head c }) ≡ contents b
  contents-blit c inside room = ground (
    arith,
    get_space-contents v,
    get_space_lem v,
    slice-blit_after b.buffer b.head c (omega arith) b.tail (b.max - b.tail),
    slice-blit_before b.buffer b.head c (omega arith) 0 b.head,
    slice-blit_before b.buffer b.head c (omega arith) b.tail (b.head - b.tail),
  )

  put_open :
      (c : List ℕ)
      → 0 < length c
      → b.head + length c ≤ b.max
      → length (contents b) + length c < b.max
      → (put c b).full ≡ false
  put_open c pos inside room =
      let w = put-IsValid c v inside in
      let more = contents-put c v pos inside (omega (arith, get_space-contents v)) in
      let space : 0 < get_space (put c b) =
        omega (
          arith,
          get_space-contents w,
          put-max c b,
          ap length more,
          length-append (contents b) c,
        ) in
      ground (arith, get_space_lem w)

  move-put :
      (c : List ℕ)
      → 0 < length c
      → b.head + length c ≤ b.max
      → length (contents b) + length c < b.max
      → slice b.buffer b.head (length c) ≡ c
      → record b { head = add32 b.head (length c) % b.max } ≡ put c b
  move-put c pos inside room there =
      let sum : add32 b.head (length c) ≡ b.head + length c = omega (arith, v.small, v.head_in) in
      ap (λ k. record b { head = k % b.max }) sum
      ∙ ap (λ a. record b { buffer = a; head = (b.head + length c) % b.max })
          (sym (blit-slice b.buffer b.head c there))
      ∙ ap
          (λ f. record b {
            buffer = blit b.buffer b.head c;
            head = (b.head + length c) % b.max;
            full = f;
          })
          (open_ ∙ sym (put_open c pos inside room))
      ∙ put-fields c b

  -- The line that moves `head` takes in the bytes that were copied behind it.
  pub contents-move :
      (c : List ℕ)
      → 0 < length c
      → b.head + length c ≤ b.max
      → length (contents b) + length c < b.max
      → slice b.buffer b.head (length c) ≡ c
      → contents (record b { head = add32 b.head (length c) % b.max }) ≡ contents b ++ c
  contents-move c pos inside room there =
      ap contents (move-put c pos inside room there)
      ∙ contents-put c v pos inside (omega (arith, get_space-contents v))

  -- The buffer after the three lines of a read.
  pub advance-pop : record b { tail = add32 b.tail 1 % b.max } ≡ pop b
  unfolding pop
  advance-pop =
      let sum : add32 b.tail 1 ≡ b.tail + 1 = omega (arith, v.small, v.tail_in) in
      ap (λ k. record b { tail = k % b.max }) sum
      ∙ ap (λ f. record b { tail = (b.tail + 1) % b.max; full = f }) open_

  -- The line that reads gives the oldest byte, and the line that moves `tail` gives it up.
  pub contents-load :
      (x : ℕ)
      → 0 < length (contents b)
      → load b.buffer b.tail ≡ ok x
      → (r : List ℕ) × (contents b ≡ x ∷ r)
  contents-load x some_held loads =
      let (y, at_tail, parts) = contents-pop v (omega (arith, get_space-contents v)) in
      (
        contents (pop b),
        parts ∙ ap (λ z. z ∷ contents (pop b)) (load-same b.buffer b.tail x y at_tail loads),
      )

  pub contents-advance :
      (x : ℕ) (r : List ℕ)
      → contents b ≡ x ∷ r
      → contents b ≡ x ∷ contents (record b { tail = add32 b.tail 1 % b.max })
  contents-advance x r first =
      let (y, at_tail, parts) =
        contents-pop v (omega (arith, get_space-contents v, ap length first)) in
      parts
      ∙ ap (λ z. z ∷ contents (pop b)) (same_first (contents (pop b)) r y x (sym parts ∙ first))
      ∙ ap (λ c. x ∷ contents c) (sym advance-pop)

  -- Head and tail meet only when the bytes are all taken out.
  pub meet-contents : ((b.head == b.tail) ≡ false) ⊎ (contents b ≡ [])
  meet-contents = elim (Bool-cases (b.head == b.tail)) [
    | inl meet ↦
        let none_used : get_space b ≡ b.max = ground (arith, get_space_lem v) in
        inr (eq_nil_of_length (contents b) (omega (arith, get_space-contents v)))
    | inr apart ↦ inl apart
  ]

pub empty-open : {b : CircularBuf} → IsValid b → contents b ≡ [] → b.full ≡ false
empty-open {b} v e =
    let all : get_space b ≡ b.max = omega (arith, get_space-contents v, ap length e) in
    ground (arith, get_space_lem v)
