-- ===== src/Buffer/Space.antt =====
-- `get_space` of VideoServer/src/buffer.c line by line, for two threads that share the buffer: each
-- of its lines reads the fields as they are when the thread comes to it.
use fagprojekt.Base.{
  ℕ, ◌+◌, ◌%◌, ◌≤◌, ◌<◌, ◌≡◌, ◌⊎◌, inl, inr, Bool, true, false, Bool-cases, ltb, ◌==◌, length, List,
  add32, sub32, int_lt, arith, subst, refl, ap, ◌∷◌, ◌++◌, length-append,
}
use fagprojekt.Buffer.{CircularBuf, get_space}
use fagprojekt.Buffer.Invariant.{IsValid, contents, get_space_lem}
use fagprojekt.Buffer.Contents.{get_space-contents}
use fagprojekt.Connection.{max_packet_size}

-- Where a thread stands in a call of `get_space`: before the test of `full`, before the comparison
-- of `head` and `tail`, before the subtraction of the branch that the comparison chose, and after.
pub data SpaceCall : Type 0 where
  entered comparing : SpaceCall
  subtracting : Bool → SpaceCall
  answered : ℕ → SpaceCall

-- A line of `get_space` over the buffer `b`.
pub data SpaceLine (b : CircularBuf) : SpaceCall → SpaceCall → Type 0 where
  see_full : b.full ≡ true → SpaceLine b entered (answered 0)
  see_open : b.full ≡ false → SpaceLine b entered comparing
  compare_ends : SpaceLine b comparing (subtracting (ltb b.head b.tail))
  subtract_wrapped :
      SpaceLine b (subtracting true) (answered (sub32 b.max (sub32 (add32 b.head b.max) b.tail)))
  subtract : SpaceLine b (subtracting false) (answered (sub32 b.max (sub32 b.head b.tail)))

-- Over a buffer that nobody changes, the lines give what `get_space` returns.
pub space_lines :
    (b : CircularBuf) (P : SpaceCall → Type 0)
    → ((a a' : SpaceCall) → SpaceLine b a a' → P a → P a')
    → P entered
    → P (answered (get_space b))
unfolding get_space
space_lines b P line p = elim (Bool-cases b.full) [
  | inl full ↦
      let space : 0 ≡ get_space b = ground arith in
      subst (λ n. P (answered n)) space (line _ _ (see_full full) p)
  | inr open_ ↦
      let chosen = line _ _ compare_ends (line _ _ (see_open open_) p) in
      elim (Bool-cases (ltb b.head b.tail)) [
        | inl wrapped ↦
            let space : sub32 b.max (sub32 (add32 b.head b.max) b.tail) ≡ get_space b =
              ground arith in
            subst (λ n. P (answered n)) space
              (line _ _ subtract_wrapped (subst (λ c. P (subtracting c)) wrapped chosen))
        | inr ahead ↦
            let space : sub32 b.max (sub32 b.head b.tail) ≡ get_space b = ground arith in
            subst (λ n. P (answered n)) space
              (line _ _ subtract (subst (λ c. P (subtracting c)) ahead chosen))
      ]
]

-- What a thread that alone moves `head` knows of the room for the packet `p` and its length, while
-- the other may take bytes out.
abbrev pub Room : List ℕ → SpaceCall → CircularBuf → Type 0
Room p (subtracting false) b = b.tail ≤ b.head
Room p (answered n) b =
    int_lt (add32 (length p) 2) n ≡ true
    → length p ≤ max_packet_size
    → length (contents b) + (length p + 2) < b.max
Room p _ b = Unit

-- What a thread that alone moves `tail` knows, while the other may put bytes behind the head.
abbrev pub Found : SpaceCall → CircularBuf → Type 0
Found (subtracting true) b = 0 < length (contents b)
Found (answered n) b = (n ≡ b.max) ⊎ (0 < length (contents b))
Found _ b = Unit

compared-Room :
    (p : List ℕ) (b : CircularBuf) (c : Bool) → ltb b.head b.tail ≡ c → Room p (subtracting c) b
compared-Room p b true e = tt
compared-Room p b false e = ground arith

module _ {b : CircularBuf} (v : IsValid b) (open_ : b.full ≡ false) where
  pub SpaceLine-Room : (p : List ℕ) {a a' : SpaceCall} → SpaceLine b a a' → Room p a b → Room p a' b
  SpaceLine-Room p (see_full full) h = absurd (cc)
  SpaceLine-Room p (see_open e) h = tt
  SpaceLine-Room p compare_ends h = compared-Room p b (ltb b.head b.tail) refl
  SpaceLine-Room p subtract_wrapped h =
      λ e size. ground (arith, v.small, v.head_in, v.tail_in, get_space-contents v, get_space_lem v)
  SpaceLine-Room p subtract h =
      λ e size. ground (arith, v.small, v.head_in, v.tail_in, get_space-contents v, get_space_lem v)

  compared-Found : (c : Bool) → ltb b.head b.tail ≡ c → Found (subtracting c) b
  compared-Found true e = ground (arith, get_space-contents v, get_space_lem v)
  compared-Found false e = tt

  pub SpaceLine-Found : {a a' : SpaceCall} → SpaceLine b a a' → Found a b → Found a' b
  SpaceLine-Found (see_full full) h = absurd (cc)
  SpaceLine-Found (see_open e) h = tt
  SpaceLine-Found compare_ends h = compared-Found (ltb b.head b.tail) refl
  SpaceLine-Found subtract_wrapped h = inr h
  SpaceLine-Found subtract h = elim (Bool-cases (b.head == b.tail)) [
    | inl meet ↦ inl (ground (arith, v.small))
    | inr apart ↦ inr (ground (arith, get_space-contents v, get_space_lem v))
  ]

  pub Room-tail :
      (p : List ℕ) (a : SpaceCall) (x : ℕ)
      → contents b ≡ x ∷ contents (record b { tail = add32 b.tail 1 % b.max })
      → Room p a b
      → Room p a (record b { tail = add32 b.tail 1 % b.max })
  Room-tail p entered x e h = tt
  Room-tail p comparing x e h = tt
  Room-tail p (subtracting true) x e h = tt
  Room-tail p (subtracting false) x e h =
      ground (arith, v.small, ap length e, get_space-contents v, get_space_lem v)
  Room-tail p (answered n) x e h = λ fits size. omega (arith, h fits size, ap length e)

-- Another buffer with the same bytes and indices.
pub Room-same :
    (p : List ℕ) (a : SpaceCall) (b b' : CircularBuf)
    → contents b' ≡ contents b
    → (b'.head ≡ b.head) × (b'.tail ≡ b.tail) × (b'.max ≡ b.max)
    → Room p a b
    → Room p a b'
Room-same p entered b b' e same h = tt
Room-same p comparing b b' e same h = tt
Room-same p (subtracting true) b b' e same h = tt
Room-same p (subtracting false) b b' e (same_head, same_tail, _) h = omega arith
Room-same p (answered n) b b' e (_, _, same_max) h =
    λ fits size. omega (arith, h fits size, ap length e)

pub Found-more :
    (a : SpaceCall) (b b' : CircularBuf) (c : List ℕ)
    → contents b' ≡ contents b ++ c
    → b'.max ≡ b.max
    → Found a b
    → Found a b'
Found-more entered b b' c e same h = tt
Found-more comparing b b' c e same h = tt
Found-more (subtracting true) b b' c e same h =
    omega (arith, ap length e, length-append (contents b) c)
Found-more (subtracting false) b b' c e same h = tt
Found-more (answered n) b b' c e same (inl all) = inl (omega arith)
Found-more (answered n) b b' c e same (inr some_held) =
    inr (omega (arith, ap length e, length-append (contents b) c))
