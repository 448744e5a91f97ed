-- ===== src/Threads/Lines/Invariant.antt =====
-- The invariant of the line by line model of the two threads, as long as the line that sets `full`
-- (VideoServer/src/buffer.c) has never set it to true.
use fagprojekt.Base.{
  ℕ, ◌+◌, ◌<◌, ◌≡◌, ◌⊎◌, inl, inr, sym, ◌∙◌, ap, subst, false, List, [], ◌∷◌, ◌++◌, length, slice,
  length-append, arith, refl, ◌%◌, add32,
}
use fagprojekt.Buffer.{CircularBuf}
use fagprojekt.Buffer.Invariant.{IsValid, contents}
use fagprojekt.Buffer.Space.{Room, Found, Room-tail, Room-same, Found-more}
use fagprojekt.Server.Frames.{frames}
use fagprojekt.Threads.Lines.{
  LineSender, idle, asking, calling, copied, moved, compared, LineWriter, testing, reading, loaded,
  advanced, writing, LineSystem,
}
use fagprojekt.Threads.Lines.Sizes.{Bounds}

abbrev pub joined : List (List ℕ) → List ℕ
joined [] = []
joined (c ∷ cs) = c ++ joined cs

-- The bytes that the receiving thread has still to put behind the head.
abbrev pub to_store : LineSender → List ℕ
to_store idle = []
to_store (asking p a) = []
to_store (calling cs) = joined cs
to_store (copied c cs) = c ++ joined cs
to_store (moved cs) = joined cs
to_store (compared full cs) = joined cs

-- The byte that the writing thread has taken out.
abbrev pub in_hand : LineWriter → List ℕ
in_hand (advanced x) = x ∷ []
in_hand (writing x) = x ∷ []
in_hand _ = []

-- The test for a packet is right about the room for it; what was copied stands behind the head; a
-- comparison came out true only over an empty buffer.
abbrev pub Ready : LineSender → CircularBuf → Type 0
Ready (asking p a) b = Room p a b
Ready (copied c cs) b = slice b.buffer b.head (length c) ≡ c
Ready (compared full cs) b = (full ≡ false) ⊎ (contents b ≡ [])
Ready _ b = Unit

-- The writing thread's test is right about a byte that is there, and the thread has found one, or has
-- read the first.
abbrev pub Held : LineWriter → CircularBuf → Type 0
Held (testing a) b = Found a b
Held reading b = 0 < length (contents b)
Held (loaded x) b = (r : List ℕ) × (contents b ≡ x ∷ r)
Held _ b = Unit

pub record Inv (s : LineSystem) : Type 0 where
  pub bounds : Bounds s
  pub open_ : s.buffer.full ≡ false
  pub ready : Ready s.sender s.buffer
  pub room : length (contents s.buffer) + length (to_store s.sender) < s.buffer.max
  pub held : Held s.writer s.buffer
  pub stream :
      s.out ++ (in_hand s.writer ++ (contents s.buffer ++ to_store s.sender)) ≡ frames s.accepted

pub Inv-IsValid : {s : LineSystem} → Inv s → IsValid s.buffer
Inv-IsValid inv = record {
  nonempty = inv.bounds.nonempty;
  small = inv.bounds.small;
  block = inv.bounds.block;
  head_in = inv.bounds.head_in;
  tail_in = inv.bounds.tail_in;
  full_at = λ e. absurd (cc (inv.open_));
}

-- Facts of a state whose threads stand at known places.
pub stream_at :
    (s : LineSystem) (w : LineSender) (r : LineWriter)
    → Inv s
    → s.sender ≡ w
    → s.writer ≡ r
    → s.out ++ (in_hand r ++ (contents s.buffer ++ to_store w)) ≡ frames s.accepted
stream_at s w r inv e f =
    ap (λ x. s.out ++ (in_hand r ++ (contents s.buffer ++ to_store x))) (sym e)
    ∙ ap (λ x. s.out ++ (in_hand x ++ (contents s.buffer ++ to_store s.sender))) (sym f)
    ∙ inv.stream

pub room_at :
    (s : LineSystem) (w : LineSender)
    → Inv s
    → s.sender ≡ w
    → length (contents s.buffer) + length (to_store w) < s.buffer.max
room_at s w inv e =
    subst (λ x. length (contents s.buffer) + length (to_store x) < s.buffer.max) e inv.room

pub Held-at : (s : LineSystem) (w : LineWriter) → Inv s → s.writer ≡ w → Held w s.buffer
Held-at s w inv e = subst (λ x. Held x s.buffer) e inv.held

pub Ready-at : (s : LineSystem) (w : LineSender) → Inv s → s.sender ≡ w → Ready w s.buffer
Ready-at s w inv e = subst (λ x. Ready x s.buffer) e inv.ready

-- What the writing thread has found stays when more is put behind it.
pub Held-more :
    (w : LineWriter) (b b' : CircularBuf) (c : List ℕ)
    → contents b' ≡ contents b ++ c
    → b'.max ≡ b.max
    → Held w b
    → Held w b'
Held-more (testing a) b b' c e same h = Found-more a b b' c e same h
Held-more reading b b' c e same h = omega (arith, ap length e, length-append (contents b) c)
Held-more (loaded x) b b' c e same (r, h) = (r ++ c, e ∙ ap (λ l. l ++ c) h)
Held-more (advanced x) b b' c e same h = tt
Held-more (writing x) b b' c e same h = tt

pub same_contents :
    (b : CircularBuf) → b.full ≡ false → contents (record b { full = false }) ≡ contents b
same_contents b open_ = ap (λ f. contents (record b { full = f })) (sym open_)

-- What the writing thread does to the tail of a buffer that is not empty, and to `full`, leaves what
-- the place of the receiving thread says.
pub Ready-tail :
    (w : LineSender) (b : CircularBuf) (x : ℕ)
    → IsValid b
    → b.full ≡ false
    → contents b ≡ x ∷ contents (record b { tail = add32 b.tail 1 % b.max })
    → Ready w b
    → Ready w (record b { tail = add32 b.tail 1 % b.max })
Ready-tail idle b x v open_ e h = h
Ready-tail (asking p a) b x v open_ e h = Room-tail v open_ p a x e h
Ready-tail (calling cs) b x v open_ e h = h
Ready-tail (copied c cs) b x v open_ e h = h
Ready-tail (moved cs) b x v open_ e h = h
Ready-tail (compared full cs) b x v open_ e (inl h) = inl h
Ready-tail (compared full cs) b x v open_ e (inr h) = absurd (cc)

pub Ready-full :
    (w : LineSender) (b : CircularBuf)
    → b.full ≡ false
    → Ready w b
    → Ready w (record b { full = false })
Ready-full idle b open_ h = h
Ready-full (asking p a) b open_ h =
    Room-same p a b (record b { full = false }) (same_contents b open_) (refl, refl, refl) h
Ready-full (calling cs) b open_ h = h
Ready-full (copied c cs) b open_ h = h
Ready-full (moved cs) b open_ h = h
Ready-full (compared full cs) b open_ (inl h) = inl h
Ready-full (compared full cs) b open_ (inr h) = inr (same_contents b open_ ∙ h)
