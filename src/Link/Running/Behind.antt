-- ===== src/Link/Running/Behind.antt =====
-- How far the client (VideoServer/src/client.c) is behind the frames that were written.
use fagprojekt.Base.{
  ℕ, ◌<◌, ◌≡◌, ◌⊎◌, inl, inr, refl, sym, subst, ◌∙◌, ap, List, [], ◌∷◌, ◌++◌, length, take, arith,
  append_assoc, length-append, length-take_of_le,
}
use fagprojekt.Memory.{le16}
use fagprojekt.Connection.{max_packet_size}
use fagprojekt.Client.Stream.{AllFit}
use fagprojekt.Server.Packet.{frame}
use fagprojekt.Server.Frames.{frames}
use fagprojekt.Threads.Invariant.{frames-append}
use fagprojekt.Link.Running.{Pass, before_low, before_high, filling}
use fagprojekt.Link.Running.Partial.{partial, InArray, append_cancel, same_length}

-- The client has not read the whole of a packet.
abbrev pub Unfinished : Pass → Type 0
Unfinished (filling len i) = i < len
Unfinished _ = Unit

-- What it has read of it is less than the packet's frame.
pub partial_short :
    (w : Pass) (bytes tail q : List ℕ) (later : List (List ℕ))
    → Unfinished w
    → InArray w bytes
    → length bytes ≡ max_packet_size
    → AllFit (q ∷ later)
    → partial w bytes ++ tail ≡ frames (q ∷ later)
    → length (partial w bytes) < length (frame q)
unfolding frames
partial_short before_low bytes tail q later u inside size fit e = omega arith
partial_short (before_high lo) bytes tail q later u inside size fit e = omega arith
partial_short (filling len i) bytes tail q later u (most, small) size (fits, _) e =
    let (same, _) =
      same_length len (take i bytes) tail q (frames later) (omega (arith, size)) fits
        (e ∙ append_assoc (le16 (length q)) q (frames later)) in
    omega (arith, length-take_of_le i bytes)

-- Of two ways to split a list, one splits it earlier.
pub earlier :
    {A : Type 0} (xs xs' ys ys' : List A)
    → xs ++ xs' ≡ ys ++ ys'
    → ((more : List A) × (ys ≡ xs ++ more)) ⊎ ((y : A) × (more : List A) × (xs ≡ ys ++ (y ∷ more)))
earlier [] xs' ys ys' e = inl (ys, refl)
earlier (x ∷ xs) xs' [] ys' e = inr (x, xs, refl)
earlier (x ∷ xs) xs' (y ∷ ys) ys' e = elim (earlier xs xs' ys ys' (cc e)) [
  | inl (more, s) ↦ inl (more, cc)
  | inr (z, more, s) ↦ inr (z, more, cc)
]

-- What is taken does not reach the end of the next frame.
pub taken_short :
    (ps qs others : List (List ℕ)) (q : List ℕ) (more : List (List ℕ)) (w : Pass)
    (bytes taken tail : List ℕ)
    → Unfinished w
    → InArray w bytes
    → length bytes ≡ max_packet_size
    → AllFit qs
    → partial w bytes ++ tail ≡ frames qs
    → taken ≡ frames ps ++ partial w bytes
    → (ps ++ (q ∷ more)) ++ others ≡ ps ++ qs
    → length taken < length (frames (ps ++ (q ∷ more)))
unfolding frames
taken_short ps qs others q more w bytes taken tail u inside size fit e taken_is split =
    let same : (q ∷ more) ++ others ≡ qs =
      append_cancel ps ((q ∷ more) ++ others) qs
        (sym (append_assoc ps (q ∷ more) others) ∙ split) in
    let short : length (partial w bytes) < length (frame q) =
      partial_short w bytes tail q (more ++ others) u inside size (subst AllFit (sym same) fit)
        (e ∙ ap frames (sym same)) in
    omega (
      arith,
      short,
      ap length taken_is,
      length-append (frames ps) (partial w bytes),
      ap length (frames-append ps (q ∷ more)),
      length-append (frames ps) (frames (q ∷ more)),
      length-append (frame q) (frames more),
    )
