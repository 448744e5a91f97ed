-- ===== src/Android/Lines.antt =====
-- The lines that androidServer/src/androidServer.c takes off the typed input.
use fagprojekt.Base.{
  ℕ, zero, suc, ◌+◌, ◌-◌, ◌≤◌, ◌<◌, ◌≡◌, ◌⊎◌, inl, inr, refl, ap, List, [], ◌∷◌, ◌++◌, length,
  arith, ok, ℕ_discrete,
}
use fagprojekt.Android.{AndroidServer, max, zeros, read_line}
use fagprojekt.Android.Messages.{NoNewline, read_line-newline, read_line-overrun}
use fagprojekt.Android.Sending.{AllShort, typed_lines}

-- The first line of the input, or that there is none of less than `k` bytes.
FirstLine : ℕ → List ℕ → Type 0
FirstLine k l =
    ((line rest : List ℕ) × NoNewline line × (length line < k) × (l ≡ line ++ (10 ∷ rest)))
    ⊎ ((line rest : List ℕ) × NoNewline line
        × ((k ≤ length line) ⊎ (rest ≡ []))
        × (l ≡ line ++ rest))

first_line : (k : ℕ) (l : List ℕ) → FirstLine k l
unfolding FirstLine
first_line zero l = inr ([], l, tt, inl (omega arith), refl)
first_line (suc k) [] = inr ([], [], tt, inr refl, refl)
first_line (suc k) (x ∷ l) = elim (ℕ_discrete x 10) [
  | yes newline ↦ inl ([], l, tt, omega arith, ap (λ y. y ∷ l) newline)
  | no other ↦ elim (first_line k l) [
    | inl (line, rest, none_in, short, e) ↦
        inl (x ∷ line, rest, (other, none_in), omega arith, ap (λ m. x ∷ m) e)
    | inr (line, rest, none_in, inl long, e) ↦
        inr (x ∷ line, rest, (other, none_in), inl (omega arith), ap (λ m. x ∷ m) e)
    | inr (line, rest, none_in, inr end, e) ↦
        inr (x ∷ line, rest, (other, none_in), inr end, ap (λ m. x ∷ m) e)
  ]
]

-- A call that gives a line has taken it, with its newline, off the front of the input.
pub read_line_inv :
    (buff : List ℕ) (s t : AndroidServer)
    → read_line (max + 1) 0 (zeros max) s ≡ ok (buff, t)
    → (line rest : List ℕ) × NoNewline line
      × (length line < max)
      × (s.typed ≡ line ++ (10 ∷ rest))
      × (buff ≡ line ++ (10 ∷ zeros (63 - length line)))
      × (t ≡ record s { typed = rest })
unfolding FirstLine
read_line_inv buff s t done = elim (first_line max s.typed) [
  | inl (line, rest, other, fits, e) ↦
      let got = read_line-newline line rest [] max (max + 1) s other fits (omega arith) e in
      (line, rest, other, fits, e, cc, cc)
  | inr (line, rest, other, long, e) ↦
      let fails = read_line-overrun line rest [] max (max + 1) s other long (omega arith) e in
      absurd (cc)
]

-- The lines with their newlines, and zeros up to 64 bytes.
abbrev pub padded : List (List ℕ) → List (List ℕ)
padded [] = []
padded (l ∷ ls) = (l ++ (10 ∷ zeros (63 - length l))) ∷ padded ls

pub typed_lines-append :
    (ls : List (List ℕ)) (l rest : List ℕ)
    → typed_lines ls (l ++ (10 ∷ rest)) ≡ typed_lines (ls ++ (l ∷ [])) rest
typed_lines-append [] l rest = refl
typed_lines-append (m ∷ ls) l rest = ap (λ r. m ++ (10 ∷ r)) (typed_lines-append ls l rest)

pub padded-append :
    (ls : List (List ℕ)) (l : List ℕ)
    → padded (ls ++ (l ∷ [])) ≡ padded ls ++ ((l ++ (10 ∷ zeros (63 - length l))) ∷ [])
padded-append [] l = refl
padded-append (m ∷ ls) l = ap (λ r. (m ++ (10 ∷ zeros (63 - length m))) ∷ r) (padded-append ls l)

pub AllShort-append :
    (ls : List (List ℕ)) (l : List ℕ)
    → AllShort ls
    → NoNewline l
    → length l < max
    → AllShort (ls ++ (l ∷ []))
AllShort-append [] l short none_in fits = (none_in, fits, tt)
AllShort-append (m ∷ ls) l (other, size, short) none_in fits =
    (other, size, AllShort-append ls l short none_in fits)
