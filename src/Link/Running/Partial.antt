-- ===== src/Link/Running/Partial.antt =====
-- The bytes that the client (VideoServer/src/client.c) has read of a packet, against the frames that
-- are to come.
use fagprojekt.Base.{
  ℕ, ◌/◌, ◌%◌, ◌≤◌, ◌≡◌, refl, sym, ◌∙◌, ap, List, [], ◌∷◌, ◌++◌, length, take, arith, append_assoc,
  take-append_length,
}
use fagprojekt.Memory.{le16}
use fagprojekt.Connection.{max_packet_size}
use fagprojekt.Client.{un16}
use fagprojekt.Client.Stream.{AllFit}
use fagprojekt.Server.Packet.{frame}
use fagprojekt.Server.Frames.{frames}
use fagprojekt.Link.Running.{Pass, before_low, before_high, filling}

-- What the client has read since its last packet.
abbrev pub partial : Pass → List ℕ → List ℕ
partial before_low bytes = []
partial (before_high lo) bytes = lo ∷ []
partial (filling len i) bytes = le16 len ++ take i bytes

-- The index that is written next lies in the packet, and the packet in the array.
abbrev pub InArray : Pass → List ℕ → Type 0
InArray (filling len i) bytes = (i ≤ len) × (len ≤ length bytes)
InArray _ bytes = Unit

pub append_cancel : {A : Type 0} (a b c : List A) → a ++ b ≡ a ++ c → b ≡ c
append_cancel [] b c e = e
append_cancel (x ∷ a) b c e = append_cancel a b c (cc e)

-- Two bytes in front of frames are a length.
pub read_length :
    (lo x : ℕ) (rest : List ℕ) (qs : List (List ℕ))
    → AllFit qs
    → lo ∷ x ∷ rest ≡ frames qs
    → (un16 lo x ≤ max_packet_size) × (le16 (un16 lo x) ≡ lo ∷ x ∷ [])
unfolding frames
read_length lo x rest [] fit e = absurd (cc)
read_length lo x rest (q ∷ qs) (size, fit) e =
    let low : lo ≡ length q % 256 = cc in
    let high : x ≡ length q / 256 % 256 = cc in
    let len : un16 lo x ≡ length q = omega arith in (omega arith, ap le16 len ∙ rw (low, high) refl)

pub same_length :
    (len : ℕ) (c tail p rest : List ℕ)
    → len ≤ max_packet_size
    → length p ≤ max_packet_size
    → le16 len ++ (c ++ tail) ≡ le16 (length p) ++ (p ++ rest)
    → (len ≡ length p) × (c ++ tail ≡ p ++ rest)
same_length len c tail p rest size small e =
    let low : len % 256 ≡ length p % 256 = cc in
    let high : len / 256 % 256 ≡ length p / 256 % 256 = cc in (omega arith, cc)

same_front : (c tail p rest : List ℕ) → length c ≡ length p → c ++ tail ≡ p ++ rest → c ≡ p
same_front c tail p rest size e =
    sym (take-append_length c tail)
    ∙ ap (take (length c)) e
    ∙ ap (λ n. take n (p ++ rest)) size
    ∙ take-append_length p rest

-- A length and as many bytes in front of frames are the first of them.
pub read_whole :
    (len : ℕ) (c tail : List ℕ) (qs : List (List ℕ))
    → AllFit qs
    → length c ≡ len
    → len ≤ max_packet_size
    → le16 len ++ (c ++ tail) ≡ frames qs
    → (later : List (List ℕ)) × (qs ≡ c ∷ later) × (frame c ≡ le16 len ++ c)
unfolding frames
read_whole len c tail [] fit count size e = absurd (cc)
read_whole len c tail (q ∷ qs) (small, fit) count size e =
    let (same, behind) =
      same_length len c tail q (frames qs) size small
        (e ∙ append_assoc (le16 (length q)) q (frames qs)) in
    let whole : c ≡ q = same_front c tail q (frames qs) (count ∙ same) behind in
    (qs, ap (λ p. p ∷ qs) (sym whole), ap (λ n. le16 n ++ c) count)
