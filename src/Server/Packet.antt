-- ===== src/Server/Packet.antt =====
-- `send_packet_buffer`: a packet goes into the buffer whole, behind its length, or not at all.
use fagprojekt.Base.{
  ℕ, ◌+◌, ◌^◌, ◌≤◌, ◌<◌, ◌≡◌, refl, ◌∙◌, ap, true, false, List, ◌++◌, arith, ltb, length, take,
  append_assoc, length-append, if◌then◌else◌, dec_lt, ok, int_lt, add32, ◌>>=◌,
}
use fagprojekt.Memory.{le16}
use fagprojekt.Buffer.{CircularBuf, send_data_buffer, get_space}
use fagprojekt.Buffer.Invariant.{IsValid, contents}
use fagprojekt.Buffer.Contents.{get_space-contents}
use fagprojekt.Buffer.Send.{send_data_buffer-Sent}
use fagprojekt.Server.{send_packet_buffer}

-- What stands in the stream for a packet: its length in two bytes, then its bytes.
abbrev pub frame : List ℕ → List ℕ
frame p = le16 (length p) ++ p

module _ (bytes : List ℕ) (len : ℕ) {b : CircularBuf} (v : IsValid b) (small : len < 2 ^ 16) where
  get_space-le : get_space b ≤ b.max
  get_space-le = omega (arith, get_space-contents v)

  drop_packet : get_space b ≤ len + 2 → send_packet_buffer bytes len b ≡ ok b
  unfolding send_packet_buffer
  drop_packet h =
      let e : int_lt (add32 len 2) (get_space b) ≡ false = ground (arith, get_space-le) in rw e

  put_packet :
      len + 2 < get_space b
      → send_packet_buffer bytes len b
        ≡ (send_data_buffer (le16 len) 2 b >>= send_data_buffer bytes len)
  unfolding send_packet_buffer
  put_packet h =
      let e : int_lt (add32 len 2) (get_space b) ≡ true = ground (arith, get_space-le) in rw e

-- Of a valid buffer and a packet that is not empty: the call is defined, the buffer stays valid and
-- keeps its size; with more than `len + 2` bytes free the two bytes of the length and then the
-- packet are appended, and with no more the bytes held are the same.
pub send_packet_buffer_lem :
    (bytes : List ℕ) (len : ℕ) {b : CircularBuf}
    → IsValid b
    → 0 < len
    → len < 2 ^ 16
    → len ≤ length bytes
    → (b' : CircularBuf) × (send_packet_buffer bytes len b ≡ ok b')
      × IsValid b'
      × (b'.max ≡ b.max)
      × (contents b' ≡ (
          if ltb (len + 2) (get_space b)
          then contents b ++ (le16 len ++ take len bytes)
          else contents b))
send_packet_buffer_lem bytes len {b} v pos small enough = elim (dec_lt (len + 2) (get_space b)) [
  | no h ↦ (b, drop_packet bytes len v small (omega arith), v, refl, ground arith)
  | yes h ↦
      let (b1, e1, s1) = send_data_buffer-Sent (le16 len) 2 v (omega arith) (omega arith) in
      let head = s1.appended (omega arith) (omega arith) in
      let (b2, e2, s2) = send_data_buffer-Sent bytes len s1.valid (omega arith) enough in
      let room : len ≤ get_space b1 = omega (
        arith,
        get_space-contents v,
        get_space-contents s1.valid,
        s1.same_max,
        ap length head,
        length-append (contents b) (le16 len),
      ) in
      (
        b2,
        put_packet bytes len v small h ∙ ap (λ r. r >>= send_data_buffer bytes len) e1 ∙ e2,
        s2.valid,
        s2.same_max ∙ s1.same_max,
        s2.appended pos room
            ∙ ap (λ l. l ++ take len bytes) head
            ∙ append_assoc (contents b) (le16 len) (take len bytes)
            ∙ ground arith,
      )
]
