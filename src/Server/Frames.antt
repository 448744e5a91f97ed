-- ===== src/Server/Frames.antt =====
-- Packets as datagrams, and as the bytes that `send_packet_buffer` (VideoServer/src/server.c) makes of
-- them.
use fagprojekt.Base.{ℕ, ◌+◌, ◌-◌, ◌≤◌, ◌<◌, true, false, List, [], ◌∷◌, ◌++◌, ltb, length}
use fagprojekt.Connection.{SockAddr, Arrival, datagram, max_packet_size}
use fagprojekt.Server.Packet.{frame}

-- The packets that find room, if nothing is taken out of the buffer meanwhile.
unfoldable pub admit : ℕ → List (List ℕ) → List (List ℕ)
admit space [] = []
admit space (p ∷ ps) = elim (ltb (length p + 2) space) [
  | true ↦ p ∷ admit (space - (length p + 2)) ps
  | false ↦ admit space ps
]

unfoldable pub frames : List (List ℕ) → List ℕ
frames [] = []
frames (p ∷ ps) = frame p ++ frames ps

abbrev pub datagrams : List (SockAddr × List ℕ) → List Arrival
datagrams [] = []
datagrams ((from, p) ∷ ps) = datagram from p ∷ datagrams ps

abbrev pub payloads : List (SockAddr × List ℕ) → List (List ℕ)
payloads [] = []
payloads ((from, p) ∷ ps) = p ∷ payloads ps

-- Datagrams with something in them, no longer than `recvfrom` may store.
abbrev pub AllSized : List (SockAddr × List ℕ) → Type 0
AllSized [] = Unit
AllSized ((from, p) ∷ ps) = (0 < length p) × (length p ≤ max_packet_size) × AllSized ps
