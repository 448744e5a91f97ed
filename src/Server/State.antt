-- ===== src/Server/State.antt =====
-- The globals of VideoServer/src/server.c, and the functions that work on a part of them.
use fagprojekt.Base.{ℕ, List, ◌>>=◌, Outcome, ok, fault, exits, pending}
use fagprojekt.Process.{Process, zoom}
use fagprojekt.Buffer.{CircularBuf}
use fagprojekt.Connection.{SockAddr, Net}

-- `enum connection_status`
pub data ConnectionStatus : Type 0 where
  waiting_init recv_video : ConnectionStatus

-- `client` is `clientAddr`; `levels` are the fill levels that were printed, the last first.
pub record Server : Type 0 where
  pub status : ConnectionStatus
  pub client : SockAddr
  pub buffer : CircularBuf
  pub net : Net
  pub levels : List ℕ

abbrev pub on_net : {A : Type 0} → Process Net A → Process Server A
on_net = zoom (λ s. s.net) (λ n s. record s { net = n })

-- A function that only changes the buffer.
abbrev pub on_buffer : (CircularBuf → Outcome CircularBuf) → Process Server (Unit {0})
on_buffer f s = elim (f s.buffer) [
  | ok b ↦ ok (tt, record s { buffer = b })
  | fault ↦ fault
  | exits c ↦ exits c
  | pending ↦ pending
]

-- Two calls on the same buffer, one after the other.
abbrev pub then_send :
    Outcome CircularBuf → (CircularBuf → Outcome CircularBuf) → Outcome CircularBuf
then_send m f = m >>= f
