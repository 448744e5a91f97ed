-- ===== src/Server/Handshake.antt =====
-- `wait_init`: the server answers the first INIT that arrives, and only that.
use fagprojekt.Base.{ℕ, suc, ◌+◌, ◌<◌, ◌≡◌, ◌≢◌, refl, ◌∙◌, List, [], ◌∷◌, ◌++◌, length, arith, ok}
use fagprojekt.Process.{◌>>=◌, >>=_step}
use fagprojekt.Connection.{SockAddr, Arrival, datagram, store, code, init, init_ack}
use fagprojekt.Server.State.{ConnectionStatus, Server}
use fagprojekt.Server.{wait_init_pass, wait_init}
use fagprojekt.Server.Frames.{datagrams}

-- Datagrams that are not empty and do not begin with the code of INIT.
abbrev pub AllOther : List (SockAddr × List ℕ) → Type 0
AllOther [] = Unit
AllOther ((from, []) ∷ ps) = ⊥
AllOther ((from, x ∷ q) ∷ ps) = (x ≢ code init) × AllOther ps

-- The server after a packet that is no INIT, and after an INIT.
abbrev pub heard : SockAddr → List Arrival → Server → Server
heard from rest s = record s { client = from; net = record (s.net) { arrivals = rest } }

abbrev pub greeted : SockAddr → List Arrival → Server → Server
greeted from rest s = record s {
  status = ConnectionStatus.recv_video;
  client = from;
  net = record (s.net) { arrivals = rest; sent = s.net.sent ++ ((from, code init_ack ∷ []) ∷ []) };
}

module _ (bytes : List ℕ) (s : Server) (from : SockAddr) (x : ℕ) (q : List ℕ) (rest : List Arrival)
    (e : s.net.arrivals ≡ datagram from (x ∷ q) ∷ rest) where
  wait_init_pass-other :
      x ≢ code init → wait_init_pass bytes s ≡ ok (store (x ∷ q) bytes, heard from rest s)
  unfolding wait_init_pass
  wait_init_pass-other ne = ground (arith, e)

  pub wait_init_pass-init :
      x ≡ code init → wait_init_pass bytes s ≡ ok (store (x ∷ q) bytes, greeted from rest s)
  unfolding wait_init_pass
  wait_init_pass-init same = ground (arith, e)

wait_init-waiting :
    (fuel : ℕ) (bytes : List ℕ) (s : Server)
    → s.status ≡ ConnectionStatus.waiting_init
    → wait_init (suc fuel) bytes s ≡ (wait_init_pass bytes >>= wait_init fuel) s
unfolding wait_init
wait_init-waiting fuel bytes s w = simp (w, wait_init)

-- Among packets that are not empty, the waiting server passes over those that are no INIT without
-- an answer. The first INIT ends the wait: its sender is the client and gets INIT_ACK, once, the
-- server goes over to receiving, and the packets behind it are left to be received.
pub wait_init_lem :
    (noise : List (SockAddr × List ℕ)) (from : SockAddr) (q : List ℕ) (rest : List Arrival)
    (fuel : ℕ) (bytes : List ℕ) (s : Server)
    → AllOther noise
    → s.status ≡ ConnectionStatus.waiting_init
    → s.net.arrivals ≡ datagrams noise ++ datagram from (code init ∷ q) ∷ rest
    → length noise + 1 < fuel
    → wait_init fuel bytes s ≡ ok (tt, greeted from rest s)
unfolding wait_init
wait_init_lem [] from q rest (suc (suc fuel)) bytes s other w e h =
    wait_init-waiting (suc fuel) bytes s w
    ∙ >>=_step (wait_init_pass bytes) (wait_init (suc fuel)) s
        (wait_init_pass-init bytes s from (code init) q rest e refl)
wait_init_lem ((a, []) ∷ noise) from q rest fuel bytes s other w e h = elim other [ ]
wait_init_lem ((a, x ∷ p) ∷ noise) from q rest (suc fuel) bytes s (ne, other) w e h =
    wait_init-waiting fuel bytes s w
    ∙ >>=_step (wait_init_pass bytes) (wait_init fuel) s (
        wait_init_pass-other bytes s a x p (datagrams noise ++ datagram from (code init ∷ q) ∷ rest)
          e ne)
    ∙ wait_init_lem noise from q rest fuel (store (x ∷ p) bytes)
        (heard a (datagrams noise ++ datagram from (code init ∷ q) ∷ rest) s) other w refl
        (omega arith)
wait_init_lem noise from q rest fuel bytes s other w e h = absurd (omega arith)
