-- ===== src/Server/Run.antt =====
-- The state machine of `run_server`: it waits for a client, then receives.
use fagprojekt.Base.{
  ℕ, zero, suc, ◌+◌, ◌<◌, ◌≡◌, refl, sym, ◌∙◌, ap, subst, List, [], ◌∷◌, ◌++◌, length, arith, ok,
  pending,
}
use fagprojekt.Process.{Process, ◌>>◌, >>=_step}
use fagprojekt.Buffer.{init_buffer, get_space}
use fagprojekt.Buffer.Invariant.{IsValid, contents}
use fagprojekt.Buffer.Contents.{get_space-contents}
use fagprojekt.Connection.{SockAddr, Arrival, datagram, code, init, init_ack}
use fagprojekt.Server.State.{ConnectionStatus, Server}
use fagprojekt.Server.{Receiver, wait_init, recv_video}
use fagprojekt.Server.Handshake.{AllOther, greeted, wait_init_lem}
use fagprojekt.Server.Frames.{AllSized, admit, frames, datagrams, payloads}
use fagprojekt.Server.Receive.{Unanswered, recv_video_lem, recv_video-Unanswered}

-- VIDEO_BUFFER_SIZE
abbrev pub video_buffer_size : ℕ
video_buffer_size = 20000000

-- The loop of `run_server` over `connectionStatus`, with bounds on its own passes and on those of
-- `wait_init`. `recv_video` never returns: this is where it stands after some passes.
unfoldable pub run_states : ℕ → ℕ → ℕ → List ℕ → Receiver → Process Server Receiver
run_states zero fuel passes bytes r s = pending
run_states (suc rounds) fuel passes bytes r s = elim s.status [
  | ConnectionStatus.waiting_init ↦
      (wait_init fuel bytes >> run_states rounds fuel passes bytes r) s
  | ConnectionStatus.recv_video ↦ recv_video passes r s
]

init_buffer-IsValid :
    (block : List ℕ)
    → length block ≡ video_buffer_size
    → IsValid (init_buffer block video_buffer_size)
unfolding init_buffer
init_buffer-IsValid block e = record {
  nonempty = omega arith;
  small = omega arith;
  block = e;
  head_in = omega arith;
  tail_in = omega arith;
  full_at = λ f. refl;
}

init_buffer-contents : (block : List ℕ) → contents (init_buffer block video_buffer_size) ≡ []
unfolding init_buffer
init_buffer-contents block = refl

-- `recv_video` over a buffer that was just created.
pub receive_fresh :
    (ps : List (SockAddr × List ℕ)) (rest : List Arrival) (block : List ℕ) (r : Receiver)
    (s : Server)
    → AllSized ps
    → length block ≡ video_buffer_size
    → s.buffer ≡ init_buffer block video_buffer_size
    → s.net.arrivals ≡ datagrams ps ++ rest
    → (r' : Receiver) × (s' : Server) × (recv_video (length ps) r s ≡ ok (r', s'))
      × (s'.net.arrivals ≡ rest)
      × (contents s'.buffer ≡ frames (admit video_buffer_size (payloads ps)))
unfolding init_buffer
receive_fresh ps rest block r s sized size fresh e =
    let b = init_buffer block video_buffer_size in
    let v : IsValid b = init_buffer-IsValid block size in
    let space : get_space b ≡ video_buffer_size =
      omega (arith, get_space-contents v, ap length (init_buffer-contents block)) in
    let (r', s', received, left, _, held) =
      recv_video_lem ps rest r s sized e (subst IsValid (sym fresh) v) in
    (
      r',
      s',
      received,
      left,
      held
          ∙ ap (λ b. contents b ++ frames (admit (get_space b) (payloads ps))) fresh
          ∙ ap (λ l. l ++ frames (admit (get_space b) (payloads ps))) (init_buffer-contents block)
          ∙ ap (λ n. frames (admit n (payloads ps))) space,
    )

-- The state machine over a buffer that was just created: packets that are not empty and no INIT are
-- passed over, the sender of the first INIT becomes the client and gets INIT_ACK, the only packet
-- that is sent; of the packets of 1 to 2000 bytes behind it those that find room stand in the buffer.
pub run_states_lem :
    (noise ps : List (SockAddr × List ℕ)) (from : SockAddr) (q : List ℕ) (rest : List Arrival)
    (fuel : ℕ) (block bytes : List ℕ) (r : Receiver) (s : Server)
    → AllOther noise
    → AllSized ps
    → length block ≡ video_buffer_size
    → s.status ≡ ConnectionStatus.waiting_init
    → s.buffer ≡ init_buffer block video_buffer_size
    → s.net.arrivals ≡ datagrams noise ++ datagram from (code init ∷ q) ∷ (datagrams ps ++ rest)
    → length noise + 1 < fuel
    → (r' : Receiver) × (s' : Server) × (run_states 2 fuel (length ps) bytes r s ≡ ok (r', s'))
      × (s'.status ≡ ConnectionStatus.recv_video)
      × (s'.client ≡ from)
      × (s'.net.sent ≡ s.net.sent ++ ((from, code init_ack ∷ []) ∷ []))
      × (s'.net.arrivals ≡ rest)
      × (contents s'.buffer ≡ frames (admit video_buffer_size (payloads ps)))
unfolding run_states
run_states_lem noise ps from q rest fuel block bytes r s other sized size w fresh e enough =
    let s1 : Server = greeted from (datagrams ps ++ rest) s in
    let waited : wait_init fuel bytes s ≡ ok (tt, s1) =
      wait_init_lem noise from q (datagrams ps ++ rest) fuel bytes s other w e enough in
    let (r', s', received, left, held) = receive_fresh ps rest block r s1 sized size fresh refl in
    let kept : Unanswered s1 s' = recv_video-Unanswered (length ps) r r' s1 s' received in
    (
      r',
      s',
      rw (w, run_states)
            (>>=_step (wait_init fuel bytes) (λ _. run_states 1 fuel (length ps) bytes r) s waited)
          ∙ received,
      kept.status,
      kept.client,
      kept.sent,
      left,
      held,
    )
