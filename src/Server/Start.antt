-- ===== src/Server/Start.antt =====
-- `run_server` from its start, when the calls that set up the maps and the socket succeed.
use fagprojekt.Base.{
  ℕ, ◌+◌, ◌<◌, ◌≡◌, refl, ◌∙◌, ap, true, false, if◌then◌else◌, List, [], ◌∷◌, ◌++◌, length, ok,
}
use fagprojekt.Process.{Process, modify, ◌>>◌, >>=_step}
use fagprojekt.Buffer.Invariant.{contents}
use fagprojekt.Connection.{SockAddr, Arrival, datagram, code, init, init_ack, is_option_set}
use fagprojekt.Server.State.{ConnectionStatus, Server}
use fagprojekt.Server.{Receiver, recv_video}
use fagprojekt.Server.Handshake.{AllOther}
use fagprojekt.Server.Frames.{AllSized, admit, frames, datagrams, payloads}
use fagprojekt.Server.Receive.{recv_video-Unanswered}
use fagprojekt.Server.Run.{video_buffer_size, run_states, run_states_lem, receive_fresh}
use fagprojekt.Server.Program.{ServerProgram, on_server, run_server_iperf, set_up, run_server}
use fagprojekt.Video.{server_run_iperf}
use fagprojekt.Server.SetUp.{SetUp, set_up_lem, on_server_step}

module _ (port options : ℕ) (p : ServerProgram) {fd lw h2f sock bound : ℕ} {later later' : List ℕ}
    (ready : SetUp p fd lw h2f sock bound later later') where
  -- `run_server` without -iperf, as far as the receiving thread goes by itself: among packets that
  -- are not empty those before the first INIT are passed over; its sender becomes the client and
  -- gets INIT_ACK, the only packet that is sent; of the packets of 1 to 2000 bytes behind it those
  -- that find room in the buffer of 20,000,000 bytes stand in it as frames, in order.
  pub run_server_lem :
      (noise ps : List (SockAddr × List ℕ)) (from : SockAddr) (q : List ℕ) (rest : List Arrival)
      (fuel : ℕ) (block bytes : List ℕ) (r : Receiver)
      → is_option_set options server_run_iperf ≡ false
      → AllOther noise
      → AllSized ps
      → length block ≡ video_buffer_size
      → p.server.net.arrivals
        ≡ datagrams noise ++ datagram from (code init ∷ q) ∷ (datagrams ps ++ rest)
      → length noise + 1 < fuel
      → (r' : Receiver) × (p' : ServerProgram) × (run_server 2 fuel
            (length ps)
            block
            bytes
            r
            port
            options
            p
          ≡ ok (r', p'))
        × (p'.server.status ≡ ConnectionStatus.recv_video)
        × (p'.server.client ≡ from)
        × (p'.server.net.sent ≡ p.server.net.sent ++ ((from, code init_ack ∷ []) ∷ []))
        × (p'.server.net.arrivals ≡ rest)
        × (contents p'.server.buffer ≡ frames (admit video_buffer_size (payloads ps)))
  unfolding run_server
  run_server_lem noise ps from q rest fuel block bytes r normal other sized size e enough =
      let (p1, done, same) =
        set_up_lem block port options fd lw h2f sock bound later later' p ready in
      let after : Process ServerProgram Receiver =
        if is_option_set options server_run_iperf
        then run_server_iperf (length ps) r
        else modify (λ p. record p {
          server = record (p.server) { status = ConnectionStatus.waiting_init };
        })
          >> on_server (run_states 2 fuel (length ps) bytes r) in
      let s : Server = record (p1.server) { status = ConnectionStatus.waiting_init } in
      let (r', s', run, status, client, sent, left, held) =
        run_states_lem noise ps from q rest fuel block bytes r s other sized size refl
          (ap (λ (s : Server). s.buffer) same) (ap (λ (s : Server). s.net.arrivals) same ∙ e)
          enough in
      (
        r',
        record p1 { server = s' },
        >>=_step (set_up block port options) (λ _. after) p done
            ∙ rw normal (
                on_server_step (record p1 { server = s }) (run_states 2 fuel (length ps) bytes r)
                  run),
        status,
        client,
        sent ∙ ap (λ (s : Server). s.net.sent ++ ((from, code init_ack ∷ []) ∷ [])) same,
        left,
        held,
      )

  -- With -iperf there is no handshake: every packet of 1 to 2000 bytes is put into the buffer if it
  -- finds room, from the first one on, and nothing is sent.
  pub run_server-iperf :
      (ps : List (SockAddr × List ℕ)) (rest : List Arrival) (rounds fuel : ℕ) (block bytes : List ℕ)
      (r : Receiver)
      → is_option_set options server_run_iperf ≡ true
      → AllSized ps
      → length block ≡ video_buffer_size
      → p.server.net.arrivals ≡ datagrams ps ++ rest
      → (r' : Receiver) × (p' : ServerProgram) × (run_server rounds fuel
            (length ps)
            block
            bytes
            r
            port
            options
            p
          ≡ ok (r', p'))
        × (p'.server.net.sent ≡ p.server.net.sent)
        × (p'.server.net.arrivals ≡ rest)
        × (contents p'.server.buffer ≡ frames (admit video_buffer_size (payloads ps)))
  unfolding run_server run_server_iperf
  run_server-iperf ps rest rounds fuel block bytes r iperf sized size e =
      let (p1, done, same) =
        set_up_lem block port options fd lw h2f sock bound later later' p ready in
      let after : Process ServerProgram Receiver =
        if is_option_set options server_run_iperf
        then run_server_iperf (length ps) r
        else modify (λ p. record p {
          server = record (p.server) { status = ConnectionStatus.waiting_init };
        })
          >> on_server (run_states rounds fuel (length ps) bytes r) in
      let s : Server = record (p1.server) { status = ConnectionStatus.recv_video } in
      let (r', s', run, left, held) =
        receive_fresh ps rest block r s sized size (ap (λ (s : Server). s.buffer) same)
          (ap (λ (s : Server). s.net.arrivals) same ∙ e) in
      (
        r',
        record p1 { server = s' },
        >>=_step (set_up block port options) (λ _. after) p done
            ∙ rw iperf (on_server_step (record p1 { server = s }) (recv_video (length ps) r) run),
        (recv_video-Unanswered (length ps) r r' s s' run).sent
            ∙ ap (λ (s : Server). s.net.sent) same,
        left,
        held,
      )
