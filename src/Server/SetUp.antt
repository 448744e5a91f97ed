-- ===== src/Server/SetUp.antt =====
-- The set-up at the start of `run_server` (VideoServer/src/server.c), when its calls succeed.
use fagprojekt.Base.{
  ℕ, ◌^◌, ◌<◌, ◌≡◌, ◌≢◌, refl, ◌∙◌, Bool, true, false, leb, ◌==◌, if◌then◌else◌, List, ◌∷◌, arith,
  ok,
}
use fagprojekt.Process.{Process, zoom, modify, ◌>>◌, >>=_step}
use fagprojekt.Buffer.{init_buffer}
use fagprojekt.Connection.{is_option_set}
use fagprojekt.Connection.Sockets.{
  Sockets, bound_to, init_server_socket_udp, init_server_socket_udp_lem,
}
use fagprojekt.Fifo.Mapping.{
  Mappings, minus_one, mapped, video_layout, open_physical_memory_device, mmap_fpga_peripherals,
  mmap_fpga_peripherals-mapped,
}
use fagprojekt.Fifo.Opening.{opened, open_physical_memory_device-opened}
use fagprojekt.Server.State.{Server}
use fagprojekt.Server.Run.{video_buffer_size}
use fagprojekt.Server.Program.{ServerProgram, on_maps, on_sockets, on_server, set_up}
use fagprojekt.Video.{no_fifo}

module _ {A : Type 0} (p : ServerProgram) {a : A} where
  on_maps_step :
      (m : Process Mappings A) {t : Mappings}
      → m p.maps ≡ ok (a, t)
      → on_maps m p ≡ ok (a, record p { maps = t })
  on_maps_step m e = rw (e, zoom)

  on_sockets_step :
      (m : Process Sockets A) {t : Sockets}
      → m p.sockets ≡ ok (a, t)
      → on_sockets m p ≡ ok (a, record p { sockets = t })
  on_sockets_step m e = rw (e, zoom)

  pub on_server_step :
      (m : Process Server A) {t : Server}
      → m p.server ≡ ok (a, t)
      → on_server m p ≡ ok (a, record p { server = t })
  on_server_step m e = rw (e, zoom)

-- The results of `open`, of the two calls of `mmap`, of `socket` and of `bind`, when none fails.
pub record SetUp (p : ServerProgram) (fd lw h2f sock bound : ℕ) (later later' : List ℕ)
    : Type 0 where
  pub good_fd : fd ≢ minus_one
  pub good_lw : lw ≢ minus_one
  pub good_h2f : h2f ≢ minus_one
  pub good_sock : sock ≢ minus_one
  pub good_bound : bound < 2 ^ 31
  pub maps : p.maps.results ≡ fd ∷ lw ∷ h2f ∷ later
  pub sockets : p.sockets.results ≡ sock ∷ bound ∷ later'

bind_socket :
    (fd r port : ℕ) (later : List ℕ) (k : Sockets)
    → fd ≢ minus_one
    → r < 2 ^ 31
    → k.results ≡ fd ∷ r ∷ later
    → init_server_socket_udp port k ≡ ok (tt, bound_to fd later port k)
bind_socket fd r port later k good low e =
    let opened : (fd == minus_one) ≡ false = ground arith in
    let bound : leb (2 ^ 31) r ≡ false = ground arith in
    init_server_socket_udp_lem fd r port later k e ∙ rw (opened, bound) refl

-- The second thread is created or not, and the socket is bound.
thread_and_socket :
    (skip : Bool) (port : ℕ) (p : ServerProgram) (k : Sockets)
    → init_server_socket_udp port p.sockets ≡ ok (tt, k)
    → (p' : ServerProgram) × ((modify
              (λ p. if skip then p else record p { fifo_write_thread_id = p.can_create })
            >> on_sockets (init_server_socket_udp port))
          p
        ≡ ok (tt, p'))
      × (p'.server ≡ p.server)
thread_and_socket true port p k e =
    (record p { sockets = k }, on_sockets_step p (init_server_socket_udp port) e, refl)
thread_and_socket false port p k e = (
  record p { sockets = k; fifo_write_thread_id = p.can_create },
  on_sockets_step (record p { fifo_write_thread_id = p.can_create }) (init_server_socket_udp port)
      e,
  refl,
)

pub set_up_lem :
    (block : List ℕ) (port options fd lw h2f sock bound : ℕ) (later later' : List ℕ)
    (p : ServerProgram)
    → SetUp p fd lw h2f sock bound later later'
    → (p' : ServerProgram) × (set_up block port options p ≡ ok (tt, p'))
      × (p'.server ≡ record (p.server) { buffer = init_buffer block video_buffer_size })
unfolding set_up
set_up_lem block port options fd lw h2f sock bound later later' p ready =
    let p1 : ServerProgram = record p {
      server = record (p.server) { buffer = init_buffer block video_buffer_size };
    } in
    let m1 : Mappings = opened fd (lw ∷ h2f ∷ later) p.maps in
    let m2 : Mappings = mapped lw h2f later video_layout m1 in
    let p2 : ServerProgram = record p1 { maps = m1 } in
    let p3 : ServerProgram = record p1 { maps = m2 } in
    let thread_part : Process ServerProgram (Unit {0}) =
      modify (λ p.
        if is_option_set options no_fifo
        then p
        else record p { fifo_write_thread_id = p.can_create })
      >> on_sockets (init_server_socket_udp port) in
    let maps_part : Process ServerProgram (Unit {0}) =
      on_maps (mmap_fpga_peripherals video_layout) >> thread_part in
    let (p', created, same) =
      thread_and_socket (is_option_set options no_fifo) port p3
        (bound_to sock later' port p.sockets)
        (bind_socket sock bound port later' p.sockets ready.good_sock ready.good_bound
          ready.sockets) in
    (
      p',
      >>=_step (on_maps open_physical_memory_device) (λ _. maps_part) p1
            (on_maps_step p1 open_physical_memory_device (
              open_physical_memory_device-opened fd (lw ∷ h2f ∷ later) p.maps ready.good_fd
                ready.maps))
          ∙ >>=_step (on_maps (mmap_fpga_peripherals video_layout)) (λ _. thread_part) p2
              (on_maps_step p2 (mmap_fpga_peripherals video_layout) (
                mmap_fpga_peripherals-mapped lw h2f later video_layout m1 ready.good_lw
                  ready.good_h2f refl))
          ∙ created,
      same,
    )
