-- ===== src/Server/Program.antt =====
-- `run_server` of VideoServer/src/server.c as a whole, and the end of the server.
use fagprojekt.Base.{ℕ, Bool, true, if◌then◌else◌, List, ok, fault, pending}
use fagprojekt.Process.{Process, modify, zoom, ◌>>◌}
use fagprojekt.Buffer.{init_buffer}
use fagprojekt.Connection.{is_option_set}
use fagprojekt.Connection.Sockets.{Sockets, init_server_socket_udp, close_connection}
use fagprojekt.Fifo.Mapping.{
  Mappings, video_layout, open_physical_memory_device, close_physical_memory_device,
  mmap_fpga_peripherals, munmap_fpga_peripherals,
}
use fagprojekt.Server.State.{ConnectionStatus, Server}
use fagprojekt.Server.{Receiver, recv_video}
use fagprojekt.Server.Run.{video_buffer_size, run_states}
use fagprojekt.Video.{no_fifo, server_run_iperf}

-- All that the server works on. `fifo_write_thread_id` says whether the second thread was created,
-- `freed` whether the buffer was.
pub record ServerProgram : Type 0 where
  pub maps : Mappings
  pub sockets : Sockets
  pub server : Server
  pub can_create : Bool
  pub fifo_write_thread_id : Bool
  pub freed : Bool

abbrev pub on_maps : {A : Type 0} → Process Mappings A → Process ServerProgram A
on_maps = zoom (λ p. p.maps) (λ m p. record p { maps = m })

abbrev pub on_sockets : {A : Type 0} → Process Sockets A → Process ServerProgram A
on_sockets = zoom (λ p. p.sockets) (λ s p. record p { sockets = s })

abbrev pub on_server : {A : Type 0} → Process Server A → Process ServerProgram A
on_server = zoom (λ p. p.server) (λ s p. record p { server = s })

unfoldable pub free_buffer : Process ServerProgram (Unit {0})
free_buffer p = if p.freed then fault else ok (tt, record p { freed = true })

-- `pthread_join` of the second thread waits for ever, since its loop never ends; without a thread
-- it is undefined.
unfoldable pub join_thread : Process ServerProgram (Unit {0})
join_thread p = if p.fifo_write_thread_id then pending else fault

unfoldable pub close_server : Process ServerProgram (Unit {0})
unfolding free_buffer join_thread
close_server =
    on_sockets close_connection
    >> (join_thread
        >> (free_buffer
            >> (on_maps munmap_fpga_peripherals >> on_maps close_physical_memory_device)))

-- `run_server_iperf` up to where `recv_video` stands after some passes.
unfoldable pub run_server_iperf : ℕ → Receiver → Process ServerProgram Receiver
run_server_iperf passes r =
    modify (λ p. record p { server = record (p.server) { status = ConnectionStatus.recv_video } })
    >> on_server (recv_video passes r)

-- What `run_server` does before it waits for packets; `block` is what `malloc` returned. What
-- `pthread_create` returns is not looked at.
unfoldable pub set_up : List ℕ → ℕ → ℕ → Process ServerProgram (Unit {0})
set_up block port options =
    modify (λ p. record p {
      server = record (p.server) { buffer = init_buffer block video_buffer_size };
    })
    >> (on_maps open_physical_memory_device
        >> (on_maps (mmap_fpga_peripherals video_layout)
            >> (modify (λ p.
                  if is_option_set options no_fifo
                  then p
                  else record p { fifo_write_thread_id = p.can_create })
                >> on_sockets (init_server_socket_udp port))))

-- `run_server` as the thread that receives runs it, up to where `recv_video` stands after some
-- passes. `rounds` and `fuel` bound the passes of the state machine and of `wait_init`.
unfoldable pub run_server :
    ℕ → ℕ → ℕ → List ℕ → List ℕ → Receiver → ℕ → ℕ → Process ServerProgram Receiver
unfolding set_up run_server_iperf
run_server rounds fuel passes block bytes r port options =
    set_up block port options
    >> (if is_option_set options server_run_iperf
        then run_server_iperf passes r
        else modify (λ p. record p {
          server = record (p.server) { status = ConnectionStatus.waiting_init };
        })
          >> on_server (run_states rounds fuel passes bytes r))
