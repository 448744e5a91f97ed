-- ===== src/Lib.antt =====
-- Link management of the video and the android server: a model of the C programs in
-- VideoServer/src and androidServer/src, and theorems about it.
--
-- The parts, and the files that model them:
--   Base, Memory, Process   lists as arrays, 32-bit words, outcomes, C memory, state passing
--   Buffer                  VideoServer/src/buffer.c, the circular buffer
--   Connection              VideoServer/src/connection.c, the UDP socket
--   Board                   hps_soc_system.h and hps.h of both programs: the slaves of the FPGA's
--                           bridges and the windows of the processor system
--   Fifo                    VideoServer/src/fifo.c, the FPGA's FIFO registers, their mapping, and
--                           the slaves that the mapped pointers reach
--   Server                  VideoServer/src/server.c: the handshake, the receiving loop, the state
--                           machine over both, the writing thread, and run_server as a whole
--   Threads                 VideoServer/src/server.c, its two threads interleaved over the buffer,
--                           call by call and (Threads.Lines) line by line
--   Client                  VideoServer/src/client.c: the emptying of the FIFO, the greeting, the
--                           sending loop and how it cuts a stream into packets, the test client,
--                           and run_client as a whole
--   Link                    the server, the FIFO and the client one behind the other, the client
--                           behind the interleaved threads of the server, (Link.Running) both
--                           boards at once, line by line, and (Link.Handshake) the greeting of
--                           server and client over a network
--   Video                   VideoServer/src/video.c, the command line
--   Android                 androidServer/src/androidServer.c: the start, EXIT, the messages both
--                           ways, the two threads interleaved; androidServer/src/fifo/fifo.c
--   Tests                   runs at small inputs, and the theorems with hypotheses at an instance
--
-- State and operations. A struct or the globals of a file are a record (`CircularBuf` for
-- circular_buf_t, `Server.State.Server` for the globals of server.c), and a function that changes
-- them returns the new record. A C function's run is an `Outcome`: a value, a fault (undefined
-- behaviour, such as an access out of bounds), an `exit`, or still pending. A loop that never ends
-- is given as the state after a number of passes.
--
-- Numbers. `int` and `size_t` are bit patterns below 2 ^ 32, as on the 32-bit ARM board that the
-- programs run on; every addition and subtraction of the source wraps in the model.
--
-- Bounds and fuel. `send_data_buffer` calls itself; its fuel is the length plus two, which suffices
-- since every split takes at least one byte. The polling loops take a number of polls; they
-- end when it exceeds the `patience` of the device (`Fifo.Laws.IsFifo`). `wait_init` and `greet` take
-- a number of passes, more than the packets or replies that come before the awaited one. `run_states`
-- takes two passes, one for each state. The loop that reads a typed line has one pass more than its
-- array has places, since a further pass would be behind the array.
--
-- What stands outside. The results of system calls are lists in the state, the FPGA's
-- FIFO is the parameter `FifoDevice` with the laws `IsFifo`, the link between two boards and `atoi`
-- are parameters. Printing is left out, and with it the percentage of `print_buffer_fill_level`.
-- Server and Link take the two threads of the server one after the other. Threads interleaves
-- them: in Safety each call of a function of buffer.c is one step, as under a lock, which the program
-- does not have, so that it covers only some of the program's runs; in Lines each line of
-- `send_data_buffer`, `read_data_buffer` and `get_space` (Buffer.Space) is a step of its own.
--
-- Not modelled: the texts that are printed, print_buffer, print_data and print_help; the times of
-- the timeouts; in hps.h the macros of the single registers, which apply macros of vendor headers
-- that the repository does not contain. androidServer/src/fifo/hps.h is the same as
-- VideoServer/src/hps.h, and is modelled once. In Android.Threads what `startServer` does before its
-- `accept` is two steps, since it touches nothing that the sending thread reads, and the sending
-- thread has a whole line in one, since no other thread reads the input; where the program exits or
-- leaves an array there is no further step.
pub mod Base
pub mod Memory
pub mod Process
pub mod Connection
pub mod Buffer
pub mod Fifo
pub mod Server
pub mod Client
pub mod Threads
pub mod Link
pub mod Video
pub mod Android
pub mod Board
mod Tests
