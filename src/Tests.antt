-- ===== src/Tests.antt =====
-- Runs of the model on small inputs, and each theorem with hypotheses at an input that meets them.
mod Device
mod Buffers
mod Servers
mod Clients
mod Arguments
mod Interleavings
mod Lines
mod App
mod Maps
mod Sessions
mod Handshakes
mod Boards
