-- ===== src/Tests.antt =====
-- Runs of the modelled operations on small inputs, by the parts of mini_udp/src that they run.
pub mod Rings
pub mod Connections
pub mod Sockets
pub mod Derives
pub mod Frames
pub mod Handing
pub mod Faked
pub mod Multis
