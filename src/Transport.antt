-- ===== src/Transport.antt =====
-- The transports of the launcher, client/launcher/transport: ZeroMQ, RDMA and the relay over both.
pub mod Zmq
pub mod Rdma
pub mod Plank
