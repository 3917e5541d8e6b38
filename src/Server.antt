-- ===== src/Server.antt =====
-- The server of a GPU node: cmd/capnpserver/main.go. The children are the ring between the receive
-- loop and the workers, the workers themselves, the messages that they process, the functions and
-- the parameters of kernels, and the status of the nodes.
pub mod Ring
pub mod Receiver
pub mod Messages
pub mod Params
pub mod Functions
pub mod Nodes
mod Tests
mod KernelTests
