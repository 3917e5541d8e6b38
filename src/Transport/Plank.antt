-- ===== src/Transport/Plank.antt =====
-- `PlankTransportImpl`: client/launcher/transport/plank/plank_transport.h and plank_transport.cpp.
-- The CUDA runtime and the members `send` and `receive` of the two transports that it owns are not
-- in the repository: `Answers` is what their calls answer.
pub mod Paths
use gpu_over_ip_capnp.Base.{
  ℕ, ◌≡◌, Bool, true, false, ◌&&◌, List, [], ◌∷◌, ◌++◌, if◌then◌else◌, ℤ, Io, pure, call, attempt,
  ◌>>◌, Use, opens, closes, plain, use_handle,
}

pub record Answers : Type 0 where
  -- the code of each call is `cudaSuccess`
  pub host_alloc : Bool
  pub memcpy : Bool
  pub rdma_send : Bool
  pub zmq_send : Bool
  pub zmq_receive : Bool

pub data Event : Type 0 where
  host_alloc : ℕ → Bool → Event
  -- from the device handle to the host buffer
  memcpy_dtoh : ℕ → ℕ → Bool → Event
  rdma_send : ℤ → ℕ → Bool → Event
  free_host : Event
  zmq_send : ℤ → List ℕ → Bool → Event
  zmq_receive : ℤ → ℕ → Bool → Event

abbrev pub use_of : Event → Use
use_of (Event.host_alloc size ok) = if ok then opens 0 else plain
use_of Event.free_host = closes 0
use_of (Event.memcpy_dtoh from size ok) = plain
use_of (Event.rdma_send node size ok) = plain
use_of (Event.zmq_send node bytes ok) = plain
use_of (Event.zmq_receive node size ok) = plain

pub send_data : Answers → ℕ → ℕ → List ℕ → ℤ → ℤ → Io Event Bool
send_data a src_handle dst_handle bytes src_node dst_node =
    call (Event.zmq_send dst_node bytes a.zmq_send) >> pure a.zmq_send

pub receive_data : Answers → ℕ → ℕ → ℕ → ℤ → ℤ → Io Event Bool
receive_data a src_handle dst_handle size src_node dst_node =
    call (Event.zmq_receive src_node size a.zmq_receive) >> pure a.zmq_receive

pub transfer_gpu_buffer : Answers → ℕ → ℕ → ℕ → ℤ → ℤ → Io Event Bool
transfer_gpu_buffer a src_gpu_handle dst_gpu_handle size src_node dst_node =
    attempt (Event.host_alloc size a.host_alloc) a.host_alloc (pure false) (
      attempt (Event.memcpy_dtoh src_gpu_handle size a.memcpy) a.memcpy
        (call Event.free_host >> pure false)
        (attempt (Event.rdma_send dst_node size a.rdma_send) a.rdma_send
          (call Event.free_host >> pure false) (call Event.free_host >> pure true)))
