-- ===== src/Transport/Plank/Paths.antt =====
-- The paths of `transferGpuBuffer`.
use gpu_over_ip_capnp.Base.{ℕ, ◌≡◌, ◌&&◌, List, [], ◌∷◌, ℤ, arith, IsReleased, if◌then◌else◌}
use gpu_over_ip_capnp.Transport.Plank.{Answers, Event, use_of, transfer_gpu_buffer}

-- The events in which the data leave for a node.
abbrev pub sent_to : List Event → List ℤ
sent_to [] = []
sent_to (Event.rdma_send node size ok ∷ es) = if ok then node ∷ sent_to es else sent_to es
sent_to (Event.host_alloc size ok ∷ es) = sent_to es
sent_to (Event.memcpy_dtoh from size ok ∷ es) = sent_to es
sent_to (Event.free_host ∷ es) = sent_to es
sent_to (Event.zmq_send node bytes ok ∷ es) = sent_to es
sent_to (Event.zmq_receive node size ok ∷ es) = sent_to es

-- Whatever the runtime answers, the relay frees the host buffer that it allocated exactly once. It
-- answers true exactly when the buffer is allocated, filled and sent, and then, and only then, the
-- data went to the target node, once.
transfer_gpu_buffer_lem :
    (a : Answers) (src dst size : ℕ) (src_node dst_node : ℤ)
    → let r = transfer_gpu_buffer a src dst size src_node dst_node in
      IsReleased use_of r.1
      × (r.0 ≡ (a.host_alloc && (a.memcpy && a.rdma_send)))
      × (sent_to r.1 ≡ (if r.0 then dst_node ∷ [] else []))
unfolding transfer_gpu_buffer
transfer_gpu_buffer_lem a src dst size src_node dst_node = ground arith
