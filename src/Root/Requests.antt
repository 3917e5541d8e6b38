-- ===== src/Root/Requests.antt =====
-- The requests that the root service handles, one at a time.
use gpu_over_ip_capnp.Base.{
  ℕ, ◌≡◌, refl, ap, ◌∙◌, true, false, none, some, if◌then◌else◌, ◌==◌, returned, blocked, arith,
  Option-cases, ◌⊎◌, inl, inr, negsuc,
}
use gpu_over_ip_capnp.Float.{Float}
use gpu_over_ip_capnp.Cuda.{
  CuResult, cuda_success, cuda_error_invalid_value, cuda_error_out_of_memory,
}
use gpu_over_ip_capnp.Cooling.{CoolingService}
use gpu_over_ip_capnp.Dispatcher.{AllocationPlan, RemoteNode, get_node_by_id, find_node, best_node}
use gpu_over_ip_capnp.Dispatcher.Lock.{pick_node_lem, get_node_by_id_lem}
use gpu_over_ip_capnp.Root.{
  RemoteAllocInfo, Mappings, freeing, allocation_result, free_result, memcpy_plan, memcpy_error,
  ask_free, is_live, without, RootService, send, wait_for, request_allocation, request_free,
  finish_free, plan_memcpy_htod,
}

module _ (f : Float) (m : Mappings) where
  -- On a free dispatcher `requestAllocation` asks no peer: it answers that memory is out and changes
  -- nothing else when no node is chosen, and never comes back when one is. A plan starts with no
  -- error.
  pub request_allocation_lem :
      (blank : AllocationPlan) (cooling : CoolingService f) (size : ℕ) (s : RootService f m)
      → blank.error ≡ cuda_success
      → s.dispatcher.locked ≡ false
      → ((best_node f size (negsuc 0) s.dispatcher.nodes ≡ none)
          × (request_allocation f m blank cooling size s
              ≡ returned (
                  send f m
                    (allocation_result (record { fake_ptr = 0; error = cuda_error_out_of_memory }))
                    s)))
        ⊎ ((n : RemoteNode f) × (best_node f size (negsuc 0) s.dispatcher.nodes ≡ some n)
            × (request_allocation f m blank cooling size s ≡ blocked))
  unfolding request_allocation
  request_allocation_lem blank cooling size s clean free =
      elim (pick_node_lem f blank cooling 0 size s.dispatcher clean free) [
        | inl (e, r) ↦ inl (e, ground arith)
        | inr (n, e, r) ↦ inr (n, e, ground arith)
      ]

  -- The pointer stands for an allocation on a node that the dispatcher knows.
  pub record IsMapped (p : ℕ) (info : RemoteAllocInfo) (node : RemoteNode f) (s : RootService f m)
      : Type 0 where
    pub mapped : m.get p s.table ≡ some info
    pub known : find_node f info.node_id s.dispatcher.nodes ≡ some node
    pub free : s.dispatcher.locked ≡ false

  found_node :
      {p : ℕ} {info : RemoteAllocInfo} {node : RemoteNode f} {s : RootService f m}
      → IsMapped p info node s
      → get_node_by_id f info.node_id s.dispatcher ≡ returned (some node, s.dispatcher)
  found_node {p} {info} {node} {s} h =
      get_node_by_id_lem f info.node_id s.dispatcher h.free
      ∙ ap (λ o. returned (o, s.dispatcher)) h.known

  pub request_free_mapped :
      (p : ℕ) (info : RemoteAllocInfo) (node : RemoteNode f) (s : RootService f m)
      → IsMapped p info node s
      → request_free f m p s
        ≡ returned
            (wait_for f m (freeing p) (send f m (ask_free node.address info.remote_handle) s))
  unfolding request_free
  request_free_mapped p info node s h =
      let found = found_node h in let there = h.mapped in ground arith

  not_known :
      (p : ℕ) (info : RemoteAllocInfo) (s : RootService f m)
      → m.get p s.table ≡ some info
      → find_node f info.node_id s.dispatcher.nodes ≡ none
      → (info' : RemoteAllocInfo) (node : RemoteNode f) → ¬ IsMapped p info' node s
  not_known p info s there unknown info' node h =
      let mapped = h.mapped in let known = h.known in ground arith

  -- A copy to a pointer is planned exactly for a pointer that is mapped to a node that is known: to
  -- the node's address and port and the allocation's remote handle. Otherwise the answer is an
  -- invalid value. Nothing but the answer changes.
  pub plan_memcpy_lem :
      (p size : ℕ) (s : RootService f m)
      → s.dispatcher.locked ≡ false
      → ((info : RemoteAllocInfo) × (node : RemoteNode f) × IsMapped p info node s
          × (plan_memcpy_htod f m p size s
              ≡ returned (
                  send f m
                    (memcpy_plan (record {
                      target_server_ip = node.address;
                      target_server_zmq_port = node.zmq_port;
                      remote_ptr = info.remote_handle;
                    }))
                    s)))
        ⊎ (((info : RemoteAllocInfo) (node : RemoteNode f) → ¬ IsMapped p info node s)
            × (plan_memcpy_htod f m p size s
                ≡ returned (send f m (memcpy_error cuda_error_invalid_value) s)))
  unfolding plan_memcpy_htod
  plan_memcpy_lem p size s free = elim (Option-cases (m.get p s.table)) [
    | inl missing ↦ inr ((λ info node h. let there = h.mapped in ground arith), ground arith)
    | inr (info, there) ↦ elim (Option-cases (find_node f info.node_id s.dispatcher.nodes)) [
      | inl unknown ↦ inr (
        not_known p info s there unknown,
        let lost =
              get_node_by_id_lem f info.node_id s.dispatcher free
              ∙ ap (λ o. returned (o, s.dispatcher)) unknown in
            ground arith,
      )
      | inr (node, known) ↦
          let h : IsMapped p info node s = record { mapped = there; known = known; free = free } in
          let found = found_node h in inl (info, node, h, ground arith)
    ]
  ]

  -- When a free completes on a live pointer, whatever the peer answered, the pointer is no longer
  -- mapped and every other pointer is mapped as before; so a second request to free it is answered
  -- with an invalid value and asks no peer, also where the peer refused the first.
  pub free_then_free :
      (p : ℕ) (error : CuResult) (s : RootService f m)
      → is_live p s.heap ≡ true
      → (t : RootService f m) × (finish_free f m error p s ≡ some t)
        × ((q : ℕ) → m.get q t.table ≡ (if q == p then none else m.get q s.table))
        × (request_free f m p t ≡ returned (send f m (free_result cuda_error_invalid_value) t))
  unfolding finish_free request_free
  free_then_free p error s live =
      let gone : m.get p (m.remove p s.table) ≡ none = m.get-remove p p s.table ∙ ground arith in
      (
        send f m (free_result error)
            (record s { table = m.remove p s.table; heap = without p s.heap }),
        rw live refl,
        (λ q. m.get-remove q p s.table),
        ground arith,
      )
