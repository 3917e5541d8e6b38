-- ===== src/Root.antt =====
-- The root service of the launcher: client/launcher/main.cpp. A handler that waits for a peer ends
-- its first part with a continuation, which a later step runs with the peer's answer, or which is
-- dropped when the peer's promise is rejected; the server has one thread, and other requests are handled between the two. The map of the dispatcher (`AddMapping`,
-- `GetMapping`, `RemoveMapping`) is declared in client/launcher/dispatcher.h and defined nowhere in
-- the repository: it is the interface `Mappings`. `operator new` gives out the address that its step
-- names. `AllocationPlan plan;` is the parameter `blank`. The
-- continuation of `requestAllocation` keeps a pointer to its node, of which it reads the identifier:
-- the model keeps the identifier.
pub mod Table
pub mod Requests
pub mod Races
pub mod Answers
pub mod Forwarding
pub mod Tests
use gpu_over_ip_capnp.Base.{
  ℕ, ◌≡◌, Bool, true, false, Option, none, some, List, [], ◌∷◌, ◌++◌, if◌then◌else◌, ◌==◌, String,
  Outcome, returned, blocked,
}
use gpu_over_ip_capnp.Float.{Float}
use gpu_over_ip_capnp.Cuda.{
  CuResult, cuda_success, cuda_error_invalid_value, cuda_error_out_of_memory,
}
use gpu_over_ip_capnp.Cooling.{CoolingService}
use gpu_over_ip_capnp.Dispatcher.{AllocationPlan, RemoteNode, Dispatcher, pick_node, get_node_by_id}

-- `RemoteAllocInfo` of dispatcher.h.
pub record RemoteAllocInfo : Type 0 where
  pub node_id : String
  pub size : ℕ
  pub remote_handle : ℕ

-- The map from fake pointers to what they stand for, by its documented behaviour.
pub record Mappings : Type 1 where
  pub Table : Type 0
  pub empty : Table
  pub add : ℕ → RemoteAllocInfo → Table → Table
  pub get : ℕ → Table → Option RemoteAllocInfo
  pub remove : ℕ → Table → Table
  pub get-empty : (p : ℕ) → get p empty ≡ none
  pub get-add :
      (p q : ℕ) (info : RemoteAllocInfo) (t : Table)
      → get p (add q info t) ≡ (if p == q then some info else get p t)
  pub get-remove : (p q : ℕ) (t : Table) → get p (remove q t) ≡ (if p == q then none else get p t)

-- A continuation that waits for a peer, with what it captured.
pub data Pending : Type 0 where
  allocating : String → Pending
  freeing : ℕ → Pending

-- What a peer answers to `requestAllocation`.
pub record AllocResponse : Type 0 where
  pub error : CuResult
  pub size : ℕ
  pub handle : ℕ

pub record AllocationResult : Type 0 where
  pub fake_ptr : ℕ
  pub error : CuResult

pub record MemcpyPlan : Type 0 where
  pub target_server_ip : String
  pub target_server_zmq_port : ℕ
  pub remote_ptr : ℕ

-- What is sent: replies to the client, and requests to the launcher at an address.
pub data Sent : Type 0 where
  allocation_result : AllocationResult → Sent
  free_result : CuResult → Sent
  memcpy_plan : MemcpyPlan → Sent
  memcpy_error : CuResult → Sent
  -- the call ends with the exception of the peer's promise
  allocation_exception : Sent
  free_exception : Sent
  ask_allocation : String → ℕ → Sent
  ask_free : String → ℕ → Sent

-- Whether an address is in a list.
abbrev pub is_live : ℕ → List ℕ → Bool
is_live p [] = false
is_live p (q ∷ qs) = if p == q then true else is_live p qs

-- Without the first entry of the address.
abbrev pub without : ℕ → List ℕ → List ℕ
without p [] = []
without p (q ∷ qs) = if p == q then qs else q ∷ without p qs

module _ (f : Float) (m : Mappings) where
  pub record RootService : Type 0 where
    pub dispatcher : Dispatcher f
    pub table : m.Table
    -- the addresses that `operator new` gave out and `operator delete` did not take back
    pub heap : List ℕ
    pub pending : List Pending
    pub sent : List Sent

  abbrev pub send : Sent → RootService → RootService
  send message s = record s { sent = s.sent ++ message ∷ [] }

  abbrev pub wait_for : Pending → RootService → RootService
  wait_for p s = record s { pending = s.pending ++ p ∷ [] }

  -- `requestAllocation` up to the call of the peer.
  pub request_allocation : AllocationPlan → CoolingService f → ℕ → RootService → Outcome RootService
  request_allocation blank cooling size s = elim (pick_node f blank cooling 0 size s.dispatcher) [
    | blocked ↦ blocked
    | returned (found, d) ↦ elim found [
      | none ↦ returned (
          send (allocation_result (record { fake_ptr = 0; error = cuda_error_out_of_memory }))
            (record s { dispatcher = d }))
      | some node ↦ returned (
          wait_for (allocating node.id)
            (send (ask_allocation node.address size) (record s { dispatcher = d })))
    ]
  ]

  -- Its continuation when the peer answers; `fresh` is what `operator new` gives out.
  pub finish_allocation : ℕ → AllocResponse → String → RootService → RootService
  finish_allocation fresh response node_id s =
      if response.error == cuda_success
      then send (allocation_result (record { fake_ptr = fresh; error = cuda_success })) (record s {
        heap = fresh ∷ s.heap;
        table =
            m.add fresh
              (record { node_id = node_id; size = response.size; remote_handle = response.handle })
              s.table;
      })
      else send (allocation_result (record { fake_ptr = 0; error = response.error })) s

  -- The peer's promise is rejected: `.then` has no handler for that, the continuation does not run,
  -- and the exception goes on to the client.
  pub reject_allocation : RootService → RootService
  reject_allocation s = send allocation_exception s

  -- `requestFree` up to the call of the peer.
  pub request_free : ℕ → RootService → Outcome RootService
  request_free fake_ptr s = elim (m.get fake_ptr s.table) [
    | none ↦ returned (send (free_result cuda_error_invalid_value) s)
    | some info ↦ elim (get_node_by_id f info.node_id s.dispatcher) [
      | blocked ↦ blocked
      | returned (found, d) ↦ elim found [
        | none ↦
            returned (send (free_result cuda_error_invalid_value) (record s { dispatcher = d }))
        | some node ↦ returned (
            wait_for (freeing fake_ptr)
              (send (ask_free node.address info.remote_handle) (record s { dispatcher = d })))
      ]
    ]
  ]

  -- Its continuation when the peer answers; `none` is a fault, the deletion of an address that is not
  -- live.
  pub finish_free : CuResult → ℕ → RootService → Option RootService
  finish_free error fake_ptr s =
      if is_live fake_ptr s.heap
      then some (
          send (free_result error)
            (record s { table = m.remove fake_ptr s.table; heap = without fake_ptr s.heap }))
      else none

  -- The peer's promise is rejected: the mapping and the byte stay, and the exception goes on to the
  -- client.
  pub reject_free : RootService → RootService
  reject_free s = send free_exception s

  pub plan_memcpy_htod : ℕ → ℕ → RootService → Outcome RootService
  plan_memcpy_htod dst_fake_ptr size s = elim (m.get dst_fake_ptr s.table) [
    | none ↦ returned (send (memcpy_error cuda_error_invalid_value) s)
    | some info ↦ elim (get_node_by_id f info.node_id s.dispatcher) [
      | blocked ↦ blocked
      | returned (found, d) ↦ elim found [
        | none ↦
            returned (send (memcpy_error cuda_error_invalid_value) (record s { dispatcher = d }))
        | some node ↦ returned (
            send
              (memcpy_plan (record {
                target_server_ip = node.address;
                target_server_zmq_port = node.zmq_port;
                remote_ptr = info.remote_handle;
              }))
              (record s { dispatcher = d }))
      ]
    ]
  ]
