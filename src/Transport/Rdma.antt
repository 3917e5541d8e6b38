-- ===== src/Transport/Rdma.antt =====
-- `RdmaTransport`: client/launcher/transport/rdma_transport.h and rdma_transport.cpp. The verbs
-- library is not in the repository: `Verbs` is what its calls answer, and the calls that are made
-- are the list of events. A pointer into the library is a number, or `none` where it is null.
-- `blocked` is the wait for a mutex that the calling thread holds.
pub mod Paths
pub mod Lifetime
pub mod Tests
use gpu_over_ip_capnp.Base.{
  ℕ, zero, suc, ◌+◌, ◌-◌, ◌%◌, ◌^◌, ◌≡◌, Bool, true, false, ◌&&◌, not, Option, none, some, List, [],
  ◌∷◌, ◌++◌, map, if◌then◌else◌, ltb, length, Io, pure, call, attempt, ◌>>◌, ◌>>=◌, Use, opens,
  closes, plain, use_handle, Outcome, returned, blocked, Map, lookup, insert, ◌==◌,
}

pub data TransferType : Type 0 where
  standard gdr : TransferType

-- `IBV_WR_RDMA_WRITE` is the one operation that is posted; the length of an element of the list of
-- buffers has 32 bits.
pub record WorkRequest : Type 0 where
  pub address : ℕ
  pub buffer_length : ℕ
  pub local_key : ℕ
  pub remote_address : ℕ
  pub remote_key : ℕ

-- An answer of `ibv_poll_cq`: 0, a completion, whose status is success or not, or an error, which
-- leaves the completion that the caller gave as it was.
pub data Poll : Type 0 where
  nothing poll_failed : Poll
  completed : Bool → Poll

pub record Verbs : Type 0 where
  -- the list of devices, `none` where the call answers null
  pub device_list : Option (List ℕ)
  pub open_device : ℕ → Bool
  pub alloc_pd : Option ℕ
  -- the local key of a region that is registered
  pub reg_mr : ℕ → ℕ → Option ℕ
  -- a completion queue is made, for the sends and for the receives
  pub send_cq : Bool
  pub recv_cq : Bool
  -- a queue pair is made, by whether each of the two queues was
  pub create_qp : Bool → Bool → Bool
  -- `ENABLE_GDR` is defined, and the call that it makes then succeeds
  pub gdr_compiled : Bool
  pub modify_qp : Bool
  pub post_send : Bool
  -- the i-th answer of `ibv_poll_cq`
  pub polled : ℕ → Poll
  -- whether the status of `wc`, which is not initialized, reads as success before a completion
  pub stale_success : Bool

pub data Event : Type 0 where
  get_device_list : Bool → Event
  open_device : ℕ → Bool → Event
  free_device_list : Event
  alloc_pd : Bool → Event
  reg_mr : ℕ → Bool → Event
  create_cq : Bool → Event
  create_qp : Bool → Event
  modify_qp : Bool → Event
  post_send : WorkRequest → Bool → Event
  poll_cq : Event
  destroy_qp : Event
  dereg_mr : ℕ → Event
  dealloc_pd : Event
  close_device : Event

-- Devices, protection domains, memory regions, completion queues and queue pairs.
abbrev pub use_of : Event → Use
use_of (Event.get_device_list ok) = plain
use_of Event.free_device_list = plain
use_of (Event.open_device d ok) = if ok then opens 1 else plain
use_of Event.close_device = closes 1
use_of (Event.alloc_pd ok) = if ok then opens 2 else plain
use_of Event.dealloc_pd = closes 2
use_of (Event.reg_mr p ok) = if ok then opens 3 else plain
use_of (Event.dereg_mr p) = closes 3
use_of (Event.create_cq ok) = if ok then opens 4 else plain
use_of (Event.create_qp ok) = if ok then opens 5 else plain
use_of Event.destroy_qp = closes 5
use_of (Event.modify_qp ok) = plain
use_of (Event.post_send w ok) = plain
use_of Event.poll_cq = plain

pub record RdmaTransport : Type 0 where
  pub context : Option ℕ
  pub protection_domain : Option ℕ
  -- from a buffer to the local key of its region
  pub memory_regions : Map ℕ
  pub locked : Bool

-- The loop over the devices, which stops at the first that opens; `context` is `m_context` so far.
pub open_first : Verbs → List ℕ → Option ℕ → Io Event (Option ℕ)
open_first v [] context = pure context
open_first v (d ∷ ds) context =
    let rest = open_first v ds none in
    attempt (Event.open_device d (v.open_device d)) (v.open_device d) rest (pure (some d))

pub create_protection_domain : Verbs → RdmaTransport → Io Event (Bool × RdmaTransport)
create_protection_domain v t = elim v.alloc_pd [
  | none ↦ call (Event.alloc_pd false) >> pure (false, record t { protection_domain = none })
  | some pd ↦ call (Event.alloc_pd true) >> pure (true, record t { protection_domain = some pd })
]

-- The end of `Initialize`, after the search.
pub use_device : Verbs → RdmaTransport → Option ℕ → Io Event (Bool × RdmaTransport)
use_device v t none = pure (false, record t { context = none })
use_device v t (some d) = create_protection_domain v (record t { context = some d })

-- `Initialize` by the list of devices that it gets.
pub search_devices : Verbs → RdmaTransport → Option (List ℕ) → Io Event (Bool × RdmaTransport)
search_devices v t none = call (Event.get_device_list false) >> pure (false, t)
search_devices v t (some ds) = do
  call (Event.get_device_list true)
  found ← open_first v ds t.context
  call Event.free_device_list
  use_device v t found

pub initialize : Verbs → RdmaTransport → Io Event (Bool × RdmaTransport)
initialize v t = search_devices v t v.device_list

abbrev pub Locked : Type 0 → Type 0
Locked A = Outcome (Io Event (A × RdmaTransport))

-- What `RegisterMemory` does under its lock.
pub register_locked : Verbs → ℕ → ℕ → RdmaTransport → Io Event (Bool × RdmaTransport)
register_locked v ptr size t = elim (lookup ptr t.memory_regions) [
  | some key ↦ pure (true, t)
  | none ↦ elim (v.reg_mr ptr size) [
    | none ↦ call (Event.reg_mr ptr false) >> pure (false, t)
    | some key ↦
        call (Event.reg_mr ptr true)
        >> pure (true, record t { memory_regions = insert ptr key t.memory_regions })
  ]
]

pub register_memory : Verbs → ℕ → ℕ → RdmaTransport → Locked Bool
register_memory v ptr size t = if t.locked then blocked else returned (register_locked v ptr size t)

pub enable_gdr : Verbs → Io Event Bool
enable_gdr v =
    if v.gdr_compiled then call (Event.modify_qp v.modify_qp) >> pure v.modify_qp else pure false

abbrev pub after : {A : Type 0} → List Event → Option (Io Event A) → Option (Io Event A)
after es none = none
after es (some m) = some (m.0, es ++ m.1)

-- What the loop does on an answer, where `again` is the rest of it.
abbrev pub on_answer : Verbs → Poll → Option (Io Event Bool) → Option (Io Event Bool)
on_answer v (completed ok) again = some (ok, Event.poll_cq ∷ [])
on_answer v poll_failed again = some (v.stale_success, Event.poll_cq ∷ [])
on_answer v nothing again = after (Event.poll_cq ∷ []) again

-- `do { … } while (ret == 0)` from the i-th poll, on fuel, with the status that `wc` then reads as;
-- `none` is a loop that goes on.
pub poll_loop : Verbs → ℕ → ℕ → Option (Io Event Bool)
poll_loop v zero i = none
poll_loop v (suc fuel) i = on_answer v (v.polled i) (poll_loop v fuel (i + 1))

abbrev pub then_destroy : Option (Io Event Bool) → Option (Io Event Bool)
then_destroy none = none
then_destroy (some m) = some (m.0, m.1 ++ Event.destroy_qp ∷ [])

-- From the operation on: post it, wait for its completion, and answer by its status. `none` is also
-- the fault of a poll of a queue that was not made.
pub run_request : Verbs → ℕ → WorkRequest → Option (Io Event Bool)
run_request v fuel request =
    if v.post_send
    then (if v.send_cq
        then after (Event.post_send request true ∷ []) (then_destroy (poll_loop v fuel 0))
        else none)
    else some (false, Event.post_send request false ∷ Event.destroy_qp ∷ [])

-- The choice of the operation by the type of the transfer, and what follows.
pub run_typed : Verbs → ℕ → WorkRequest → TransferType → Option (Io Event Bool)
run_typed v fuel request standard = run_request v fuel request
run_typed v fuel request gdr =
    let enabled = enable_gdr v in
    after enabled.1
      (if enabled.0 then run_request v fuel request else some (false, Event.destroy_qp ∷ []))

-- The element of the list of buffers, and the work request over it.
pub make_request : ℕ → ℕ → ℕ → ℕ → ℕ → WorkRequest
make_request local_buffer buffer_size key remote_addr remote_key = record {
  address = local_buffer;
  buffer_length = buffer_size % 2 ^ 32;
  local_key = key;
  remote_address = remote_addr;
  remote_key = remote_key;
}

-- `Transfer` once the region is known: the queues, which are not looked at, the queue pair, the direct
-- access, the operation. `none` is a wait for the completion that goes on when the fuel is gone, or the
-- poll of a queue that was not made.
pub transfer_registered : Verbs → ℕ → ℕ → ℕ → ℕ → ℕ → ℕ → TransferType → Option (Io Event Bool)
transfer_registered v fuel local_buffer buffer_size key remote_addr remote_key type =
    let made = v.create_qp v.send_cq v.recv_cq in
    after (Event.create_cq v.send_cq ∷ Event.create_cq v.recv_cq ∷ Event.create_qp made ∷ []) (
      if made
      then run_typed v fuel (make_request local_buffer buffer_size key remote_addr remote_key) type
      else some (false, []))

-- `Transfer` holds the mutex when it calls `RegisterMemory`.
pub transfer :
    Verbs → ℕ → ℕ → ℕ → ℕ → ℕ → TransferType → RdmaTransport → Outcome (Option (Io Event Bool))
transfer v fuel local_buffer buffer_size remote_addr remote_key type t =
    if t.locked then blocked else elim (lookup local_buffer t.memory_regions) [
      | some key ↦
          returned
            (transfer_registered v fuel local_buffer buffer_size key remote_addr remote_key type)
      | none ↦ elim (register_memory v local_buffer buffer_size (record t { locked = true })) [
        | blocked ↦ blocked
        | returned (es) ↦ returned (
            if es.0.0
            then elim (lookup local_buffer es.0.1.memory_regions) [
              | none ↦ some (false, es.1)
              | some key ↦ after es.1 (
                  transfer_registered v fuel local_buffer buffer_size key remote_addr remote_key
                    type)
            ]
            else some (false, es.1))
      ]
    ]

-- A call that is made for a pointer that is not null.
abbrev pub if_some : Event → Option ℕ → List Event
if_some e none = []
if_some e (some p) = e ∷ []

-- The destructor's `Cleanup`.
pub cleanup : RdmaTransport → Io Event RdmaTransport
cleanup t = (
  record t { memory_regions = []; protection_domain = none; context = none },
  map (λ e. Event.dereg_mr e.0) t.memory_regions
      ++ (if_some Event.dealloc_pd t.protection_domain ++ if_some Event.close_device t.context),
)
