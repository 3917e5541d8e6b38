-- ===== src/Services.antt =====
-- The generic services of the launcher: client/launcher/services/memory_service.h and
-- memory_service.cpp, transport_service.h and transport_service.cpp, advise_service.h and
-- advise_service.cpp. `GlobalMemoryManager`, `TransportManager` and the two members of the cooling
-- service that give advice are not in the repository: each is a function from its arguments to what
-- it answers, or the message of the exception that it throws. The results that a handler sets are
-- the result of its function; a log entry is not modelled.
pub mod Handlers
use gpu_over_ip_capnp.Base.{
  ℕ, ◌≡◌, Bool, true, false, Option, none, some, List, [], ◌∷◌, if◌then◌else◌, ◌==◌, ℤ, String, ◌⊎◌,
  inl, inr,
}

-- The codes of `Common::ErrorCode` that the handlers name.
pub data ErrorCode : Type 0 where
  success invalid_value out_of_memory invalid_handle transfer_failed : ErrorCode

-- A member that no one sets has the code that the message begins with, `none` here.
pub record Ack : Type 0 where
  pub ok : Bool
  pub msg : String
  pub code : Option ErrorCode

-- What a call that can throw comes to.
pub data Thrown (A : Type 0) : Type 0 where
  value : A → Thrown A
  thrown : String → Thrown A

pub record Allocation : Type 0 where
  pub handle : ℕ
  pub local_ptr : ℕ
  pub numa_node : ℤ

-- The results of `allocateMemory`: those that are set.
pub data AllocateResults : Type 0 where
  allocated : Allocation → AllocateResults
  failed : Ack → AllocateResults

pub allocate_memory : (ℕ → ℕ → Thrown Allocation) → ℕ → ℕ → AllocateResults
allocate_memory allocate size numa_hint = elim (allocate size numa_hint) [
  | value a ↦ allocated a
  | thrown what ↦ failed (record { ok = false; msg = what; code = some out_of_memory })
]

-- The results of `freeMemory`: none is set on success.
pub free_memory : (ℕ → Thrown (Unit {0})) → ℕ → Option Ack
free_memory free remote_handle = elim (free remote_handle) [
  | value _ ↦ none
  | thrown what ↦ some (record { ok = false; msg = what; code = some invalid_handle })
]

-- The types of a request, with those that a newer peer may send.
pub data TransferType : Type 0 where
  host_to_device device_to_host device_to_device : TransferType
  other : ℕ → TransferType

-- `TransportManager::TransferType`
pub data ManagerType : Type 0 where
  host_to_device device_to_host device_to_device : ManagerType

-- The switch; it fails at any other type.
pub manager_type : TransferType → Thrown ManagerType
manager_type TransferType.host_to_device = value ManagerType.host_to_device
manager_type TransferType.device_to_host = value ManagerType.device_to_host
manager_type TransferType.device_to_device = value ManagerType.device_to_device
manager_type (TransferType.other n) = thrown "Invalid transfer type"

pub record Transfer : Type 0 where
  pub src : ℕ
  pub dst : ℕ
  pub size : ℕ
  pub transfer_type : ManagerType

abbrev pub transferred : Thrown (Unit {0}) → Ack
transferred (value _) = record { ok = true; msg = "Transfer completed successfully"; code = none }
transferred (thrown what) = record { ok = false; msg = what; code = some transfer_failed }

-- The acknowledgement, with the transfers that the manager is asked for.
pub execute_transfer :
    (Transfer → Thrown (Unit {0})) → ℕ → ℕ → ℕ → TransferType → Ack × List Transfer
execute_transfer run src dst size type = elim (manager_type type) [
  | thrown what ↦ (transferred (thrown what), [])
  | value t ↦
      let transfer : Transfer = record { src = src; dst = dst; size = size; transfer_type = t } in
      (transferred (run transfer), transfer ∷ [])
]

-- `CU_MEM_ADVISE_SET_PREFERRED_LOCATION` and `CU_MEM_ADVISE_SET_ACCESSED_BY` of cuda.h.
abbrev pub advise_set_preferred_location : ℕ
advise_set_preferred_location = 3

abbrev pub advise_set_accessed_by : ℕ
advise_set_accessed_by = 5

-- The calls of the cooling service.
pub data Advice : Type 0 where
  preferred_location accessed_by : ℕ → ℕ → Advice

-- The call that an advice stands for; others are ignored.
pub advice_of : ℕ → ℕ → ℕ → Option Advice
advice_of ptr size advice =
    if advice == advise_set_preferred_location
    then some (preferred_location ptr size)
    else if advice == advise_set_accessed_by
    then some (accessed_by ptr size)
    else none

abbrev pub advised : Thrown (Unit {0}) → ErrorCode
advised (value _) = success
advised (thrown what) = invalid_value

-- The code, with the calls that are made.
pub handle_mem_advise : (Advice → Thrown (Unit {0})) → ℕ → ℕ → ℕ → ErrorCode × List Advice
handle_mem_advise run ptr size advice = elim (advice_of ptr size advice) [
  | none ↦ (success, [])
  | some a ↦ (advised (run a), a ∷ [])
]
