-- ===== src/Adapter.antt =====
-- `ProtocolAdapter`: client/launcher/protocol_adapter.cpp. A message of the protocol is the record
-- of the fields that are set. `MAX_PARAMS` is defined nowhere in the repository, and is a parameter;
-- so is `getMemoryLocation`, the request to the launcher. `memory` gives the eight bytes at a host
-- address. The array of kernel parameters is a function from its indices, and 0 is the null pointer.
pub mod Convert
pub mod Rdma
pub mod Tests
use gpu_over_ip_capnp.Base.{
  ℕ, zero, suc, ◌+◌, ◌-◌, ◌^◌, ◌≡◌, Bool, true, false, ◌&&◌, not, Option, none, some, List, [], ◌∷◌,
  ◌++◌, if◌then◌else◌, ◌==◌, ltb, String, le_bytes, Io, attempt, call, pure, ◌>>◌, Use, opens,
  closes, plain, use_handle,
}

-- `RemoteAllocInfo` with the member `fakePtr` that the adapter reads.
pub record RemoteAllocInfo : Type 0 where
  pub node_id : ℕ
  pub size : ℕ
  pub remote_handle : ℕ
  pub fake_ptr : ℕ

-- The message `MemoryHandle`; its identifier is the case `handle` of `ID`.
pub record MemoryHandle : Type 0 where
  pub handle : ℕ
  pub size : ℕ
  pub node_id : ℕ
  pub local_ptr : ℕ

pub convert_to_memory_handle : RemoteAllocInfo → MemoryHandle
convert_to_memory_handle info = record {
  handle = info.remote_handle;
  size = info.size;
  node_id = info.node_id;
  local_ptr = info.fake_ptr;
}

pub convert_to_remote_alloc_info : MemoryHandle → RemoteAllocInfo
convert_to_remote_alloc_info handle = record {
  node_id = handle.node_id;
  size = handle.size;
  remote_handle = handle.handle;
  fake_ptr = handle.local_ptr;
}

pub data ParamType : Type 0 where
  pointer scalar : ParamType

-- What `getMemoryLocation` answers.
pub record Location : Type 0 where
  pub node_id : ℕ
  pub memory_type : String

-- The node and the type of memory are set for a pointer only.
pub record KernelParam : Type 0 where
  pub type : ParamType
  pub value : List ℕ
  pub location : Option Location
  pub alignment : ℕ
  pub offset : ℕ

pub record Dim : Type 0 where
  pub x : ℕ
  pub y : ℕ
  pub z : ℕ

pub record KernelLaunch : Type 0 where
  pub kernel_name : String
  pub grid_dim : Dim
  pub block_dim : Dim
  pub shared_mem_bytes : ℕ
  pub params : List KernelParam

-- The loop that counts the parameters, with the indices that it reads, on fuel.
pub count_params : ℕ → (ℕ → ℕ) → ℕ → ℕ → ℕ × List ℕ
count_params max_params kernel_params zero param_count = (param_count, [])
count_params max_params kernel_params (suc fuel) param_count =
    let (n, read) = count_params max_params kernel_params fuel (param_count + 1) in
    if not (kernel_params param_count == 0) && ltb param_count max_params
    then (n, param_count ∷ read)
    else (param_count, param_count ∷ [])

-- One round of the loop over the parameters.
pub convert_param : (ℕ → Location) → (ℕ → List ℕ) → ℕ → KernelParam
convert_param get_memory_location memory param_ptr =
    let location = get_memory_location param_ptr in
    if location.node_id == 0xFFFFFFFF
    then record {
      type = scalar;
      value = memory param_ptr;
      location = none;
      alignment = 8;
      offset = 0;
    }
    else record {
      type = pointer;
      value = le_bytes 8 param_ptr;
      location = some location;
      alignment = 8;
      offset = 0;
    }

-- The loop from index `i`, with the rounds that are left.
pub convert_params : (ℕ → Location) → (ℕ → List ℕ) → (ℕ → ℕ) → ℕ → ℕ → List KernelParam
convert_params get_memory_location memory kernel_params zero i = []
convert_params get_memory_location memory kernel_params (suc left) i =
    convert_param get_memory_location memory (kernel_params i)
    ∷ convert_params get_memory_location memory kernel_params left (i + 1)

pub convert_to_kernel_launch :
    ℕ → (ℕ → Location) → (ℕ → List ℕ) → String → Dim → Dim → ℕ → (ℕ → ℕ) → KernelLaunch
convert_to_kernel_launch max_params get_memory_location memory kernel_name grid block shared
      kernel_params =
    record {
      kernel_name = kernel_name;
      grid_dim = grid;
      block_dim = block;
      shared_mem_bytes = shared;
      params =
          convert_params get_memory_location memory kernel_params
            (count_params max_params kernel_params (max_params + 1) 0).0 0;
    }
