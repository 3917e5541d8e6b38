-- ===== src/Hook/Client.antt =====
-- The client of the launcher in the hook: client/hook/launcher_client.h and launcher_client.cpp. A
-- method sends one request and waits for its answer. The RPC library is not in the repository:
-- `Peer` is what the launcher answers, and `none` is an exception of the library.
use gpu_over_ip_capnp.Base.{
  ℕ, zero, suc, ◌+◌, Bool, true, false, Option, String, List, [], ◌∷◌, Io, call, pure, ◌>>◌,
}

-- `enum ErrorCode` of proto/common.capnp, whose values are its ordinals.
pub data ErrorCode : Type 0 where
  ok out_of_memory gpu_not_found stream_error kernel_launch_fail unknown : ErrorCode

pub code_of : ErrorCode → ℕ
code_of ok = 0
code_of out_of_memory = 1
code_of gpu_not_found = 2
code_of stream_error = 3
code_of kernel_launch_fail = 4
code_of unknown = 5

pub record LaunchRequest : Type 0 where
  pub func : String
  pub grid_dim_x : ℕ
  pub grid_dim_y : ℕ
  pub grid_dim_z : ℕ
  pub block_dim_x : ℕ
  pub block_dim_y : ℕ
  pub block_dim_z : ℕ
  pub shared_mem_bytes : ℕ
  pub params : List ℕ

pub data Request : Type 0 where
  allocation_plan free_plan memory_location prefetch : ℕ → Request
  memcpy_htod memcpy_dtoh : ℕ → ℕ → Request
  launch : LaunchRequest → Request

pub record MemcpyPlan : Type 0 where
  pub target_server_ip : String
  pub target_server_zmq_port : ℕ
  pub error : ErrorCode

pub record NodeInfo : Type 0 where
  pub node_id : ℕ
  pub memory_type : String
  pub error : ErrorCode

-- The answers; of an allocation plan it is kept that there is one.
pub record Peer : Type 0 where
  pub allocation_plan : ℕ → Option (Unit {0})
  pub ack : Request → Option ErrorCode
  pub plan : Request → Option MemcpyPlan
  pub location : ℕ → Option NodeInfo

pub record LauncherClient : Type 0 where
  pub address : String
  -- `m_client` is not null
  pub connected : Bool

-- The constructor.
pub new_client : String → LauncherClient
new_client address = record { address = address; connected = false }

pub connect_flag : Bool → Bool → Bool
connect_flag true old = true
connect_flag false old = old

-- `reachable` is false where the library throws before `m_client` is assigned.
pub connect : Bool → LauncherClient → Bool × LauncherClient
connect reachable c = (reachable, record c { connected = connect_flag reachable c.connected })

-- `size` bytes of the memory from an address on.
pub read_bytes : (ℕ → ℕ) → ℕ → ℕ → List ℕ
read_bytes memory zero address = []
read_bytes memory (suc size) address = memory address ∷ read_bytes memory size (address + 1)

abbrev pub Rpc : Type 0 → Type 0
Rpc A = Io Request (Option A)

pub request_allocation_plan : Peer → ℕ → Rpc (Unit {0})
request_allocation_plan p size = call (allocation_plan size) >> pure (p.allocation_plan size)

unfoldable pub request_free_plan : Peer → ℕ → Rpc ErrorCode
request_free_plan p fake_ptr = call (free_plan fake_ptr) >> pure (p.ack (free_plan fake_ptr))

pub plan_memcpy_htod : Peer → ℕ → ℕ → Rpc MemcpyPlan
plan_memcpy_htod p dst_fake_ptr size =
    call (memcpy_htod dst_fake_ptr size) >> pure (p.plan (memcpy_htod dst_fake_ptr size))

pub plan_memcpy_dtoh : Peer → ℕ → ℕ → Rpc MemcpyPlan
plan_memcpy_dtoh p src_fake_ptr size =
    call (memcpy_dtoh src_fake_ptr size) >> pure (p.plan (memcpy_dtoh src_fake_ptr size))

-- `params` is an address; the request carries 512 bytes from it on.
unfoldable pub launch_kernel :
    Peer → (ℕ → ℕ) → String → ℕ → ℕ → ℕ → ℕ → ℕ → ℕ → ℕ → ℕ → Rpc ErrorCode
launch_kernel p memory func grid_x grid_y grid_z block_x block_y block_z shared params =
    let request = launch (record {
      func = func;
      grid_dim_x = grid_x;
      grid_dim_y = grid_y;
      grid_dim_z = grid_z;
      block_dim_x = block_x;
      block_dim_y = block_y;
      block_dim_z = block_z;
      shared_mem_bytes = shared;
      params = read_bytes memory 512 params;
    }) in
    call request >> pure (p.ack request)

pub get_memory_location : Peer → ℕ → Rpc NodeInfo
get_memory_location p fake_ptr = call (memory_location fake_ptr) >> pure (p.location fake_ptr)

pub advise_prefetch : Peer → ℕ → Rpc ErrorCode
advise_prefetch p fake_ptr = call (prefetch fake_ptr) >> pure (p.ack (prefetch fake_ptr))
