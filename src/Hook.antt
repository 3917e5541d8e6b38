-- ===== src/Hook.antt =====
-- The CUDA hook: client/hook/hook_cuda.h and hook_cuda.cpp, over the client of the launcher, which is
-- the module `Hook.Client`, and the data transfer of the module `DataTransfer`. The driver is not in
-- the repository: `Driver` is what its functions answer, and a pointer to one is present once
-- `InitOriginalFunctions` found it. The hooked functions run under one mutex each and call no other
-- hooked function, so a call is one step.
pub mod Client
pub mod Calls
pub mod Entry
pub mod Tests
use gpu_over_ip_capnp.Base.{
  ℕ, ◌≡◌, Bool, true, false, Option, none, some, List, [], ◌∷◌, ◌++◌, if◌then◌else◌, ◌==◌, String,
  Map, lookup, insert, Io, call, pure, ◌>>◌, Text, codes,
}
use gpu_over_ip_capnp.Cuda.{
  CuResult, cuda_success, cuda_error_unknown, cuda_error_invalid_handle, cuda_error_launch_failed,
}
use gpu_over_ip_capnp.DataTransfer.{Zmq, send_data, receive_data}
use Client.{
  Peer, Request, LauncherClient, connect, ErrorCode, code_of, request_allocation_plan,
  request_free_plan, launch_kernel,
}

pub record Driver : Type 0 where
  -- the code, and the value that is stored through the pointer argument
  pub mem_alloc : ℕ → CuResult × ℕ
  pub mem_free : ℕ → CuResult
  pub module_get_function : ℕ → String → CuResult × ℕ

-- The calls of the driver and of the launcher.
pub data Event : Type 0 where
  driver_alloc driver_free : ℕ → Event
  driver_get_function : ℕ → String → Event
  rpc : Request → Event

-- What a hooked call comes to: a code, an exception of the RPC library that no one catches, or a
-- call through a null pointer.
pub data Outcome (A : Type 0) : Type 0 where
  done : A → Outcome A
  thrown : Outcome A
  null_call : Outcome A

pub record HookState : Type 0 where
  pub cuda_module : Bool
  -- whether the pointer to the original function is set
  pub original_mem_alloc : Bool
  pub original_mem_free : Bool
  pub original_memcpy_htod : Bool
  pub original_memcpy_dtoh : Bool
  pub original_launch_kernel : Bool
  pub original_module_get_function : Bool
  pub function_name_map : Map String

-- `found` says which functions the loaded library has.
pub init_original_functions : Bool → (String → Bool) → HookState → HookState
init_original_functions loaded found s =
    if loaded
    then record s {
      cuda_module = true;
      original_mem_alloc = found "cuMemAlloc";
      original_mem_free = found "cuMemFree";
      original_memcpy_htod = found "cuMemcpyHtoD";
      original_memcpy_dtoh = found "cuMemcpyDtoH";
      original_launch_kernel = found "cuLaunchKernel";
      original_module_get_function = found "cuModuleGetFunction";
    }
    else record s { cuda_module = false }

pub cleanup_hook : HookState → HookState
cleanup_hook s = record s { cuda_module = false }

-- `loaded` and `found` are of the driver's library, `reachable` of the launcher.
pub initialize_hook :
    Bool → (String → Bool) → Bool → HookState × LauncherClient → HookState × LauncherClient
initialize_hook loaded found reachable (s, client) =
    (init_original_functions loaded found s, (connect reachable client).1)

pub data Reason : Type 0 where
  process_attach process_detach thread : Reason

-- `DllMain` of hook_cuda.cpp.
pub dll_main :
    Bool → (String → Bool) → Bool → Reason → HookState × LauncherClient → HookState × LauncherClient
dll_main loaded found reachable process_attach s = initialize_hook loaded found reachable s
dll_main loaded found reachable process_detach (s, client) = (cleanup_hook s, client)
dll_main loaded found reachable thread s = s

abbrev pub rpcs : List Request → List Event
rpcs [] = []
rpcs (r ∷ rs) = rpc r ∷ rpcs rs

-- The name of a handle is kept where the driver found the function.
unfoldable pub remember : CuResult × ℕ → String → HookState → HookState
remember (result, handle) name s =
    if result == cuda_success
    then record s { function_name_map = insert handle name s.function_name_map }
    else s

-- The value is the code and the handle that is stored.
pub hooked_cu_module_get_function :
    Driver → ℕ → String → HookState → Io Event (Outcome (CuResult × ℕ) × HookState)
hooked_cu_module_get_function d hmod name s =
    if s.original_module_get_function
    then (call (driver_get_function hmod name)
        >> pure (
          done (d.module_get_function hmod name),
          remember (d.module_get_function hmod name) name s,
        ))
    else pure (null_call, s)

-- The value is the code and the device pointer that is stored.
pub hooked_cu_mem_alloc : Driver → Peer → ℕ → HookState → Io Event (Outcome (CuResult × ℕ))
hooked_cu_mem_alloc d p byte_size s =
    let plan = request_allocation_plan p byte_size in
    elim plan.0 [
      | none ↦ (thrown, rpcs plan.1)
      | some _ ↦
          if s.original_mem_alloc
          then (done (d.mem_alloc byte_size), rpcs plan.1 ++ driver_alloc byte_size ∷ [])
          else (null_call, rpcs plan.1)
    ]

pub hooked_cu_mem_free : Driver → Peer → ℕ → HookState → Io Event (Outcome CuResult)
hooked_cu_mem_free d p dptr s =
    let result = request_free_plan p dptr in
    elim result.0 [
      | none ↦ (thrown, rpcs result.1)
      | some _ ↦
          if s.original_mem_free
          then (done (d.mem_free dptr), rpcs result.1 ++ driver_free dptr ∷ [])
          else (null_call, rpcs result.1)
    ]

-- The data transfer has its own events, which are left out here.
pub hooked_cu_memcpy_htod : Zmq → ℕ → List ℕ → CuResult
hooked_cu_memcpy_htod z dst_device src_host =
    if (send_data z (codes "127.0.0.1") 5555 src_host).0 then cuda_success else cuda_error_unknown

-- The code, and the host buffer after the call.
pub hooked_cu_memcpy_dtoh : Zmq → List ℕ → ℕ → ℕ → CuResult × List ℕ
hooked_cu_memcpy_dtoh z dst_host src_device byte_count =
    let received = (receive_data z (codes "127.0.0.1") 5555 dst_host byte_count).0 in
    ((if received.0 then cuda_success else cuda_error_unknown), received.1)

-- The code of the peer is cast to a result of the driver, number by number.
pub hooked_cu_launch_kernel :
    Peer → (ℕ → ℕ) → ℕ → ℕ → ℕ → ℕ → ℕ → ℕ → ℕ → ℕ → ℕ → HookState → Io Event CuResult
hooked_cu_launch_kernel p memory f grid_x grid_y grid_z block_x block_y block_z shared params s =
    elim (lookup f s.function_name_map) [
      | none ↦ pure cuda_error_invalid_handle
      | some kernel_name ↦
          let result =
            launch_kernel p memory kernel_name grid_x grid_y grid_z block_x block_y block_z shared
              params in
          (
            (elim result.0 [ none ↦ cuda_error_launch_failed | some code ↦ code_of code ]),
            rpcs result.1,
          )
    ]
