-- ===== src/Hook/Calls.antt =====
-- The hooked functions of hook_cuda.cpp, with the launcher and the driver behind them.
use gpu_over_ip_capnp.Base.{
  ℕ, ◌≡◌, true, ◌&&◌, Option, none, some, List, [], ◌∷◌, if◌then◌else◌, ◌==◌, String, lookup,
  lookup-insert, codes, arith, ◌⊎◌, inl, inr, length, Option-cases,
}
use gpu_over_ip_capnp.Cuda.{
  CuResult, cuda_success, cuda_error_unknown, cuda_error_invalid_handle, cuda_error_launch_failed,
}
use gpu_over_ip_capnp.DataTransfer.{Zmq}
use gpu_over_ip_capnp.DataTransfer.Release.{send_data_lem, receive_data_lem}
use gpu_over_ip_capnp.Hook.Client.{
  Peer, Request, launch, free_plan, ErrorCode, code_of, request_free_plan, launch_kernel,
  read_bytes,
}
use gpu_over_ip_capnp.Hook.{
  Driver, rpc, driver_free, done, thrown, HookState, hooked_cu_module_get_function, remember,
  hooked_cu_mem_free, hooked_cu_memcpy_htod, hooked_cu_memcpy_dtoh, hooked_cu_launch_kernel,
}

module _ (p : Peer) (memory : ℕ → ℕ)
    (grid_x grid_y grid_z block_x block_y block_z shared params : ℕ) where
  abbrev pub request_for : String → Request
  request_for name = launch (record {
    func = name;
    grid_dim_x = grid_x;
    grid_dim_y = grid_y;
    grid_dim_z = grid_z;
    block_dim_x = block_x;
    block_dim_y = block_y;
    block_dim_z = block_z;
    shared_mem_bytes = shared;
    params = read_bytes memory 512 params;
  })

  abbrev pub launched : Option ErrorCode → CuResult
  launched none = cuda_error_launch_failed
  launched (some code) = code_of code

  -- After the driver has found a function of a name, launching its handle sends the launcher one
  -- request, with that name and the arguments of the launch, and answers the number of the launcher's
  -- code, or that the launch failed where the request throws.
  pub launch_after_get_function :
      (d : Driver) (hmod handle : ℕ) (name : String) (s : HookState)
      → s.original_module_get_function ≡ true
      → d.module_get_function hmod name ≡ (cuda_success, handle)
      → let s' = (hooked_cu_module_get_function d hmod name s).0.1 in
        hooked_cu_launch_kernel p memory handle grid_x grid_y grid_z block_x block_y block_z shared
          params s'
        ≡ (launched (p.ack (request_for name)), rpc (request_for name) ∷ [])
  unfolding hooked_cu_module_get_function remember hooked_cu_launch_kernel launch_kernel
  launch_after_get_function d hmod handle name s set answer =
      ground (arith, lookup-insert handle handle name s.function_name_map)

  -- A handle that no call has named is refused, and the launcher is not asked.
  pub launch_unknown :
      (handle : ℕ) (s : HookState)
      → lookup handle s.function_name_map ≡ none
      → hooked_cu_launch_kernel p memory handle grid_x grid_y grid_z block_x block_y block_z shared
          params s
        ≡ (cuda_error_invalid_handle, [])
  unfolding hooked_cu_launch_kernel
  launch_unknown handle s e = ground arith

-- A copy to the device succeeds exactly when all calls of the data transfer do; a copy to the host
-- succeeds exactly when all do and the message has the size that was asked for, and the host buffer
-- is the message then and unchanged otherwise. Every failure is an unknown error.
memcpy_lem :
    (z : Zmq) (device size : ℕ) (host : List ℕ)
    → let sent = z.ctx_new && (z.socket && (z.connect && (z.msg_init_data && z.msg_send))) in
      let received =
        z.ctx_new
        && (z.socket && (z.bind && (z.msg_init && (z.msg_recv && length z.message == size)))) in
      (hooked_cu_memcpy_htod z device host ≡ (if sent then cuda_success else cuda_error_unknown))
      × (hooked_cu_memcpy_dtoh z host device size
          ≡ (if received then (cuda_success, z.message) else (cuda_error_unknown, host)))
unfolding hooked_cu_memcpy_htod hooked_cu_memcpy_dtoh
memcpy_lem z device size host = (
  ground (arith, send_data_lem z (codes "127.0.0.1") 5555 host),
  ground (arith, receive_data_lem z (codes "127.0.0.1") 5555 host size),
)

-- A free is forwarded to the launcher and then to the driver, whose answer it gives, whatever code
-- the launcher answers; only an exception of the request keeps the driver from being called.
mem_free_lem :
    (d : Driver) (p : Peer) (ptr : ℕ) (s : HookState)
    → s.original_mem_free ≡ true
    → ((p.ack (free_plan ptr) ≡ none)
        × (hooked_cu_mem_free d p ptr s ≡ (thrown, rpc (free_plan ptr) ∷ [])))
      ⊎ ((code : ErrorCode) × (p.ack (free_plan ptr) ≡ some code)
          × (hooked_cu_mem_free d p ptr s
              ≡ (done (d.mem_free ptr), rpc (free_plan ptr) ∷ driver_free ptr ∷ [])))
unfolding hooked_cu_mem_free request_free_plan
mem_free_lem d p ptr s set = elim (Option-cases (p.ack (free_plan ptr))) [
  | inl e ↦ inl (e, ground arith)
  | inr (code, e) ↦ inr (code, e, ground arith)
]
