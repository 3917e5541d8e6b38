-- ===== src/Hook/Tests.antt =====
-- Runs of the hooked functions.
use gpu_over_ip_capnp.Base.{ℕ, ◌≡◌, refl, true, none, some, [], ◌∷◌, if◌then◌else◌, negsuc}
use gpu_over_ip_capnp.Cuda.{cuda_success, cuda_error_invalid_handle}
use gpu_over_ip_capnp.Hook.Entry.{Loader, install_hook}
use gpu_over_ip_capnp.Hook.Entry.Unhooked.{get_function_hooked, asked, launch_refused}
use text.Mathlib.Text.{◌==◌ as str_eq}
use gpu_over_ip_capnp.Hook.Client.{Peer, out_of_memory}
use gpu_over_ip_capnp.Hook.{
  Driver, HookState, rpc, hooked_cu_module_get_function, hooked_cu_launch_kernel,
}
use gpu_over_ip_capnp.Hook.Calls.{request_for, launched, launch_after_get_function}

abbrev driver : Driver
driver = record {
  mem_alloc = λ size. (cuda_success, 4096);
  mem_free = λ ptr. cuda_success;
  module_get_function = λ m name. (cuda_success, 77);
}

-- A launcher that is always out of memory.
abbrev full : Peer
full = record {
  allocation_plan = λ size. some tt;
  ack = λ r. some out_of_memory;
  plan = λ r. none;
  location = λ p. none;
}

abbrev hooked : HookState
hooked = record {
  cuda_module = true;
  original_mem_alloc = true;
  original_mem_free = true;
  original_memcpy_htod = true;
  original_memcpy_dtoh = true;
  original_launch_kernel = true;
  original_module_get_function = true;
  function_name_map = [];
}

abbrev memory : ℕ → ℕ
memory p = 0

launch_after_get_function_example :
    hooked_cu_launch_kernel full memory 77 1 1 1 32 1 1 0 500
      (hooked_cu_module_get_function driver 3 "axpy" hooked).0.1
    ≡ (
      launched full memory 1 1 1 32 1 1 0 500
          (full.ack (request_for full memory 1 1 1 32 1 1 0 500 "axpy")),
      rpc (request_for full memory 1 1 1 32 1 1 0 500 "axpy") ∷ [],
    )
launch_after_get_function_example =
    launch_after_get_function full memory 1 1 1 32 1 1 0 500 driver 3 77 "axpy" hooked refl refl

-- A loader that has no `cuMemFree_v2`, and at whose addresses no hook can be installed.
abbrev loader : Loader
loader = record {
  cuda_found = true;
  address = λ name. if str_eq name "cuMemFree_v2" then none else some 500;
  install = λ a g. negsuc 4;
}

launch_refused_example :
    let (t, es) = install_hook loader hooked in
    hooked_cu_launch_kernel full memory 77 4 2 1 32 16 1 0 500
      (asked driver (get_function_hooked es) ((3, "axpy") ∷ []) t)
    ≡ (cuda_error_invalid_handle, [])
launch_refused_example =
    launch_refused loader driver full memory ((3, "axpy") ∷ []) 77 4 2 1 32 16 1 0 500 hooked refl
