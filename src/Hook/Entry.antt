-- ===== src/Hook/Entry.antt =====
-- The entry of the hook's library: client/hook/easyhook_entry.cpp. EasyHook and the loader are not in
-- the repository: `Loader` is what they answer. A message box is an event. The pointers to
-- the originals are those that hook_cuda.h declares, the ones that the hooked functions call.
pub mod Unhooked
use gpu_over_ip_capnp.Base.{
  ℕ, ◌≡◌, Bool, true, false, Option, none, some, List, [], ◌∷◌, ◌++◌, if◌then◌else◌, String, Io,
  call, pure, ◌>>◌, ◌>>=◌, ℤ, pos, negsuc,
}
use gpu_over_ip_capnp.Hook.{HookState, Reason, process_attach, process_detach, thread}
use gpu_over_ip_capnp.Hook.Client.{LauncherClient, new_client, connect}

-- The functions of the driver that have a pointer to the original.
pub data Function : Type 0 where
  mem_alloc mem_free memcpy_htod memcpy_dtoh launch_kernel module_get_function : Function

-- An entry of the table: the pointer, the hooked function and the name that is looked up.
pub record HookInfo : Type 0 where
  pub original : Function
  pub hook_function : Function
  pub function_name : String

pub hooks : List HookInfo
hooks =
    record { original = mem_alloc; hook_function = mem_alloc; function_name = "cuMemAlloc_v2" }
    ∷ record { original = mem_free; hook_function = mem_free; function_name = "cuMemFree_v2" }
    ∷ record {
      original = memcpy_htod;
      hook_function = memcpy_htod;
      function_name = "cuMemcpyHtoD_v2";
    }
    ∷ record {
      original = memcpy_dtoh;
      hook_function = memcpy_dtoh;
      function_name = "cuMemcpyDtoH_v2";
    }
    ∷ record {
      original = launch_kernel;
      hook_function = launch_kernel;
      function_name = "cuLaunchKernel";
    }
    ∷ []

pub record Loader : Type 0 where
  pub cuda_found : Bool
  pub address : String → Option ℕ
  -- the status of `LhInstallHook` at an address
  pub install : ℕ → Function → ℤ

pub data Event : Type 0 where
  cuda_missing : Event
  missing : String → Event
  -- an installation that was tried, with its status
  tried : ℕ → Function → ℤ → Event
  not_installed : String → ℤ → Event
  uninstalled waited : Event

-- `FAILED`
abbrev pub failed : ℤ → Bool
failed (pos n) = false
failed (negsuc n) = true

abbrev pub is_some : Option ℕ → Bool
is_some none = false
is_some (some a) = true

-- `*hook.original = …`: whether the pointer is set after it.
pub set_original : Function → Bool → HookState → HookState
set_original mem_alloc set s = record s { original_mem_alloc = set }
set_original mem_free set s = record s { original_mem_free = set }
set_original memcpy_htod set s = record s { original_memcpy_htod = set }
set_original memcpy_dtoh set s = record s { original_memcpy_dtoh = set }
set_original launch_kernel set s = record s { original_launch_kernel = set }
set_original module_get_function set s = record s { original_module_get_function = set }

-- The message after an installation.
pub report : String → ℤ → List Event
report name status = if failed status then not_installed name status ∷ [] else []

-- What a round does after the look-up.
pub install_at : Loader → HookInfo → Option ℕ → List Event
install_at l h none = missing h.function_name ∷ []
install_at l h (some a) =
    tried a h.hook_function (l.install a h.hook_function)
    ∷ report h.function_name (l.install a h.hook_function)

-- The loop over the table.
pub install_all : Loader → List HookInfo → HookState → Io Event HookState
install_all l [] s = pure s
install_all l (h ∷ hs) s =
    let found = l.address h.function_name in
    let rest = install_all l hs (set_original h.original (is_some found) s) in
    (rest.0, install_at l h found ++ rest.1)

pub install_hook : Loader → HookState → Io Event HookState
install_hook l s = if l.cuda_found then install_all l hooks s else call cuda_missing >> pure s

pub uninstall_hook : Io Event (Unit {0})
uninstall_hook = call uninstalled >> (call waited >> pure tt)

-- `DllMain`: the global client, and whether the launcher can be reached where it connects.
pub dll_main : Bool → Reason → Option LauncherClient → Option LauncherClient
dll_main reachable process_attach client = some (connect reachable (new_client "127.0.0.1:12345")).1
dll_main reachable process_detach client = none
dll_main reachable thread client = client
