-- ===== src/Hook/Entry/Unhooked.antt =====
-- What an application meets once the hooks are installed.
use gpu_over_ip_capnp.Base.{
  ℕ, ◌≡◌, refl, ap, ◌∙◌, Bool, true, false, none, some, List, [], ◌∷◌, ◌++◌, if◌then◌else◌, String,
  ℤ, pos, negsuc, Option-cases, inl, inr, lookup, Bool-cases,
}
use gpu_over_ip_capnp.Cuda.{cuda_error_invalid_handle}
use gpu_over_ip_capnp.Hook.{
  Driver, HookState, hooked_cu_module_get_function, hooked_cu_launch_kernel,
}
use gpu_over_ip_capnp.Hook.Calls.{launch_unknown}
use gpu_over_ip_capnp.Hook.Client.{Peer}
use gpu_over_ip_capnp.Hook.Entry.{
  Function, mem_alloc, mem_free, memcpy_htod, memcpy_dtoh, launch_kernel, module_get_function,
  HookInfo, hooks, Loader, Event, missing, tried, not_installed, cuda_missing, uninstalled, waited,
  failed, is_some, set_original, report, install_at, install_all, install_hook,
}

-- The installations that were tried.
abbrev pub installs : List Event → List (ℕ × Function)
installs [] = []
installs (tried a g status ∷ es) = (a, g) ∷ installs es
installs (cuda_missing ∷ es) = installs es
installs (missing name ∷ es) = installs es
installs (not_installed name status ∷ es) = installs es
installs (uninstalled ∷ es) = installs es
installs (waited ∷ es) = installs es

-- The entries of the table whose name is found, with their own function.
abbrev pub wanted : Loader → List HookInfo → List (ℕ × Function)
wanted l [] = []
wanted l (h ∷ hs) = elim (l.address h.function_name) [
  | none ↦ wanted l hs
  | some a ↦ (a, h.hook_function) ∷ wanted l hs
]

installs-report :
    (name : String) (status : ℤ) (es : List Event)
    → installs (report name status ++ es) ≡ installs es
unfolding report
installs-report name (pos n) es = refl
installs-report name (negsuc n) es = refl

installs-install_all :
    (l : Loader) (hs : List HookInfo) (s : HookState)
    → installs (install_all l hs s).1 ≡ wanted l hs
unfolding install_all install_at
installs-install_all l [] s = refl
installs-install_all l (h ∷ hs) s = elim (Option-cases (l.address h.function_name)) [
  | inl e ↦ rw (wanted, e) (installs-install_all l hs _)
  | inr (a, e) ↦
      rw (wanted, e)
        (ap (λ r. (a, h.hook_function) ∷ r) (installs-report _ _ _ ∙ installs-install_all l hs _))
]

install_hook_loaded :
    (l : Loader) (s : HookState) → l.cuda_found ≡ true → install_hook l s ≡ install_all l hooks s
unfolding install_hook
install_hook_loaded l s loaded = simp loaded

install_hook_absent :
    (l : Loader) (s : HookState) → l.cuda_found ≡ false → install_hook l s ≡ (s, cuda_missing ∷ [])
unfolding install_hook
install_hook_absent l s absent = simp absent

-- Each of the five pointers is set exactly when its function was found, and the names stay.
abbrev pub Pointers : Loader → HookState → HookState → Type 0
Pointers l s t =
    (t.original_mem_alloc ≡ is_some (l.address "cuMemAlloc_v2"))
    × (t.original_mem_free ≡ is_some (l.address "cuMemFree_v2"))
    × (t.original_memcpy_htod ≡ is_some (l.address "cuMemcpyHtoD_v2"))
    × (t.original_memcpy_dtoh ≡ is_some (l.address "cuMemcpyDtoH_v2"))
    × (t.original_launch_kernel ≡ is_some (l.address "cuLaunchKernel"))
    × (t.function_name_map ≡ s.function_name_map)

install_all-Pointers : (l : Loader) (s : HookState) → Pointers l s (install_all l hooks s).0
unfolding install_all hooks set_original
install_all-Pointers l s = (refl, refl, refl, refl, refl, refl)

-- Where the driver's library is loaded, an installation is tried for every function of the table
-- that it has, with the hook of that function, in order, whether or not earlier ones failed or were
-- missing; and each of the five pointers to the originals is set exactly when the function was found.
-- The names of functions that were kept stay.
install_hook_lem :
    (l : Loader) (s : HookState)
    → l.cuda_found ≡ true
    → let (t, es) = install_hook l s in (installs es ≡ wanted l hooks) × Pointers l s t
install_hook_lem l s loaded =
    rw (install_hook_loaded l s loaded) (installs-install_all l hooks s, install_all-Pointers l s)

-- Whether calls of `cuModuleGetFunction` go to its hook: one was installed with success.
abbrev pub get_function_hooked : List Event → Bool
get_function_hooked [] = false
get_function_hooked (tried a module_get_function status ∷ es) =
    if failed status then get_function_hooked es else true
get_function_hooked (tried a mem_alloc status ∷ es) = get_function_hooked es
get_function_hooked (tried a mem_free status ∷ es) = get_function_hooked es
get_function_hooked (tried a memcpy_htod status ∷ es) = get_function_hooked es
get_function_hooked (tried a memcpy_dtoh status ∷ es) = get_function_hooked es
get_function_hooked (tried a launch_kernel status ∷ es) = get_function_hooked es
get_function_hooked (cuda_missing ∷ es) = get_function_hooked es
get_function_hooked (missing name ∷ es) = get_function_hooked es
get_function_hooked (not_installed name status ∷ es) = get_function_hooked es
get_function_hooked (uninstalled ∷ es) = get_function_hooked es
get_function_hooked (waited ∷ es) = get_function_hooked es

-- The state after an application has asked for functions of modules, by their names; a call that is
-- not hooked goes to the driver alone. No other hooked function changes the state.
abbrev pub asked : Driver → Bool → List (ℕ × String) → HookState → HookState
asked d is_hooked [] s = s
asked d is_hooked ((hmod, name) ∷ calls) s =
    asked d is_hooked calls
      (if is_hooked then (hooked_cu_module_get_function d hmod name s).0.1 else s)

asked_unhooked :
    (d : Driver) (calls : List (ℕ × String)) (s : HookState) → asked d false calls s ≡ s
asked_unhooked d [] s = refl
asked_unhooked d (c ∷ calls) s = asked_unhooked d calls s

skip_entry :
    (l : Loader) (original : Function) (name : String) (es : List Event) (g : Function)
    → ((a : ℕ) (status : ℤ) (fs : List Event)
        → get_function_hooked (tried a g status ∷ fs) ≡ get_function_hooked fs)
    → get_function_hooked (
        install_at l
          (record { original = original; hook_function = g; function_name = name })
          (l.address name)
        ++ es)
      ≡ get_function_hooked es
unfolding install_at report
skip_entry l original name es g skips = elim (Option-cases (l.address name)) [
  | inl e ↦ rw e refl
  | inr (a, e) ↦ rw e (skips a _ _ ∙ after_report (l.install a g))
]
  where
    after_report :
        (status : ℤ) → get_function_hooked (report name status ++ es) ≡ get_function_hooked es
    after_report (pos n) = refl
    after_report (negsuc n) = refl

all_unhooked : (l : Loader) (s : HookState) → get_function_hooked (install_all l hooks s).1 ≡ false
unfolding install_all hooks
all_unhooked l s =
    skip_entry l _ _ _ mem_alloc (λ a status fs. refl)
    ∙ skip_entry l _ _ _ mem_free (λ a status fs. refl)
    ∙ skip_entry l _ _ _ memcpy_htod (λ a status fs. refl)
    ∙ skip_entry l _ _ _ memcpy_dtoh (λ a status fs. refl)
    ∙ skip_entry l _ _ _ launch_kernel (λ a status fs. refl)

never_hooked : (l : Loader) (s : HookState) → get_function_hooked (install_hook l s).1 ≡ false
never_hooked l s = elim (Bool-cases l.cuda_found) [
  | inl loaded ↦ rw (install_hook_loaded l s loaded) (all_unhooked l s)
  | inr absent ↦ rw (install_hook_absent l s absent) refl
]

names_same :
    (l : Loader) (s : HookState) → (install_hook l s).0.function_name_map ≡ s.function_name_map
names_same l s = elim (Bool-cases l.cuda_found) [
  | inl loaded ↦ rw (install_hook_loaded l s loaded) (install_all-Pointers l s).5
  | inr absent ↦ rw (install_hook_absent l s absent) refl
]

-- The table has no entry for `cuModuleGetFunction`. So from a state that names no function, whatever
-- the loader answers and whatever functions the application then asks the driver for, every launch,
-- of whatever dimensions, is refused as one of an invalid handle, and the launcher is never asked to launch.
pub launch_refused :
    (l : Loader) (d : Driver) (p : Peer) (memory : ℕ → ℕ) (calls : List (ℕ × String))
    (handle grid_x grid_y grid_z block_x block_y block_z shared params : ℕ) (s : HookState)
    → s.function_name_map ≡ []
    → let (t, es) = install_hook l s in
      hooked_cu_launch_kernel p memory handle grid_x grid_y grid_z block_x block_y block_z shared
        params
        (asked d (get_function_hooked es) calls t)
      ≡ (cuda_error_invalid_handle, [])
launch_refused l d p memory calls handle grid_x grid_y grid_z block_x block_y block_z shared params
      s fresh =
    launch_unknown p memory grid_x grid_y grid_z block_x block_y block_z shared params handle _
      (rw (never_hooked l s, asked_unhooked) (ap (lookup handle) (names_same l s ∙ fresh)))
