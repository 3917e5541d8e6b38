-- ===== src/Server/Params/Launching.antt =====
-- A launch whose parameters have the bytes that it says, and the launches that panic.
use gpu_over_ip_capnp.Base.{
  ℕ, ◌+◌, ◌<◌, ◌≤◌, ◌≡◌, refl, sym, ap, ◌∙◌, Bool, true, false, not, ◌&&◌, ◌||◌, Option, none, some,
  List, [], ◌∷◌, if◌then◌else◌, leb, ◌==◌, length, length-append, arith, Bool-cases, inl, inr,
  IsReleased,
}
use gpu_over_ip_capnp.Server.Params.{
  overwrite, merge_params, sized_buffer, KernelLaunch, Driver, Event, use_of, Answer, launched,
  no_params, not_prepared, no_function, launch_failed, crashed, upload, allocate,
  prepare_param_buffer, cuda_kernel_launch,
}
use gpu_over_ip_capnp.Server.Params.Merge.{
  concat, starts_within, merge_params-overwrite, length-sized_buffer, length-overwrite,
}

-- The bytes that are copied to the device.
abbrev pub uploads : List Event → List (List ℕ)
uploads [] = []
uploads (Event.malloc size ok ∷ es) = uploads es
uploads (Event.memcpy bytes ok ∷ es) = bytes ∷ uploads es
uploads (Event.free ∷ es) = uploads es
uploads (Event.launch_kernel f ok ∷ es) = uploads es

abbrev pub is_launched : Answer → Bool
is_launched launched = true
is_launched no_params = false
is_launched not_prepared = false
is_launched no_function = false
is_launched launch_failed = false
is_launched crashed = false

abbrev pub is_crashed : Answer → Bool
is_crashed crashed = true
is_crashed launched = false
is_crashed no_params = false
is_crashed not_prepared = false
is_crashed no_function = false
is_crashed launch_failed = false

abbrev pub is_some : Option ℕ → Bool
is_some none = false
is_some (some f) = true

starts_within-concat :
    (size offset : ℕ) (vs : List (List ℕ))
    → offset + length (concat vs) ≤ size
    → starts_within size offset vs ≡ true
starts_within-concat size offset [] h = refl
starts_within-concat size offset (v ∷ vs) h =
    let at : leb offset size ≡ true = ground (arith, length-append v (concat vs)) in
    rw at (
      starts_within-concat size (offset + length v) vs (omega (arith, length-append v (concat vs))))

overwrite_whole : (buf v : List ℕ) → length v ≡ length buf → overwrite buf v ≡ v
overwrite_whole [] [] h = refl
overwrite_whole [] (x ∷ v) h = absurd (omega arith)
overwrite_whole (b ∷ buf) [] h = absurd (omega arith)
overwrite_whole (b ∷ buf) (x ∷ v) h = ap (λ t. x ∷ t) (overwrite_whole buf v (omega arith))

merge_params_whole :
    (vs : List (List ℕ)) (total : ℕ) (pooled : List ℕ)
    → length (concat vs) ≡ total
    → merge_params 0 vs (sized_buffer total pooled) ≡ some (concat vs)
merge_params_whole vs total pooled h =
    merge_params-overwrite vs total pooled
    ∙ rw (starts_within-concat total 0 vs (omega arith)) (
        ap some (
          overwrite_whole (sized_buffer total pooled) (concat vs)
            (h ∙ sym (length-sized_buffer total pooled))))

-- What a launch does once its bytes are there.
allocate_lem :
    (d : Driver) (l : KernelLaunch) (b : ℕ) (bytes : List ℕ) (pooled : List ℕ)
    → (length l.params == 0) ≡ false
    → merge_params 0 l.params (sized_buffer l.param_bytes pooled) ≡ some (b ∷ bytes)
    → IsReleased use_of (cuda_kernel_launch d pooled l).1
      × (uploads (cuda_kernel_launch d pooled l).1 ≡ (if d.malloc then (b ∷ bytes) ∷ [] else []))
      × (is_launched (cuda_kernel_launch d pooled l).0
          ≡ (d.malloc && (d.memcpy && (is_some d.function && d.kernel))))
unfolding cuda_kernel_launch prepare_param_buffer allocate upload
allocate_lem d l b bytes pooled some_params e =
    rw (some_params, e) (ground arith, ground arith, ground arith)

-- A launch with parameters, whose sizes add up to a ParamBytes above 0, gives back the buffer of the
-- device on every path, copies exactly the bytes of the parameters to it, one after the other and
-- whatever the pool left, where there is memory, and is launched exactly where all four calls
-- succeed.
pub exact_launch :
    (d : Driver) (pooled : List ℕ) (l : KernelLaunch)
    → (length l.params == 0) ≡ false
    → length (concat l.params) ≡ l.param_bytes
    → 0 < l.param_bytes
    → IsReleased use_of (cuda_kernel_launch d pooled l).1
      × (uploads (cuda_kernel_launch d pooled l).1
          ≡ (if d.malloc then concat l.params ∷ [] else []))
      × (is_launched (cuda_kernel_launch d pooled l).0
          ≡ (d.malloc && (d.memcpy && (is_some d.function && d.kernel))))
exact_launch d pooled l some_params whole some_bytes =
    go (concat l.params) (merge_params_whole l.params l.param_bytes pooled whole) (omega arith)
  where
    go :
        (bytes : List ℕ)
        → merge_params 0 l.params (sized_buffer l.param_bytes pooled) ≡ some bytes
        → 0 < length bytes
        → IsReleased use_of (cuda_kernel_launch d pooled l).1
          × (uploads (cuda_kernel_launch d pooled l).1 ≡ (if d.malloc then bytes ∷ [] else []))
          × (is_launched (cuda_kernel_launch d pooled l).0
              ≡ (d.malloc && (d.memcpy && (is_some d.function && d.kernel))))
    go [] e h = absurd (omega arith)
    go (b ∷ bytes) e h = allocate_lem d l b bytes pooled some_params e

after_merge_crashes :
    (d : Driver) (l : KernelLaunch) (pooled : List ℕ) (merged : Option (List ℕ))
    → (length l.params == 0) ≡ false
    → merge_params 0 l.params (sized_buffer l.param_bytes pooled) ≡ merged
    → is_crashed (cuda_kernel_launch d pooled l).0
      ≡ (elim merged [ none ↦ true | some bytes ↦ d.malloc && length bytes == 0 ])
unfolding cuda_kernel_launch prepare_param_buffer allocate upload
after_merge_crashes d l pooled none some_params e = rw (some_params, e) refl
after_merge_crashes d l pooled (some []) some_params e = rw (some_params, e) (ground arith)
after_merge_crashes d l pooled (some (b ∷ bytes)) some_params e = rw (some_params, e) (ground arith)

-- A launch panics exactly when it has parameters and one of them starts behind ParamBytes, or there
-- is memory and ParamBytes is 0.
launch_crashes :
    (d : Driver) (pooled : List ℕ) (l : KernelLaunch)
    → is_crashed (cuda_kernel_launch d pooled l).0 ≡ (
        not (length l.params == 0)
        && (not (starts_within l.param_bytes 0 l.params) || (d.malloc && l.param_bytes == 0)))
unfolding cuda_kernel_launch
launch_crashes d pooled l = elim (Bool-cases (length l.params == 0)) [
  | inl no_param ↦ rw no_param refl
  | inr some_params ↦
      let buf = sized_buffer l.param_bytes pooled in
      let merged = merge_params-overwrite l.params l.param_bytes pooled in
      let size : length (overwrite buf (concat l.params)) ≡ l.param_bytes =
        length-overwrite buf (concat l.params) ∙ length-sized_buffer l.param_bytes pooled in
      after_merge_crashes d l pooled (merge_params 0 l.params buf) some_params refl
      ∙ elim (Bool-cases (starts_within l.param_bytes 0 l.params)) [
        | inl within ↦ rw merged (rw (some_params, within, size) refl)
        | inr beyond ↦ rw merged (rw (some_params, beyond) refl)
      ]
]
