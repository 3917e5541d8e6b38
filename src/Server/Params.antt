-- ===== src/Server/Params.antt =====
-- `prepareParamBuffer` and `cudaKernelLaunch`. `pooled` is the array behind the slice of length 0 that
-- the pool gives, with what an earlier launch left in it; the pool gets the same slice back. What
-- the driver answers, and what `getCudaFunction` answers, are parameters. A panic is a value.
pub mod Merge
pub mod Launching
use gpu_over_ip_capnp.Base.{
  ℕ, zero, suc, ◌+◌, ◌≡◌, Bool, true, false, Option, none, some, List, [], ◌∷◌, ◌++◌, if◌then◌else◌,
  ltb, ◌==◌, length, split_at, replicate, Io, pure, call, ◌>>◌, ◌>>=◌, Use, opens, closes, plain,
  Text,
}

-- `copy(buf, v)`: the buffer after it.
abbrev pub overwrite : List ℕ → List ℕ → List ℕ
overwrite [] v = []
overwrite (b ∷ buf) [] = b ∷ buf
overwrite (b ∷ buf) (x ∷ v) = x ∷ overwrite buf v

abbrev pub behind : ℕ → Option (List ℕ) → Option (List ℕ)
behind b none = none
behind b (some buf) = some (b ∷ buf)

-- `copy(buf[offset:], v)`; a slice that starts behind the end of the buffer panics.
unfoldable pub copy_at : ℕ → List ℕ → List ℕ → Option (List ℕ)
copy_at zero buf v = some (overwrite buf v)
copy_at (suc n) [] v = none
copy_at (suc n) (b ∷ buf) v = behind b (copy_at n buf v)

abbrev pub and_then : Option (List ℕ) → (List ℕ → Option (List ℕ)) → Option (List ℕ)
and_then none f = none
and_then (some buf) f = f buf

-- The loop over the parameters, at `offset`.
unfoldable pub merge_params : ℕ → List (List ℕ) → List ℕ → Option (List ℕ)
unfolding copy_at
merge_params offset [] buf = some buf
merge_params offset (v ∷ vs) buf =
    and_then (copy_at offset buf v) (merge_params (offset + length v) vs)

-- The slice of `total` bytes that the parameters are copied to.
unfoldable pub sized_buffer : ℕ → List ℕ → List ℕ
sized_buffer total pooled =
    if ltb (length pooled) total then replicate total 0 else (split_at total pooled).0

pub record KernelLaunch : Type 0 where
  pub name : Text
  pub param_bytes : ℕ
  pub params : List (List ℕ)

-- What the calls answer; `function` is what `getCudaFunction` gives.
pub record Driver : Type 0 where
  pub malloc : Bool
  pub memcpy : Bool
  pub function : Option ℕ
  pub kernel : Bool

pub data Event : Type 0 where
  malloc : ℕ → Bool → Event
  memcpy : List ℕ → Bool → Event
  free : Event
  launch_kernel : ℕ → Bool → Event

abbrev pub use_of : Event → Use
use_of (Event.malloc size ok) = if ok then opens 0 else plain
use_of (Event.memcpy bytes ok) = plain
use_of Event.free = closes 0
use_of (Event.launch_kernel f ok) = plain

pub data Prepared : Type 0 where
  prepared malloc_failed memcpy_failed panic : Prepared

-- The copy of the buffer to the device; the address of the first byte of an empty one panics.
pub upload : Driver → List ℕ → Io Event Prepared
upload d [] = pure panic
upload d (b ∷ buf) =
    call (Event.memcpy (b ∷ buf) d.memcpy)
    >> (if d.memcpy then pure prepared else call Event.free >> pure memcpy_failed)

pub allocate : Driver → ℕ → Option (List ℕ) → Io Event Prepared
unfolding upload
allocate d total none = pure panic
allocate d total (some buf) =
    call (Event.malloc total d.malloc) >> (if d.malloc then upload d buf else pure malloc_failed)

pub prepare_param_buffer : Driver → List ℕ → KernelLaunch → Io Event Prepared
unfolding allocate merge_params sized_buffer
prepare_param_buffer d pooled l =
    allocate d l.param_bytes (merge_params 0 l.params (sized_buffer l.param_bytes pooled))

pub data Answer : Type 0 where
  launched no_params not_prepared no_function launch_failed crashed : Answer

abbrev pub launch_with : Driver → Option ℕ → Io Event Answer
launch_with d none = call Event.free >> pure no_function
launch_with d (some f) =
    call (Event.launch_kernel f d.kernel)
    >> (call Event.free >> pure (if d.kernel then launched else launch_failed))

abbrev pub after_prepare : Driver → Prepared → Io Event Answer
after_prepare d prepared = launch_with d d.function
after_prepare d malloc_failed = pure not_prepared
after_prepare d memcpy_failed = pure not_prepared
after_prepare d panic = pure crashed

unfoldable pub cuda_kernel_launch : Driver → List ℕ → KernelLaunch → Io Event Answer
unfolding prepare_param_buffer
cuda_kernel_launch d pooled l =
    if length l.params == 0
    then pure no_params
    else prepare_param_buffer d pooled l >>= after_prepare d
