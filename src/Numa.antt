-- ===== src/Numa.antt =====
-- Access to memory of a node: pkg/numa/routing.go and the two functions of pkg/numa/binding.go that
-- it stands on. The system calls are parameters, in `Host`: of `sched_getaffinity` the set of
-- processors, `none` where it fails; of `move_pages` the status that it writes, `none` where it
-- fails; of `mmap` whether it maps, by its offset and length; of `net.SendToRemoteNUMA`, which is
-- not in the repository, whether it sends. `routing.go` takes the first result of `GetCurrentNode`
-- alone.
pub mod Routing
pub mod Current
pub mod Discovery
pub mod OpenCapi
mod Tests
use gpu_over_ip_capnp.Base.{
  ℕ, zero, suc, ◌+◌, ◌≡◌, Bool, true, false, ◌&&◌, Option, none, some, List, [], ◌∷◌, ◌++◌,
  if◌then◌else◌, ltb, ◌==◌, length, split_at, replicate, ℤ, pos, negsuc, eq_ℤ, Io, pure, call, ◌>>◌,
  Use, opens, closes, plain,
}

pub record Command : Type 0 where
  pub dst_address : ℕ
  pub data_size : ℕ
  pub op_type : ℕ
  pub content : List ℕ

pub record Host : Type 0 where
  pub affinity : Option (List Bool)
  pub page_status : ℕ → Option ℤ
  pub maps : ℕ → ℕ → Bool
  pub sends : ℤ → Command → Bool

-- `mmap` by offset and length, what is written to the mapping, and the rest.
pub data Event : Type 0 where
  mmap : ℕ → ℕ → Bool → Event
  written : List ℕ → Event
  munmap : Event
  send_to_remote : ℤ → Command → Bool → Event

abbrev pub use_of : Event → Use
use_of (mmap offset size ok) = if ok then opens 0 else plain
use_of (written bytes) = plain
use_of munmap = closes 0
use_of (send_to_remote node cmd ok) = plain

-- The error of an access, or the index panic at the first byte of an empty payload.
pub data Access : Type 0 where
  done short_payload no_value mmap_failed unsupported remote_failed panic : Access

abbrev pub memcpy_operation : ℕ
memcpy_operation = 1

abbrev pub memset_operation : ℕ
memset_operation = 2

-- `mask.Count()`
pub count_cpus : List Bool → ℕ
count_cpus [] = 0
count_cpus (b ∷ bs) = (if b then 1 else 0) + count_cpus bs

-- The first processor of the set among the next `n`, of which the first has the number `i`.
pub first_cpu : ℕ → ℕ → List Bool → ℤ
first_cpu i zero bs = negsuc 0
first_cpu i (suc n) [] = negsuc 0
first_cpu i (suc n) (b ∷ bs) = let later = first_cpu (i + 1) n bs in if b then pos i else later

pub get_current_node : Host → ℤ
unfolding count_cpus first_cpu
get_current_node h = elim h.affinity [
  | none ↦ negsuc 0
  | some mask ↦ first_cpu 0 (count_cpus mask) mask
]

pub get_address_node : Host → ℕ → ℤ
get_address_node h addr = elim (h.page_status addr) [ none ↦ negsuc 0 | some status ↦ status ]

-- A mapping of `size` bytes is made, written and removed.
pub with_mapping : Host → ℕ → ℕ → List ℕ → Io Event Access
with_mapping h addr size bytes =
    call (mmap addr size (h.maps addr size))
    >> (if h.maps addr size
        then call (written bytes) >> (call munmap >> pure done)
        else pure mmap_failed)

pub local_copy : Host → ℕ → ℕ → List ℕ → Io Event Access
unfolding with_mapping
local_copy h addr size [] = if ltb 0 size then pure short_payload else pure panic
local_copy h addr size (b ∷ payload) =
    if ltb (length (b ∷ payload)) size
    then pure short_payload
    else with_mapping h addr size (split_at size (b ∷ payload)).0

pub local_set : Host → ℕ → ℕ → List ℕ → Io Event Access
unfolding with_mapping
local_set h addr size [] = pure no_value
local_set h addr size (b ∷ payload) = with_mapping h addr size (replicate size b)

pub access_via_xbus : Host → ℕ → ℕ → ℕ → List ℕ → Io Event Access
unfolding local_copy local_set
access_via_xbus h addr size operation payload =
    if operation == memcpy_operation
    then local_copy h addr size payload
    else if operation == memset_operation
    then local_set h addr size payload
    else pure unsupported

pub access_via_remote : Host → ℕ → ℕ → ℕ → ℤ → List ℕ → Io Event Access
access_via_remote h addr size operation node payload =
    let cmd : Command = record {
      dst_address = addr;
      data_size = size;
      op_type = operation;
      content = payload;
    } in
    call (send_to_remote node cmd (h.sends node cmd))
    >> (if h.sends node cmd then pure done else pure remote_failed)

unfoldable pub route_memory_access : Host → ℕ → ℕ → ℕ → List ℕ → Io Event Access
unfolding access_via_xbus access_via_remote get_address_node get_current_node
route_memory_access h addr size operation payload =
    if eq_ℤ (get_address_node h addr) (get_current_node h)
    then access_via_xbus h addr size operation payload
    else access_via_remote h addr size operation (get_address_node h addr) payload
