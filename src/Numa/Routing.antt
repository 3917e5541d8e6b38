-- ===== src/Numa/Routing.antt =====
-- What `RouteMemoryAccess` does to the mappings of the process and where it sends the access.
use gpu_over_ip_capnp.Base.{
  ℕ, ◌≡◌, Bool, true, false, ◌&&◌, inl, inr, List, [], ◌∷◌, if◌then◌else◌, ◌==◌, length, split_at,
  replicate, ℤ, eq_ℤ, IsReleased, arith, Bool-cases,
}
use gpu_over_ip_capnp.Numa.{
  Host, Command, Event, mmap, written, munmap, send_to_remote, use_of, Access, done, short_payload,
  no_value, mmap_failed, unsupported, remote_failed, panic, memcpy_operation, get_current_node,
  get_address_node, with_mapping, local_copy, local_set, access_via_xbus, access_via_remote,
  route_memory_access,
}

-- The address is of the node that `GetCurrentNode` names.
abbrev pub is_local : Host → ℕ → Bool
is_local h addr = eq_ℤ (get_address_node h addr) (get_current_node h)

with_mapping-IsReleased :
    (h : Host) (addr size : ℕ) (bytes : List ℕ)
    → IsReleased use_of (with_mapping h addr size bytes).1
unfolding with_mapping
with_mapping-IsReleased h addr size bytes = ground arith

access_via_xbus-IsReleased :
    (h : Host) (addr size operation : ℕ) (payload : List ℕ)
    → IsReleased use_of (access_via_xbus h addr size operation payload).1
unfolding access_via_xbus local_copy local_set
access_via_xbus-IsReleased h addr size operation [] = ground arith
access_via_xbus-IsReleased h addr size operation (b ∷ payload) = ground (
  arith,
  with_mapping-IsReleased h addr size (split_at size (b ∷ payload)).0,
  with_mapping-IsReleased h addr size (replicate size b),
)

-- The commands that are sent.
abbrev pub sent : List Event → List (ℤ × Command)
sent [] = []
sent (mmap offset size ok ∷ es) = sent es
sent (written bytes ∷ es) = sent es
sent (munmap ∷ es) = sent es
sent (send_to_remote node cmd ok ∷ es) = (node, cmd) ∷ sent es

access_via_xbus-sent :
    (h : Host) (addr size operation : ℕ) (payload : List ℕ)
    → sent (access_via_xbus h addr size operation payload).1 ≡ []
unfolding access_via_xbus local_copy local_set with_mapping
access_via_xbus-sent h addr size operation [] = ground arith
access_via_xbus-sent h addr size operation (b ∷ payload) = ground arith

-- An access removes every mapping that it made, and sends nothing for an address of the current
-- node and otherwise one command, with what it was asked for, to the node of the address.
pub route_lem :
    (h : Host) (addr size operation : ℕ) (payload : List ℕ)
    → IsReleased use_of (route_memory_access h addr size operation payload).1
      × (sent (route_memory_access h addr size operation payload).1 ≡ (
          if is_local h addr
          then []
          else (
            get_address_node h addr,
            record { dst_address = addr; data_size = size; op_type = operation; content = payload },
          )
            ∷ []))
unfolding route_memory_access access_via_remote
route_lem h addr size operation payload = elim (Bool-cases (is_local h addr)) [
  | inl here ↦ rw here (
    access_via_xbus-IsReleased h addr size operation payload,
    access_via_xbus-sent h addr size operation payload,
  )
  | inr away ↦ rw away (ground arith, ground arith)
]

unfoldable pub panics : Access → Bool
panics done = false
panics short_payload = false
panics no_value = false
panics mmap_failed = false
panics unsupported = false
panics remote_failed = false
panics panic = true

-- A local access panics exactly for a copy of no bytes from no payload.
pub route_panics :
    (h : Host) (addr size operation : ℕ) (payload : List ℕ)
    → panics (route_memory_access h addr size operation payload).0
      ≡ (is_local h addr && (operation == memcpy_operation && (size == 0 && length payload == 0)))
unfolding panics route_memory_access access_via_remote access_via_xbus local_copy local_set
    with_mapping
route_panics h addr size operation [] = ground arith
route_panics h addr size operation (b ∷ payload) = ground arith
