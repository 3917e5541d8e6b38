-- ===== src/GlobalMemory/Tests.antt =====
-- Runs of the table.
use gpu_over_ip_capnp.Base.{ℕ, refl, ◌%◌, ◌^◌, ◌≡◌, none, [], ◌∷◌, lookup}
use gpu_over_ip_capnp.GlobalMemory.{RemoteAllocInfo, GlobalMemoryService, get_mapping}
use gpu_over_ip_capnp.Base.{List, ◌≤◌, ◌+◌, suc}
use gpu_over_ip_capnp.GlobalMemory.Race.{run_all, idle, stored, stores, repeat, lookups_lost}
use gpu_over_ip_capnp.GlobalMemory.Counting.{
  Call, adds, gets, removes, run, spec, spec_step, entry_of, run_refines,
}

abbrev info : RemoteAllocInfo
info = record { node_id = "a"; size = 16; remote_handle = 900; access_count = 5; last_access = 0 }

abbrev empty : GlobalMemoryService
empty = record { ptr_table = [] }

-- An allocation is added, looked up and kept while another pointer is removed.
abbrev calls : List Call
calls = adds 1 7 info ∷ gets 2 7 ∷ removes 8 ∷ []

run_refines_example :
    (lookup 7 (run calls empty).ptr_table ≡ entry_of (spec 7 calls none))
    × ((get_mapping 3 7 (run calls empty)).0
        ≡ entry_of (spec_step 7 (gets 3 7) (spec 7 calls none)))
run_refines_example = run_refines 7 3 calls empty none refl

-- Two look-ups at a count of 5.
lookups_lost_example :
    ((is : List ℕ)
      → (run_all is 5 (repeat (suc 1) idle)).0 ≤ 5 + stores (run_all is 5 (repeat (suc 1) idle)).1)
    × ((is : List ℕ) × (run_all is 5 (repeat (suc 1) idle)
          ≡ ((5 + 1) % 2 ^ 32, repeat (suc 1) stored)))
lookups_lost_example = lookups_lost 1 5
