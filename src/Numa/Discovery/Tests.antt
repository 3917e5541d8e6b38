-- ===== src/Numa/Discovery/Tests.antt =====
-- A discovery on two nodes.
use gpu_over_ip_capnp.Base.{true, false, none, some, List, [], ◌∷◌, codes, map}
use gpu_over_ip_capnp.Numa.Discovery.{Entry, System}
use gpu_over_ip_capnp.Numa.Discovery.Listed.{one, span, Listing, entry_of}

-- A node with the processors 0 to 3 and 8, and one with 16 alone.
abbrev two : List Listing
two =
    record {
      id = 0;
      cpus = span 0 3 ∷ one 8 ∷ [];
      pad = 6;
      kb = 1000;
      others = codes "Node 0 MemFree: 9 kB" ∷ [];
    }
    ∷ record { id = 8; cpus = one 16 ∷ []; pad = 0; kb = 2000; others = [] }
    ∷ []

abbrev directory : List Entry
directory =
    record { name = codes "has_cpu"; is_dir = false; cpulist = none; meminfo = [] }
    ∷ record { name = codes "power"; is_dir = true; cpulist = none; meminfo = [] }
    ∷ map entry_of two

abbrev system : System
system = record {
  entries = some directory;
  ocxl_paths = codes "/sys/class/ocxl/ocxl-0" ∷ [];
  tree_paths = [];
  numa_node = λ p. some (codes "8");
  status = λ p. some (codes "fenced");
}
