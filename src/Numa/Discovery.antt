-- ===== src/Numa/Discovery.antt =====
-- The discovery of the nodes and their OpenCAPI devices: pkg/numa/discovery.go. The files that it
-- reads are a parameter, `System`: the entries of the directory of the nodes, `none` where it cannot
-- be read, each with the first line of its cpulist and the lines of its meminfo; the paths that the
-- two globs find; and by its path the two files of a device, `none` where they cannot be read. Of
-- the two functions `DiscoverOpenCapiDevices` of the package it is the one of this file.
pub mod Listed
pub mod Devices
mod Tests
use gpu_over_ip_capnp.Base.{
  ℕ, zero, suc, ◌*◌, ◌%◌, ◌+◌, ◌≡◌, Bool, true, false, ◌&&◌, not, Option, none, some, List, [], ◌∷◌,
  ◌++◌, if◌then◌else◌, ◌==◌, Text, codes, map, ℤ, negsuc, eq_ℤ, is_digit, split_at,
}
use gpu_over_ip_capnp.Go.{
  atoi, atoi_or_limit, parse_uint, uint_or_limit, uint64_limit, split_comma, trim_space, fields,
  contains, begins, same_text,
}

pub data Source : Type 0 where
  ocxl device_tree : Source

pub data Health : Type 0 where
  active unknown degraded : Health

-- The type is that of the source: AFU or legacy.
pub record OpenCapiBinding : Type 0 where
  pub path : Text
  pub source : Source
  pub numa_id : ℤ
  pub health : Health

pub record Node : Type 0 where
  pub id : ℤ
  pub cpus : List ℤ
  pub memory : ℕ
  pub open_capi : List OpenCapiBinding

pub record Entry : Type 0 where
  pub name : Text
  pub is_dir : Bool
  pub cpulist : Option Text
  pub meminfo : List Text

pub record System : Type 0 where
  pub entries : Option (List Entry)
  pub ocxl_paths : List Text
  pub tree_paths : List Text
  pub numa_node : Text → Option Text
  pub status : Text → Option Text

-- The numbers among the parts of a list; a part that is none is left out.
pub cpu_numbers : List Text → List ℤ
cpu_numbers [] = []
cpu_numbers (t ∷ ts) = elim (atoi t) [ none ↦ cpu_numbers ts | some n ↦ n ∷ cpu_numbers ts ]

unfoldable pub node_cpus : Option Text → List ℤ
unfolding cpu_numbers
node_cpus none = []
node_cpus (some line) = cpu_numbers (split_comma line)

-- The memory in bytes, from the fields of a line.
abbrev pub memory_of : ℕ → List Text → ℕ
memory_of m [] = m
memory_of m (a ∷ []) = m
memory_of m (a ∷ b ∷ []) = m
memory_of m (a ∷ b ∷ c ∷ []) = m
memory_of m (a ∷ b ∷ c ∷ d ∷ ds) = uint_or_limit (parse_uint d) * 1024 % uint64_limit

pub node_memory : ℕ → List Text → ℕ
node_memory m [] = m
node_memory m (line ∷ lines) =
    node_memory (if contains line (codes "MemTotal") then memory_of m (fields line) else m) lines

-- A number that cannot be read, or a file that cannot be opened, leaves -1.
pub ocxl_numa : Option Text → ℤ
ocxl_numa none = negsuc 0
ocxl_numa (some content) = elim (atoi (trim_space content)) [ none ↦ negsuc 0 | some n ↦ n ]

abbrev pub leading_digits : Text → Text
leading_digits [] = []
leading_digits (c ∷ t) = let more = leading_digits t in if is_digit c then c ∷ more else []

-- The first match of `@(\d+)`.
pub at_digits : Text → Option Text
at_digits [] = none
at_digits (c ∷ t) =
    let later = at_digits t in
    elim (leading_digits t) [ [] ↦ later | d ∷ ds ↦ if c == b'@' then some (d ∷ ds) else later ]

pub tree_numa : Option Text → ℤ
tree_numa none = negsuc 0
tree_numa (some digits) = elim (atoi digits) [ none ↦ negsuc 0 | some n ↦ n ]

module _ (s : System) where
  abbrev pub ocxl_binding : Text → OpenCapiBinding
  ocxl_binding p = record {
    path = p;
    source = ocxl;
    numa_id = ocxl_numa (s.numa_node p);
    health = active;
  }

  abbrev pub tree_binding : Text → OpenCapiBinding
  tree_binding p = record {
    path = p;
    source = device_tree;
    numa_id = tree_numa (at_digits p);
    health = unknown;
  }

  -- A device whose status is read and is not "active" is degraded.
  abbrev pub by_status : Option Text → OpenCapiBinding → OpenCapiBinding
  by_status none b = b
  by_status (some content) b =
      if same_text (trim_space content) (codes "active") then b else record b { health = degraded }

  -- Only a device of the first glob has a status.
  abbrev pub by_source : Source → OpenCapiBinding → OpenCapiBinding
  by_source ocxl b = by_status (s.status b.path) b
  by_source device_tree b = b

  pub check_device_health : OpenCapiBinding → OpenCapiBinding
  check_device_health b = by_source b.source b

  -- The device tree is asked only where no device is found.
  pub found_devices : List Text → List OpenCapiBinding
  found_devices [] = map tree_binding s.tree_paths
  found_devices (p ∷ ps) = map ocxl_binding (p ∷ ps)

  unfoldable pub discover_open_capi_devices : List OpenCapiBinding
  unfolding ocxl_numa at_digits tree_numa check_device_health found_devices
  discover_open_capi_devices = map check_device_health (found_devices s.ocxl_paths)

  -- The devices of a node.
  pub bound_to : ℤ → List OpenCapiBinding → List OpenCapiBinding
  bound_to id [] = []
  bound_to id (b ∷ bs) = let rest = bound_to id bs in if eq_ℤ b.numa_id id then b ∷ rest else rest

  abbrev pub is_node : Entry → Bool
  is_node e = e.is_dir && begins (codes "node") e.name

  unfoldable pub node_of : List OpenCapiBinding → Entry → Node
  unfolding node_memory bound_to
  node_of bindings e =
      let id = atoi_or_limit (split_at 4 e.name).1 in
      record {
        id = id;
        cpus = node_cpus e.cpulist;
        memory = node_memory 0 e.meminfo;
        open_capi = bound_to id bindings;
      }

  unfoldable pub nodes_of : List OpenCapiBinding → List Entry → List Node
  nodes_of bindings [] = []
  nodes_of bindings (e ∷ es) =
      let rest = nodes_of bindings es in if is_node e then node_of bindings e ∷ rest else rest

  pub discover_nodes : Option (List Node)
  unfolding discover_open_capi_devices node_of nodes_of
  discover_nodes = elim s.entries [
    | none ↦ none
    | some es ↦ some (nodes_of discover_open_capi_devices es)
  ]

-- Whether the first three bytes of two names are the same; `none` is the panic of a shorter one.
pub is_same_node : Text → Text → Option Bool
is_same_node (a ∷ b ∷ c ∷ t) (d ∷ e ∷ f ∷ u) = some (same_text (a ∷ b ∷ c ∷ []) (d ∷ e ∷ f ∷ []))
is_same_node [] u = none
is_same_node (a ∷ []) u = none
is_same_node (a ∷ b ∷ []) u = none
is_same_node (a ∷ b ∷ c ∷ t) [] = none
is_same_node (a ∷ b ∷ c ∷ t) (d ∷ []) = none
is_same_node (a ∷ b ∷ c ∷ t) (d ∷ e ∷ []) = none
