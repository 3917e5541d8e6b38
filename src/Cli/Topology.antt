-- ===== src/Cli/Topology.antt =====
-- `GenerateTopologyFiles`: cmd/aitherion-cli/utils/topogen.go, and `getNUMATotalMemoryKB` of
-- cmd/aitherion-cli/utils/docker.go, which reads the same file. The files that they read are a
-- parameter, `Sysfs`: the entries of the two directories of devices, none where one cannot be read,
-- each with the text of its numa_node, and of a node the text of its meminfo. `shown_gb` prints the
-- bytes of a memory as the decimal number of gigabytes. Errors of the writes are dropped.
pub mod Scanned
mod Tests
use gpu_over_ip_capnp.Base.{
  ℕ, ◌*◌, ◌%◌, ◌≡◌, Bool, true, false, Option, none, some, List, [], ◌∷◌, ◌++◌, if◌then◌else◌, Text,
  codes, decimal, map, Map, lookup, insert, ℤ, pos, negsuc,
}
use gpu_over_ip_capnp.Go.{
  atoi, atoi_or_limit, parse_uint, uint_or_limit, uint64_limit, split_on, join_comma, trim_space,
  fields, begins,
}

pub record Info : Type 0 where
  pub gpus : List Text
  pub ifaces : List Text
  pub memory : ℕ

abbrev pub no_info : Info
no_info = record { gpus = []; ifaces = []; memory = 0 }

-- A device by its name and the text of its numa_node, `none` where it cannot be read.
abbrev pub Device : Type 0
Device = Text × Option Text

pub record Sysfs : Type 0 where
  pub drm : List Device
  pub net : List Device
  pub meminfo : ℕ → Option Text

abbrev pub from_zero : ℤ → Option ℕ
from_zero (pos n) = some n
from_zero (negsuc n) = none

-- The node of a device, `none` where it is skipped.
pub device_node : Option Text → Option ℕ
unfolding atoi_or_limit trim_space
device_node none = none
device_node (some content) = from_zero (atoi_or_limit (trim_space content))

abbrev pub info_of : Option Info → Info
info_of none = no_info
info_of (some i) = i

-- `numaMap[node]`
abbrev pub info_at : ℕ → Map Info → Info
info_at n m = info_of (lookup n m)

abbrev pub add_gpu : Text → Option ℕ → Map Info → Map Info
add_gpu name none m = m
add_gpu name (some n) m =
    let info = info_at n m in insert n (record info { gpus = info.gpus ++ name ∷ [] }) m

abbrev pub add_iface : Text → Option ℕ → Map Info → Map Info
add_iface name none m = m
add_iface name (some n) m =
    let info = info_at n m in insert n (record info { ifaces = info.ifaces ++ name ∷ [] }) m

pub scan_gpus : Map Info → List Device → Map Info
unfolding device_node insert
scan_gpus m [] = m
scan_gpus m ((name, content) ∷ ds) =
    scan_gpus (if begins (codes "card") name then add_gpu name (device_node content) m else m) ds

pub scan_ifaces : Map Info → List Device → Map Info
unfolding device_node insert
scan_ifaces m [] = m
scan_ifaces m ((name, content) ∷ ds) = scan_ifaces (add_iface name (device_node content) m) ds

-- The memory in bytes, from the fields of a line.
abbrev pub line_memory : ℕ → List Text → ℕ
line_memory memory [] = memory
line_memory memory (a ∷ []) = memory
line_memory memory (a ∷ b ∷ rest) = uint_or_limit (parse_uint b) * 1024 % uint64_limit

-- Only the first line with the prefix counts.
pub meminfo_memory : ℕ → List Text → ℕ
meminfo_memory memory [] = memory
meminfo_memory memory (line ∷ lines) =
    let later = meminfo_memory memory lines in
    if begins (codes "MemTotal:") line then line_memory memory (fields line) else later

pub read_memory : Option Text → Info → Info
unfolding meminfo_memory
read_memory none info = info
read_memory (some content) info = record info {
  memory = meminfo_memory info.memory (split_on b'\n' content);
}

-- The loop over the map, which changes at each node the information of that node alone.
pub scan_memory : (ℕ → Option Text) → Map Info → Map Info
unfolding read_memory
scan_memory meminfo [] = []
scan_memory meminfo ((n, info) ∷ m) = (n, read_memory (meminfo n) info) ∷ scan_memory meminfo m

unfoldable pub numa_map : Sysfs → Map Info
unfolding scan_gpus scan_ifaces scan_memory
numa_map s = scan_memory s.meminfo (scan_ifaces (scan_gpus [] s.drm) s.net)

-- The three files of a node.
pub node_files : (ℕ → Text) → ℕ × Info → List (Text × Text)
node_files shown_gb (n, info) =
    (codes "numa" ++ (decimal n ++ codes "_gpus.txt"), join_comma info.gpus)
    ∷ (codes "numa" ++ (decimal n ++ codes "_iface.txt"), join_comma info.ifaces)
    ∷ (codes "numa" ++ (decimal n ++ codes "_mem_gb.txt"), shown_gb info.memory)
    ∷ []

pub all_files : (ℕ → Text) → Map Info → List (Text × Text)
unfolding node_files
all_files shown_gb [] = []
all_files shown_gb (e ∷ m) = node_files shown_gb e ++ all_files shown_gb m

-- The files that are written, `none` where the directory cannot be made.
pub generate_topology_files : (ℕ → Text) → Bool → Sysfs → Option (List (Text × Text))
unfolding numa_map all_files
generate_topology_files shown_gb made s =
    if made then some (all_files shown_gb (numa_map s)) else none

abbrev pub line_kb : List Text → Option ℤ
line_kb [] = none
line_kb (a ∷ []) = none
line_kb (a ∷ b ∷ rest) = atoi b

-- A line with the prefix whose number cannot be read is passed over.
pub lines_kb : List Text → ℤ
lines_kb [] = pos 0
lines_kb (line ∷ lines) =
    let later = lines_kb lines in
    if begins (codes "MemTotal:") line
    then (elim (line_kb (fields line)) [ none ↦ later | some kb ↦ kb ])
    else later

pub numa_total_memory_kb : Option Text → ℤ
unfolding lines_kb
numa_total_memory_kb none = pos 0
numa_total_memory_kb (some content) = lines_kb (split_on b'\n' content)
