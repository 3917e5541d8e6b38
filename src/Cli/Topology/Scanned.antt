-- ===== src/Cli/Topology/Scanned.antt =====
-- What the topology files say of the devices and of the memory.
use gpu_over_ip_capnp.Base.{
  ℕ, ◌≡◌, Bool, true, false, ◌⊎◌, Option, none, some, List, [], ◌∷◌, ◌++◌, if◌then◌else◌, ◌==◌,
  Text, codes, All,
}
use gpu_over_ip_capnp.Go.{split_on, begins}
use gpu_over_ip_capnp.Cli.Topology.{Device, device_node}

abbrev pub is_at : ℕ → Option ℕ → Bool
is_at n none = false
is_at n (some k) = n == k

-- The names of the devices of a node, in their order.
abbrev pub names_at : ℕ → List Device → List Text
names_at n [] = []
names_at n ((name, content) ∷ ds) =
    (if is_at n (device_node content) then name ∷ [] else []) ++ names_at n ds

abbrev pub cards : List Device → List Device
cards [] = []
cards ((name, content) ∷ ds) =
    let rest = cards ds in if begins (codes "card") name then (name, content) ∷ rest else rest

-- A line of the meminfo of a node, as the kernel prints them, or what stands behind the last one.
abbrev pub IsNodeLine : Text → Type 0
IsNodeLine l = (begins (codes "Node ") l ≡ true) ⊎ (l ≡ [])

abbrev pub IsNodeMeminfo : Option Text → Type 0
IsNodeMeminfo none = Unit
IsNodeMeminfo (some content) = All IsNodeLine (split_on b'\n' content)
