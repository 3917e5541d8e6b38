-- ===== src/Cli/Topology/Tests.antt =====
-- A scan of two cards on the nodes 0 and 8.
use gpu_over_ip_capnp.Base.{none, some, [], ◌∷◌, ◌++◌, if◌then◌else◌, ◌==◌, Text, codes}
use gpu_over_ip_capnp.Cli.Topology.{Sysfs}

abbrev lines : Text
lines = codes "Node 8 MemTotal: 2000 kB" ++ b'\n' ∷ codes "Node 8 MemFree: 10 kB" ++ b'\n' ∷ []

abbrev sysfs : Sysfs
sysfs = record {
  drm =
      (codes "card0", some (codes "0"))
      ∷ (codes "card0-DP-1", none)
      ∷ (codes "card1", some (codes "8"))
      ∷ (codes "renderD128", some (codes "0"))
      ∷ [];
  net = (codes "eth0", some (codes "8")) ∷ (codes "lo", none) ∷ [];
  meminfo = λ n. if n == 8 then some lines else none;
}
