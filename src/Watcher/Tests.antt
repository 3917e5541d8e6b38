-- ===== src/Watcher/Tests.antt =====
-- A run of the watcher: a round that fails, one without a change, and one with a change.
use gpu_over_ip_capnp.Base.{
  ℕ, ◌≡◌, refl, Bool, true, false, Option, none, some, List, [], ◌∷◌, String, pos, negsuc, returned,
}
use gpu_over_ip_capnp.Float.{fl_zero}
use gpu_over_ip_capnp.Float.Fixed.{fixed}
use gpu_over_ip_capnp.Dispatcher.{RemoteNode, Dispatcher, find_node}
use gpu_over_ip_capnp.Dispatcher.Config.{YamlNode}
use gpu_over_ip_capnp.Watcher.{Tick, config_watcher}
use gpu_over_ip_capnp.Watcher.Reloads.{watcher_finds_old}

abbrev node : RemoteNode fixed
node = record {
  id = "a";
  name = "a";
  address = "10.0.0.1:5000";
  roce_interface = "";
  priority = pos 50;
  total_memory = 100;
  available_memory = 90;
  network_latency = fl_zero fixed;
  cpu_usage = fl_zero fixed;
  gpu_utilization = fl_zero fixed;
  numa_id = negsuc 0;
  zmq_port = 5555;
  connected = true;
  rdma_support = true;
  nvlink_support = false;
  gdr_support = false;
  gpu_memory_utilization = fl_zero fixed;
}

abbrev one_node : Dispatcher fixed
one_node = record { nodes = node ∷ []; locked = false }

abbrev moved : Option (List YamlNode)
moved = some (
    record {
      id = some "a";
      name = none;
      address = some "10.0.0.2:5000";
      roce_interface = none;
      priority = none;
      total_memory = none;
      memory = none;
      numa_id = none;
    }
    ∷ [])

abbrev rounds : List Tick
rounds =
    record { written = none; content = moved }
    ∷ record { written = some 3; content = moved }
    ∷ record { written = some 4; content = moved }
    ∷ []

abbrev reaches : String → Bool
reaches address = true

node_found : find_node fixed "a" one_node.nodes ≡ some node
unfolding find_node
node_found = refl

watcher_finds_old_example :
    (time : ℕ) × (e : Dispatcher fixed) × (config_watcher fixed reaches node rounds 3 one_node
      ≡ returned (time, e))
    × (find_node fixed "a" e.nodes ≡ some node)
watcher_finds_old_example =
    watcher_finds_old fixed reaches node rounds 3 "a" node one_node refl node_found
