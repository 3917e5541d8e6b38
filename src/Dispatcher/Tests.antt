-- ===== src/Dispatcher/Tests.antt =====
-- Runs of the dispatcher, with the numbers of the module `Float.Fixed`.
use gpu_over_ip_capnp.Base.{
  ℕ, ◌*◌, ◌%◌, ◌≡◌, refl, true, false, ◌&&◌, none, some, [], ◌∷◌, ℤ, pos, negsuc, ltb, eq_ℤ,
  if◌then◌else◌, ◌⊎◌, String, returned, blocked, u64_mod, All,
}
use gpu_over_ip_capnp.Float.{fl_zero}
use gpu_over_ip_capnp.Float.Fixed.{fixed, fixed-Laws, fixed_times, fixed_div}
use gpu_over_ip_capnp.Cuda.{cuda_success}
use gpu_over_ip_capnp.Cooling.{CoolingService, new_service, get_numa_id, is_hot_data}
use gpu_over_ip_capnp.Cooling.Steps.{Reached, fresh}
use gpu_over_ip_capnp.Dispatcher.{
  AllocationPlan, vram, host, local, rdma, udp, rdma_udp, RemoteNode, Dispatcher,
  calculate_node_score, select_node, lowest_score, best_node, make_allocation_decision, pick_node,
}
use gpu_over_ip_capnp.Float.{AtMost}
use gpu_over_ip_capnp.Float.Fixed.{fixed-Monotone}
use gpu_over_ip_capnp.Base.{inl, inr, arith}
use gpu_over_ip_capnp.Dispatcher.Score.{IsNoBetter, score_mono}
use gpu_over_ip_capnp.Dispatcher.Choice.{best_node_lem, IsFirstBest, NotAbove}
use gpu_over_ip_capnp.Dispatcher.Decision.{decision_reached}
use gpu_over_ip_capnp.Dispatcher.Lock.{pick_node_lem}

abbrev idle_node : String → ℕ → RemoteNode fixed
idle_node id memory = record {
  id = id;
  name = id;
  address = "10.0.0.1:5000";
  roce_interface = "";
  priority = pos 50;
  total_memory = 100;
  available_memory = memory;
  network_latency = fl_zero fixed;
  cpu_usage = fl_zero fixed;
  gpu_utilization = fl_zero fixed;
  numa_id = negsuc 0;
  zmq_port = 5555;
  connected = true;
  rdma_support = true;
  nvlink_support = false;
  gdr_support = false;
  gpu_memory_utilization = fl_zero fixed;
}

abbrev small_node : RemoteNode fixed
small_node = idle_node "small" 20

abbrev large_node : RemoteNode fixed
large_node = idle_node "large" 90

abbrev two_nodes : Dispatcher fixed
two_nodes = record { nodes = small_node ∷ large_node ∷ []; locked = false }

abbrev blank : AllocationPlan
blank = record {
  target_node_id = "";
  memory_type = vram;
  transport_type = local;
  error = cuda_success;
  prefetch_hint = false;
  numa_match = false;
  gpu_topology_optimal = false;
  trigger_migration = false;
  expand_stable_zone = false;
  gdr_transfer = false;
}

abbrev cooling : CoolingService fixed
cooling = new_service fixed

-- The node with more memory is chosen, and neither if too much is asked for.
chosen : best_node fixed 10 (negsuc 0) two_nodes.nodes ≡ some large_node
unfolding best_node select_node calculate_node_score fixed_times fixed_div
chosen = refl

none_fits : best_node fixed 95 (negsuc 0) two_nodes.nodes ≡ none
unfolding best_node select_node calculate_node_score fixed_times fixed_div
none_fits = refl

pick_node_lem_example :
    ((best_node fixed 10 (negsuc 0) two_nodes.nodes ≡ none)
      × (pick_node fixed blank cooling 7 10 two_nodes ≡ returned (none, two_nodes)))
    ⊎ ((n : RemoteNode fixed) × (best_node fixed 10 (negsuc 0) two_nodes.nodes ≡ some n)
        × (pick_node fixed blank cooling 7 10 two_nodes ≡ blocked))
pick_node_lem_example = pick_node_lem fixed blank cooling 7 10 two_nodes refl refl

best_node_lem_example :
    ((best_node fixed 10 (negsuc 0) two_nodes.nodes ≡ none)
      × All (NotAbove fixed fixed-Laws 10 (negsuc 0) (lowest_score fixed)) two_nodes.nodes)
    ⊎ ((n : RemoteNode fixed) × (best_node fixed 10 (negsuc 0) two_nodes.nodes ≡ some n)
        × IsFirstBest fixed fixed-Laws 10 (negsuc 0) (lowest_score fixed) two_nodes.nodes n)
best_node_lem_example = best_node_lem fixed fixed-Laws 10 (negsuc 0) two_nodes.nodes

abbrev numa_of : ℕ → ℤ
numa_of ptr = pos 0

abbrev fresh-Reached : Reached fixed numa_of cooling
fresh-Reached = fresh

decision_reached_example :
    let plan = make_allocation_decision fixed blank cooling two_nodes.nodes 7 10 (negsuc 0) in
    (plan.memory_type ≡ (
      if eq_ℤ large_node.numa_id (get_numa_id fixed cooling 7)
        && ltb (10 * 2 % u64_mod) large_node.available_memory
      then vram
      else host))
    × (plan.transport_type ≡ (
        if is_hot_data fixed cooling 7
        then if large_node.rdma_support then rdma else udp
        else rdma_udp))
    × (plan.gdr_transfer ≡ blank.gdr_transfer)
decision_reached_example =
    decision_reached fixed fixed-Laws blank two_nodes.nodes 7 10 (negsuc 0) large_node fresh-Reached
      chosen

-- Less memory is available, of more in all.
abbrev crowded_node : RemoteNode fixed
crowded_node = record small_node { total_memory = 200 }

crowded-IsNoBetter : IsNoBetter fixed (negsuc 0) crowded_node large_node
crowded-IsNoBetter = record {
  total = inr (omega arith, omega arith);
  memory = omega arith;
  latency = refl;
  cpu = refl;
  gpu = refl;
  priority = refl;
  near = inl refl;
}

score_mono_example :
    AtMost fixed
      (calculate_node_score fixed crowded_node 10 (negsuc 0))
      (calculate_node_score fixed large_node 10 (negsuc 0))
score_mono_example =
    score_mono fixed fixed-Laws fixed-Monotone 10 (negsuc 0) crowded_node large_node (omega arith)
      (omega arith) refl crowded-IsNoBetter
