-- ===== src/Root/Tests.antt =====
-- Runs of the root service, with the map of the module `Table`.
use gpu_over_ip_capnp.Base.{
  ℕ, ◌≡◌, refl, true, false, none, some, [], ◌∷◌, ◌++◌, ◌==◌, if◌then◌else◌, pos, negsuc, ◌⊎◌,
  returned, arith,
}
use gpu_over_ip_capnp.Float.{fl_zero}
use gpu_over_ip_capnp.Float.Fixed.{fixed}
use gpu_over_ip_capnp.Cuda.{cuda_success, cuda_error_invalid_value}
use gpu_over_ip_capnp.Dispatcher.{AllocationPlan, RemoteNode, find_node, vram, local}
use gpu_over_ip_capnp.Root.{
  RemoteAllocInfo, free_result, memcpy_plan, memcpy_error, ask_free, RootService, send, finish_free,
  request_free, plan_memcpy_htod, finish_allocation, allocating, freeing, AllocResponse,
  reject_free,
}
use gpu_over_ip_capnp.Root.Table.{table}
use gpu_over_ip_capnp.Root.Requests.{IsMapped, free_then_free, plan_memcpy_lem}
use gpu_over_ip_capnp.Base.{◌+◌}
use gpu_over_ip_capnp.Root.Answers.{a_free, replies, waiting, requests, answered_once}
use gpu_over_ip_capnp.Root.Races.{
  IsSound, Reach, here, next, allocation_finished, free_requested, free_rejected, double_free,
  Reach-IsSound,
}

abbrev node : RemoteNode fixed
node = record {
  id = "a";
  name = "a";
  address = "10.0.0.1:5000";
  roce_interface = "";
  priority = pos 50;
  total_memory = 100;
  available_memory = 90;
  network_latency = fl_zero fixed;
  cpu_usage = fl_zero fixed;
  gpu_utilization = fl_zero fixed;
  numa_id = negsuc 0;
  zmq_port = 5555;
  connected = true;
  rdma_support = true;
  nvlink_support = false;
  gdr_support = false;
  gpu_memory_utilization = fl_zero fixed;
}

abbrev blank : AllocationPlan
blank = record {
  target_node_id = "";
  memory_type = vram;
  transport_type = local;
  error = cuda_success;
  prefetch_hint = false;
  numa_match = false;
  gpu_topology_optimal = false;
  trigger_migration = false;
  expand_stable_zone = false;
  gdr_transfer = false;
}

abbrev info : RemoteAllocInfo
info = record { node_id = "a"; size = 16; remote_handle = 900 }

-- One allocation, whose pointer is 7.
abbrev server : RootService fixed table
server = record {
  dispatcher = record { nodes = node ∷ []; locked = false };
  table = (7, info) ∷ [];
  heap = 7 ∷ [];
  pending = [];
  sent = [];
}

node_found : find_node fixed "a" server.dispatcher.nodes ≡ some node
unfolding find_node
node_found = refl

server-IsMapped : IsMapped fixed table 7 info node server
server-IsMapped = record { mapped = refl; known = node_found; free = refl }

plan_memcpy_lem_example :
    ((i : RemoteAllocInfo) × (n : RemoteNode fixed) × IsMapped fixed table 7 i n server
      × (plan_memcpy_htod fixed table 7 16 server
          ≡ returned (
              send fixed table
                (memcpy_plan (record {
                  target_server_ip = n.address;
                  target_server_zmq_port = n.zmq_port;
                  remote_ptr = i.remote_handle;
                }))
                server)))
    ⊎ (((i : RemoteAllocInfo) (n : RemoteNode fixed) → ¬ IsMapped fixed table 7 i n server)
        × (plan_memcpy_htod fixed table 7 16 server
            ≡ returned (send fixed table (memcpy_error cuda_error_invalid_value) server)))
plan_memcpy_lem_example = plan_memcpy_lem fixed table 7 16 server refl

-- The peer refuses the free.
free_then_free_example :
    (t : RootService fixed table) × (finish_free fixed table cuda_error_invalid_value 7 server
      ≡ some t)
    × ((q : ℕ) → table.get q t.table ≡ (if q == 7 then none else table.get q server.table))
    × (request_free fixed table 7 t
        ≡ returned (send fixed table (free_result cuda_error_invalid_value) t))
free_then_free_example = free_then_free fixed table 7 cuda_error_invalid_value server refl

double_free_example :
    (t u v : RootService fixed table) × (request_free fixed table 7 server ≡ returned t)
    × (request_free fixed table 7 t ≡ returned u)
    × (u.sent
        ≡ (server.sent ++ ask_free "10.0.0.1:5000" 900 ∷ []) ++ ask_free "10.0.0.1:5000" 900 ∷ [])
    × (finish_free fixed table cuda_success 7 u ≡ some v)
    × (finish_free fixed table cuda_success 7 v ≡ none)
double_free_example =
    double_free fixed table 7 info node cuda_success cuda_success server server-IsMapped (refl, tt)
      refl

-- A server that has asked a node for memory, and the answer of the node.
abbrev asked : RootService fixed table
asked = record server { pending = allocating "a" ∷ [] }

abbrev answered : AllocResponse
answered = record { error = cuda_success; size = 32; handle = 901 }

asked-IsSound : IsSound fixed table asked
asked-IsSound = record { live = λ p mapped. ground arith; once = (refl, tt) }

one_step :
    Reach fixed table blank asked
      (finish_allocation fixed table 8 answered "a" (record asked { pending = [] ++ [] }))
one_step = next here (allocation_finished 8 answered "a" [] [] asked refl refl)

Reach-IsSound_example :
    IsSound fixed table
      (finish_allocation fixed table 8 answered "a" (record asked { pending = [] ++ [] }))
Reach-IsSound_example = Reach-IsSound fixed table blank one_step asked-IsSound

-- A server that has asked a node to free the allocation, and the node's promise is rejected.
abbrev freeing_one : RootService fixed table
freeing_one = record server { pending = freeing 7 ∷ [] }

unmapped :
    request_free fixed table 8 (reject_free fixed table (record freeing_one { pending = [] ++ [] }))
    ≡ returned (
        send fixed table
          (free_result cuda_error_invalid_value)
          (reject_free fixed table (record freeing_one { pending = [] ++ [] })))
unfolding request_free reject_free
unmapped = refl

two_steps : Reach fixed table blank freeing_one (
    send fixed table
      (free_result cuda_error_invalid_value)
      (reject_free fixed table (record freeing_one { pending = [] ++ [] })))
two_steps = next (next here (free_rejected 7 [] [] freeing_one refl)) (free_requested 8 unmapped)

answered_once_example :
    replies a_free
        (send fixed table
          (free_result cuda_error_invalid_value)
          (reject_free fixed table (record freeing_one { pending = [] ++ [] }))).sent
      + waiting a_free
          (send fixed table
            (free_result cuda_error_invalid_value)
            (reject_free fixed table (record freeing_one { pending = [] ++ [] }))).pending
    ≡ replies a_free freeing_one.sent
      + waiting a_free freeing_one.pending
      + requests fixed table a_free two_steps
answered_once_example = answered_once fixed table a_free blank two_steps
