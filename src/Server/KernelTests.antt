-- ===== src/Server/KernelTests.antt =====
-- Runs of the launches, the caches and the plans of the server.
use gpu_over_ip_capnp.Base.{
  ℕ, ◌+◌, ◌≤◌, ◌≡◌, refl, true, ◌&&◌, ◌↔◌, some, none, List, [], ◌∷◌, if◌then◌else◌, length, codes,
  arith, Map, lookup, All, IsReleased,
}
use gpu_over_ip_capnp.Server.Params.{
  KernelLaunch, Driver, use_of, merge_params, sized_buffer, cuda_kernel_launch,
}
use gpu_over_ip_capnp.Server.Params.Merge.{concat, starts_within, filled, merge_params_lem}
use gpu_over_ip_capnp.Server.Params.Launching.{uploads, is_launched, is_some, exact_launch}
use gpu_over_ip_capnp.Server.Functions.{
  Loader, Request, Waiting, waiting, found, resolve, get_cuda_function, new_cache,
}
use gpu_over_ip_capnp.Server.Functions.Cached.{run_all, found_stays}
use gpu_over_ip_capnp.Server.Nodes.{
  NodeStatus, Feed, Ports, new_status, select_optimal_node, plan_memcpy_htod,
}
use gpu_over_ip_capnp.Server.Nodes.Selection.{memory_of, optimal_node_lem}
use gpu_over_ip_capnp.Server.Nodes.Plans.{
  after_ticks, targets, plan_targets, accepted_ports, plan_targets-none,
}

abbrev two_params : List (List ℕ)
two_params = (1 ∷ 2 ∷ []) ∷ (3 ∷ []) ∷ []

-- What an earlier launch left in the buffer of the pool.
abbrev stale : List ℕ
stale = 9 ∷ 9 ∷ 9 ∷ 9 ∷ 9 ∷ []

merge_params_lem_example :
    merge_params 0 two_params (sized_buffer 4 stale)
    ≡ (if starts_within 4 0 two_params then some (filled 4 stale two_params) else none)
merge_params_lem_example = merge_params_lem two_params 4 stale

-- A byte of the earlier launch is left behind the parameters.
stale_byte : merge_params 0 two_params (sized_buffer 4 stale) ≡ some (1 ∷ 2 ∷ 3 ∷ 9 ∷ [])
unfolding merge_params sized_buffer
stale_byte = refl

abbrev good_driver : Driver
good_driver = record { malloc = true; memcpy = true; function = some 5; kernel = true }

abbrev launch : KernelLaunch
launch = record { name = codes "add"; param_bytes = 3; params = two_params }

exact_launch_example :
    IsReleased use_of (cuda_kernel_launch good_driver stale launch).1
    × (uploads (cuda_kernel_launch good_driver stale launch).1
        ≡ (if good_driver.malloc then concat launch.params ∷ [] else []))
    × (is_launched (cuda_kernel_launch good_driver stale launch).0 ≡ (
        good_driver.malloc
        && (good_driver.memcpy && (is_some good_driver.function && good_driver.kernel))))
exact_launch_example = exact_launch good_driver stale launch refl (omega arith) (omega arith)

-- The n-th load gives module n, and every name is found in it.
abbrev loader : Loader
loader = record { load = λ n. some n; find = λ m name. some (m + 100) }

abbrev add_request : Request
add_request = record { handle = 7; name = codes "add" }

abbrev mul_request : Request
mul_request = record { handle = 8; name = codes "mul" }

abbrev add_waiting : Waiting
add_waiting = waiting new_cache add_request

abbrev mul_waiting : Waiting
mul_waiting = waiting new_cache mul_request

abbrev found_first : (resolve loader add_waiting new_cache).0 ≡ found 100
unfolding resolve new_cache
found_first = refl

found_stays_example :
    let after = run_all loader (mul_waiting ∷ []) (resolve loader add_waiting new_cache).1 in
    get_cuda_function loader (record { handle = 7; name = codes "sub" }) after ≡ (found 100, after)
found_stays_example =
    found_stays loader add_waiting new_cache 100 (mul_waiting ∷ []) (codes "sub") found_first

abbrev status : ℕ → NodeStatus
status n = record { available_memory = n; json = none }

abbrev nodes : Map NodeStatus
nodes = (1, status 30) ∷ (2, status 50) ∷ []

abbrev reversed : Map NodeStatus
reversed = (2, status 50) ∷ (1, status 30) ∷ []

optimal_node_lem_example :
    (memory_of nodes (select_optimal_node nodes 8)
      ≡ memory_of reversed (select_optimal_node reversed 8))
    × ((k : ℕ) (s : NodeStatus)
        → lookup k nodes ≡ some s
        → s.available_memory ≤ memory_of nodes (select_optimal_node nodes 8))
    × ((select_optimal_node nodes 8 ≡ none) ↔ (memory_of nodes (select_optimal_node nodes 8) ≡ 0))
optimal_node_lem_example =
    optimal_node_lem nodes reversed 8 (refl, (refl, tt)) (refl, (refl, tt)) (λ k. ground arith)

abbrev feed : Feed
feed = record { status = λ id. status (id + 10); send_topic = λ id. true; send_bytes = λ id. true }

abbrev ports : Ports
ports = record { allocate = some 6000; notify = λ id port size payload. true }

plan_targets-none_example :
    let plan = plan_memcpy_htod ports (after_ticks (feed ∷ feed ∷ []) new_status) 8 in
    All (λ o. o ≡ none) (targets plan.1)
    × All (λ o. o ≡ none) (plan_targets plan.0)
    × (length (plan_targets plan.0) ≡ accepted_ports ports 8 ports.allocate)
plan_targets-none_example = plan_targets-none (feed ∷ feed ∷ []) ports 8
