-- ===== src/Dispatcher.antt =====
-- The dispatcher: client/launcher/dispatcher.h and dispatcher.cpp. An identifier, a name and an
-- address are texts. The members of a node that dispatcher.cpp reads and the header does not
-- declare (`rdma_support`, `nvlink_support`, `gdr_support`, `gpu_memory_utilization`) stand in the
-- record, and so do the members of a plan, whose type the repository does not declare. A node's
-- client is the flag that it connected.
pub mod Choice
pub mod Score
pub mod Decision
pub mod Lock
pub mod Config
pub mod Tests
use text.Mathlib.Text.{◌==◌ as str_eq}
use gpu_over_ip_capnp.Base.{
  ℕ, ◌+◌, ◌-◌, ◌*◌, ◌%◌, ◌≡◌, Bool, true, false, ◌&&◌, not, Option, none, some, List, [], ◌∷◌, ◌++◌,
  ℤ, pos, negsuc, eq_ℤ, ltb, if◌then◌else◌, u64_mod, String, ◌==◌, Outcome, returned, blocked,
}
use gpu_over_ip_capnp.Float.{Float, fl_zero, fl_one, fl_half}
use gpu_over_ip_capnp.Cuda.{CuResult, cuda_success, cuda_error_out_of_memory}
use gpu_over_ip_capnp.Cooling.{
  CoolingService, is_hot_data, get_mobility, get_stability, get_numa_id,
}

pub data MemoryType : Type 0 where
  vram host : MemoryType

pub data TransportType : Type 0 where
  local rdma udp rdma_udp : TransportType

pub record AllocationPlan : Type 0 where
  pub target_node_id : String
  pub memory_type : MemoryType
  pub transport_type : TransportType
  pub error : CuResult
  pub prefetch_hint : Bool
  pub numa_match : Bool
  pub gpu_topology_optimal : Bool
  pub trigger_migration : Bool
  pub expand_stable_zone : Bool
  pub gdr_transfer : Bool

module _ (f : Float) where
  pub record RemoteNode : Type 0 where
    pub id : String
    pub name : String
    pub address : String
    pub roce_interface : String
    pub priority : ℤ
    pub total_memory : ℕ
    pub available_memory : ℕ
    pub network_latency : f.Real
    pub cpu_usage : f.Real
    pub gpu_utilization : f.Real
    pub numa_id : ℤ
    pub zmq_port : ℕ
    pub connected : Bool
    pub rdma_support : Bool
    pub nvlink_support : Bool
    pub gdr_support : Bool
    pub gpu_memory_utilization : f.Real

  pub record Dispatcher : Type 0 where
    pub nodes : List RemoteNode
    -- the mutex is held
    pub locked : Bool

  -- The constructor.
  pub new_dispatcher : Dispatcher
  new_dispatcher = record { nodes = []; locked = false }

  -- `CalculateNodeScore`; the difference of the memory sizes is one of `size_t`.
  pub calculate_node_score : RemoteNode → ℕ → ℤ → f.Real
  calculate_node_score node required_memory numa_id =
      let memory_score =
        if ltb 0 node.total_memory
        then f.div
            (f.from_int (pos ((node.available_memory + u64_mod - required_memory) % u64_mod)))
            (f.from_int (pos node.total_memory))
        else fl_zero f in
      let latency_score = f.div (fl_one f) (f.plus (fl_one f) node.network_latency) in
      let load_score =
        f.minus (fl_one f) (f.div (f.plus node.cpu_usage node.gpu_utilization) (f.lit 200 1)) in
      let priority_score = f.div (f.from_int node.priority) (f.lit 100 1) in
      let numa_score = if eq_ℤ node.numa_id numa_id then fl_one f else fl_half f in
      f.plus
        (f.plus
          (f.plus (f.plus (f.times (f.lit 3 10) memory_score) (f.times (f.lit 2 10) latency_score))
            (f.times (f.lit 2 10) load_score))
          (f.times (f.lit 1 10) priority_score))
        (f.times (f.lit 2 10) numa_score)

  -- The loop that selects the target node; the best node so far and its score are the state.
  pub select_node : ℕ → ℤ → List RemoteNode → Option RemoteNode → f.Real → Option RemoteNode
  select_node size numa [] best_node best_score = best_node
  select_node size numa (node ∷ nodes) best_node best_score =
      let score = calculate_node_score node size numa in
      let skipped = select_node size numa nodes best_node best_score in
      let taken = select_node size numa nodes (some node) score in
      if ltb node.available_memory size
      then skipped
      else if f.less best_score score
      then taken
      else skipped

  -- -1.0
  abbrev pub lowest_score : f.Real
  lowest_score = f.neg (fl_one f)

  pub best_node : ℕ → ℤ → List RemoteNode → Option RemoteNode
  best_node size numa nodes = select_node size numa nodes none lowest_score

  -- Step 3: the place of the memory.
  pub place : RemoteNode → ℕ → Bool → ℕ → f.Real → ℤ → MemoryType
  place node size is_hot mobility stability numa =
      if f.less (f.lit 8 10) stability && is_hot
      then vram
      else if ltb 5 mobility
      then host
      else if eq_ℤ node.numa_id numa && ltb (size * 2 % u64_mod) node.available_memory
      then vram
      else host

  -- Step 4: the transport.
  pub route : RemoteNode → Bool → ℕ → f.Real → TransportType
  route node is_hot mobility stability =
      if is_hot && f.less (f.lit 8 10) stability
      then local
      else if is_hot && ltb mobility 3
      then if node.rdma_support then rdma else udp
      else rdma_udp

  -- Step 5.
  pub numa_step : RemoteNode → ℤ → AllocationPlan → AllocationPlan
  numa_step node numa plan =
      if not (eq_ℤ node.numa_id (negsuc 0)) && not (eq_ℤ numa (negsuc 0))
      then if eq_ℤ node.numa_id numa
        then record plan { numa_match = true }
        else record plan { numa_match = false; prefetch_hint = true }
      else record plan { numa_match = false }

  -- Step 7.
  pub utilization_step : RemoteNode → AllocationPlan → AllocationPlan
  utilization_step node plan =
      if f.less (f.lit 85 100) node.gpu_memory_utilization
      then record plan { trigger_migration = true }
      else if f.less node.gpu_memory_utilization (f.lit 7 10)
      then record plan { expand_stable_zone = true }
      else plan

  -- Step 8.
  pub gdr_step : RemoteNode → ℕ → AllocationPlan → AllocationPlan
  gdr_step node mobility plan =
      if node.gdr_support && ltb 0 mobility then record plan { gdr_transfer = true } else plan

  -- Steps 2 to 8 for the chosen node, after `plan.targetNodeId` is set.
  pub plan_for : CoolingService f → RemoteNode → ℕ → ℕ → AllocationPlan → AllocationPlan
  plan_for cooling node ptr size plan =
      let is_hot = is_hot_data f cooling ptr in
      let mobility = get_mobility f cooling ptr in
      let stability = get_stability f cooling ptr in
      let numa = get_numa_id f cooling ptr in
      let placed = record plan {
        target_node_id = node.id;
        memory_type = place node size is_hot mobility stability numa;
        transport_type = route node is_hot mobility stability;
      } in
      let matched = numa_step node numa placed in
      let topology = record matched { gpu_topology_optimal = node.nvlink_support } in
      gdr_step node mobility (utilization_step node topology)

  -- `blank` is a plan as `AllocationPlan plan;` makes it.
  pub make_allocation_decision :
      AllocationPlan → CoolingService f → List RemoteNode → ℕ → ℕ → ℤ → AllocationPlan
  make_allocation_decision blank cooling nodes ptr size current_numa =
      elim (best_node size current_numa nodes) [
        | none ↦ record blank { error = cuda_error_out_of_memory }
        | some node ↦ plan_for cooling node ptr size blank
      ]

  -- The loop of `GetNodeById`.
  unfoldable pub find_node : String → List RemoteNode → Option RemoteNode
  find_node id [] = none
  find_node id (node ∷ nodes) = if str_eq node.id id then some node else find_node id nodes

  -- `std::lock_guard` over a body: the mutex is not recursive, and free again after the body.
  abbrev pub guarded {ℓ} :
      {A : Type ℓ} → (Dispatcher → Outcome (A × Dispatcher)) → Dispatcher → Outcome (A × Dispatcher)
  guarded body d = if d.locked then blocked else elim (body (record d { locked = true })) [
    | blocked ↦ blocked
    | returned (a, d') ↦ returned (a, record d' { locked = false })
  ]

  pub add_node : RemoteNode → Dispatcher → Outcome (Unit {0} × Dispatcher)
  add_node node = guarded λ d. returned (tt, record d { nodes = d.nodes ++ node ∷ [] })

  pub get_nodes : Dispatcher → Outcome (List RemoteNode × Dispatcher)
  get_nodes = guarded λ d. returned (d.nodes, d)

  pub get_node_by_id : String → Dispatcher → Outcome (Option RemoteNode × Dispatcher)
  get_node_by_id id = guarded λ d. returned (find_node id d.nodes, d)

  -- What `PickNode` does under its lock.
  pub pick_locked :
      AllocationPlan
      → CoolingService f
      → ℕ
      → ℕ
      → Dispatcher
      → Outcome (Option RemoteNode × Dispatcher)
  pick_locked blank cooling ptr required_memory d = elim d.nodes [
    | [] ↦ returned (none, d)
    | _ ∷ _ ↦
        let plan = make_allocation_decision blank cooling d.nodes ptr required_memory (negsuc 0) in
        if plan.error == cuda_success
        then get_node_by_id plan.target_node_id d
        else returned (none, d)
  ]

  pub pick_node :
      AllocationPlan
      → CoolingService f
      → ℕ
      → ℕ
      → Dispatcher
      → Outcome (Option RemoteNode × Dispatcher)
  pick_node blank cooling ptr required_memory =
      guarded (pick_locked blank cooling ptr required_memory)
