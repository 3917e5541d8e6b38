-- ===== src/Dispatcher/Decision.antt =====
-- What `makeAllocationDecision` puts into a plan.
use gpu_over_ip_capnp.Base.{
  ℕ, ◌*◌, ◌%◌, ◌≡◌, refl, ◌∙◌, Bool, false, ◌&&◌, ◌||◌, not, none, some, List, ℤ, negsuc, arith,
  ltb, eq_ℤ, Option-cases, ◌⊎◌, inl, inr, if◌then◌else◌, u64_mod,
}
use gpu_over_ip_capnp.Float.{Float, Laws, AtMost, less_of_AtMost, AtMost-of_less, fl_half}
use gpu_over_ip_capnp.Cuda.{cuda_error_out_of_memory}
use gpu_over_ip_capnp.Cooling.{
  CoolingService, is_hot_data, get_mobility, get_stability, get_numa_id,
}
use gpu_over_ip_capnp.Cooling.Steps.{Reached}
use gpu_over_ip_capnp.Cooling.Bounds.{measures_bounded}
use gpu_over_ip_capnp.Dispatcher.{
  AllocationPlan, vram, host, rdma, udp, rdma_udp, RemoteNode, best_node, place, route, numa_step,
  utilization_step, gdr_step, plan_for, make_allocation_decision,
}

module _ (f : Float) where
  -- The plan for a chosen node, flag by flag.
  pub record IsPlanned (blank : AllocationPlan) (cooling : CoolingService f) (node : RemoteNode f)
      (ptr : ℕ) (plan : AllocationPlan) : Type 0 where
    pub target : plan.target_node_id ≡ node.id
    pub no_error : plan.error ≡ blank.error
    pub matches :
        plan.numa_match
        ≡ (not (eq_ℤ node.numa_id (negsuc 0)) && eq_ℤ node.numa_id (get_numa_id f cooling ptr))
    pub prefetches : plan.prefetch_hint ≡ (
        blank.prefetch_hint
        || (not (eq_ℤ node.numa_id (negsuc 0))
            && (not (eq_ℤ (get_numa_id f cooling ptr) (negsuc 0))
                && not (eq_ℤ node.numa_id (get_numa_id f cooling ptr)))))
    pub topology : plan.gpu_topology_optimal ≡ node.nvlink_support
    pub migrates :
        plan.trigger_migration
        ≡ (blank.trigger_migration || f.less (f.lit 85 100) node.gpu_memory_utilization)
    pub expands : plan.expand_stable_zone ≡ (
        blank.expand_stable_zone
        || (not (f.less (f.lit 85 100) node.gpu_memory_utilization)
            && f.less node.gpu_memory_utilization (f.lit 7 10)))
    pub transfers :
        plan.gdr_transfer
        ≡ (blank.gdr_transfer || (node.gdr_support && ltb 0 (get_mobility f cooling ptr)))

  numa_step_lem :
      (node : RemoteNode f) (numa : ℤ) (plan : AllocationPlan)
      → numa_step f node numa plan ≡ record plan {
        numa_match = not (eq_ℤ node.numa_id (negsuc 0)) && eq_ℤ node.numa_id numa;
        prefetch_hint =
            plan.prefetch_hint
            || (not (eq_ℤ node.numa_id (negsuc 0))
                && (not (eq_ℤ numa (negsuc 0)) && not (eq_ℤ node.numa_id numa)));
      }
  unfolding numa_step
  numa_step_lem node numa plan = ground arith

  utilization_step_lem :
      (node : RemoteNode f) (plan : AllocationPlan)
      → utilization_step f node plan ≡ record plan {
        trigger_migration =
            plan.trigger_migration || f.less (f.lit 85 100) node.gpu_memory_utilization;
        expand_stable_zone =
            plan.expand_stable_zone
            || (not (f.less (f.lit 85 100) node.gpu_memory_utilization)
                && f.less node.gpu_memory_utilization (f.lit 7 10));
      }
  unfolding utilization_step
  utilization_step_lem node plan = ground arith

  gdr_step_lem :
      (node : RemoteNode f) (mobility : ℕ) (plan : AllocationPlan)
      → gdr_step f node mobility plan
        ≡ record plan { gdr_transfer = plan.gdr_transfer || (node.gdr_support && ltb 0 mobility) }
  unfolding gdr_step
  gdr_step_lem node mobility plan = ground arith

  pub plan_for-IsPlanned :
      (blank : AllocationPlan) (cooling : CoolingService f) (node : RemoteNode f) (ptr size : ℕ)
      → IsPlanned blank cooling node ptr (plan_for f cooling node ptr size blank)
  unfolding plan_for
  plan_for-IsPlanned blank cooling node ptr size =
      rw (gdr_step_lem, utilization_step_lem, numa_step_lem)
        (record {
          target = refl;
          no_error = refl;
          matches = refl;
          prefetches = refl;
          topology = refl;
          migrates = refl;
          expands = refl;
          transfers = refl;
        })

  plan_for_choices :
      (blank : AllocationPlan) (cooling : CoolingService f) (node : RemoteNode f) (ptr size : ℕ)
      → ((plan_for f cooling node ptr size blank).memory_type
          ≡ place f node size
              (is_hot_data f cooling ptr)
              (get_mobility f cooling ptr)
              (get_stability f cooling ptr)
              (get_numa_id f cooling ptr))
        × ((plan_for f cooling node ptr size blank).transport_type
            ≡ route f node
                (is_hot_data f cooling ptr)
                (get_mobility f cooling ptr)
                (get_stability f cooling ptr))
  unfolding plan_for
  plan_for_choices blank cooling node ptr size =
      rw (gdr_step_lem, utilization_step_lem, numa_step_lem) (refl, refl)

  -- A decision reports that memory is out exactly when no node was chosen; otherwise it aims at
  -- the chosen node, keeps the error of the blank plan, and sets each flag by the conditions of
  -- its step: the NUMA match and the prefetch hint, the topology, the two utilization thresholds
  -- and the direct transfer.
  pub decision_lem :
      (blank : AllocationPlan) (cooling : CoolingService f) (nodes : List (RemoteNode f))
      (ptr size : ℕ) (numa : ℤ)
      → let plan = make_allocation_decision f blank cooling nodes ptr size numa in
        ((best_node f size numa nodes ≡ none)
          × (plan ≡ record blank { error = cuda_error_out_of_memory }))
        ⊎ ((n : RemoteNode f) × (best_node f size numa nodes ≡ some n)
            × IsPlanned blank cooling n ptr plan)
  unfolding make_allocation_decision
  decision_lem blank cooling nodes ptr size numa =
      elim (Option-cases (best_node f size numa nodes)) [
        | inl e ↦ inl (e, rw (e, make_allocation_decision) refl)
        | inr (n, e) ↦
            inr
              (n, e, rw (e, make_allocation_decision) (plan_for-IsPlanned blank cooling n ptr size))
      ]

  place_unstable :
      (node : RemoteNode f) (size : ℕ) (hot : Bool) (stability : f.Real) (numa : ℤ)
      → f.less (f.lit 8 10) stability ≡ false
      → place f node size hot 0 stability numa ≡ (
          if eq_ℤ node.numa_id numa && ltb (size * 2 % u64_mod) node.available_memory
          then vram
          else host)
  unfolding place
  place_unstable node size hot stability numa h = rw h refl

  route_unstable :
      (node : RemoteNode f) (hot : Bool) (stability : f.Real)
      → f.less (f.lit 8 10) stability ≡ false
      → route f node hot 0 stability
        ≡ (if hot then if node.rdma_support then rdma else udp else rdma_udp)
  unfolding route
  route_unstable node hot stability h = rw h (ground arith)

  module _ (l : Laws f) where
    not_stable : (a : f.Real) → AtMost f a (fl_half f) → f.less (f.lit 8 10) a ≡ false
    not_stable a h = AtMost-of_less f l _ _ (less_of_AtMost f l _ _ _ h l.half_lt_four_fifths)

    -- Over a cooling service in any state that it reaches, the stable zone is dead code: no plan
    -- is for local processing, no mobility moves memory to the host and no plan newly asks for a
    -- direct transfer. Memory goes to the GPU exactly when the node is the data's NUMA node and has
    -- more than twice the size, and hot data goes by RDMA or UDP as the node supports it.
    pub decision_reached :
        (blank : AllocationPlan) {numa_of : ℕ → ℤ} {cooling : CoolingService f}
        (nodes : List (RemoteNode f)) (ptr size : ℕ) (numa : ℤ) (n : RemoteNode f)
        → Reached f numa_of cooling
        → best_node f size numa nodes ≡ some n
        → let plan = make_allocation_decision f blank cooling nodes ptr size numa in
          (plan.memory_type ≡ (
            if eq_ℤ n.numa_id (get_numa_id f cooling ptr)
              && ltb (size * 2 % u64_mod) n.available_memory
            then vram
            else host))
          × (plan.transport_type ≡ (
              if is_hot_data f cooling ptr then if n.rdma_support then rdma else udp else rdma_udp))
          × (plan.gdr_transfer ≡ blank.gdr_transfer)
    unfolding make_allocation_decision
    decision_reached blank {numa_of} {cooling} nodes ptr size numa n reached e =
        let bounds = measures_bounded f l reached ptr in
        let choices = plan_for_choices blank cooling n ptr size in
        let planned = plan_for-IsPlanned blank cooling n ptr size in
        let dull = not_stable (get_stability f cooling ptr) bounds.1 in
        rw (e, make_allocation_decision)
          (
            choices.0 ∙ rw bounds.0 (place_unstable n size _ _ _ dull),
            choices.1 ∙ rw bounds.0 (route_unstable n _ _ dull),
            planned.transfers ∙ rw bounds.0 (ground arith),
          )
