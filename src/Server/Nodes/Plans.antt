-- ===== src/Server/Nodes/Plans.antt =====
-- What the plans of a server come to, since nothing puts a node into its status map.
use gpu_over_ip_capnp.Base.{
  ℕ, ◌-◌, ◌≡◌, refl, ap, ◌∙◌, Option, none, some, List, [], ◌∷◌, if◌then◌else◌, Map, keys, length,
  arith, All, Option-cases, inl, inr,
}
use gpu_over_ip_capnp.Server.Nodes.{
  NodeStatus, Feed, Call, notify_node, allocate_udp_port, Ports, Plan, monitor_tick, new_status,
  mtu, select_optimal_node, select_loop, negotiate_transfer_params, plan_memcpy_htod,
}

-- The status map after ticks with these feeds.
abbrev pub after_ticks : List Feed → Map NodeStatus → Map NodeStatus
after_ticks [] m = m
after_ticks (f ∷ fs) m = after_ticks fs (monitor_tick f m).0

-- A tick keeps the nodes.
keys-monitor_tick : (f : Feed) (m : Map NodeStatus) → keys (monitor_tick f m).0 ≡ keys m
unfolding monitor_tick
keys-monitor_tick f [] = refl
keys-monitor_tick f ((id, old) ∷ m) = ap (λ ks. id ∷ ks) (keys-monitor_tick f m)

keys-after_ticks : (fs : List Feed) (m : Map NodeStatus) → keys (after_ticks fs m) ≡ keys m
keys-after_ticks [] m = refl
keys-after_ticks (f ∷ fs) m = keys-after_ticks fs (monitor_tick f m).0 ∙ keys-monitor_tick f m

no_keys : (m : Map NodeStatus) → keys m ≡ [] → m ≡ []
no_keys [] h = refl
no_keys (e ∷ m) h = cc

abbrev pub targets : List Call → List (Option ℕ)
targets [] = []
targets (allocate_udp_port o ∷ cs) = targets cs
targets (notify_node id port size payload ok ∷ cs) = id ∷ targets cs

abbrev pub plan_targets : Option Plan → List (Option ℕ)
plan_targets none = []
plan_targets (some p) = p.node_id ∷ []

-- One plan, if there is a port of which the node of the empty name accepts the notification.
abbrev pub accepted_ports : Ports → ℕ → Option ℕ → ℕ
accepted_ports p size none = 0
accepted_ports p size (some port) = if p.notify none port size (mtu - 40) then 1 else 0

-- After any ticks of the monitor of a new server, whatever the store says of nodes, a plan is made
-- exactly when a port is allocated and the notification succeeds, and no plan and no notification
-- names a node: each has the empty name.
pub plan_targets-none :
    (fs : List Feed) (p : Ports) (size : ℕ)
    → let plan = plan_memcpy_htod p (after_ticks fs new_status) size in
      All (λ o. o ≡ none) (targets plan.1)
      × All (λ o. o ≡ none) (plan_targets plan.0)
      × (length (plan_targets plan.0) ≡ accepted_ports p size p.allocate)
unfolding plan_memcpy_htod select_optimal_node select_loop negotiate_transfer_params
plan_targets-none fs p size =
    rw (no_keys (after_ticks fs new_status) (keys-after_ticks fs new_status))
      (elim (Option-cases p.allocate) [
        | inl no_port ↦ rw no_port ((tt), (tt), refl)
        | inr (port, e) ↦ rw e ((refl, tt), ground arith, ground arith)
      ])
