-- ===== src/Server/Nodes.antt =====
-- The status of the nodes: `StartStatusMonitor`, `selectOptimalNode`, `negotiateTransferParams`,
-- `PlanMemcpyHtoD` and `PrefetchData`. A map is the list of its entries in the order of one
-- iteration, and `none` is the empty name of a node. The GPU store, the port allocation, the
-- notification, the prefetch cache and the socket, none of which is in the repository, are
-- parameters. Of a status, the available memory and its JSON text are kept, `none` where it has
-- none.
pub mod Selection
pub mod Plans
use gpu_over_ip_capnp.Base.{
  ℕ, ◌+◌, ◌-◌, ◌≡◌, Bool, true, false, Option, none, some, List, [], ◌∷◌, ◌++◌, if◌then◌else◌, ltb,
  Text, Map, Io, pure, call, ◌>>◌,
}

pub record NodeStatus : Type 0 where
  pub available_memory : ℕ
  pub json : Option Text

-- The largest memory so far and its node.
pub select_loop : ℕ → Option ℕ → Map NodeStatus → Option ℕ
select_loop max_memory selected [] = selected
select_loop max_memory selected ((id, status) ∷ m) =
    let rest = select_loop status.available_memory (some id) m in
    let same = select_loop max_memory selected m in
    if ltb max_memory status.available_memory then rest else same

-- The size of the copy is not looked at.
pub select_optimal_node : Map NodeStatus → ℕ → Option ℕ
unfolding select_loop
select_optimal_node m size = select_loop 0 none m

-- What the monitor reads and how its two sends for a node end.
pub record Feed : Type 0 where
  pub status : ℕ → NodeStatus
  pub send_topic : ℕ → Bool
  pub send_bytes : ℕ → Bool

pub data Event : Type 0 where
  send_topic : ℕ → Bool → Event
  send_bytes : ℕ → Text → Bool → Event

pub publish : Feed → ℕ → Option Text → Io Event (Unit {0})
publish f id none = pure tt
publish f id (some text) =
    call (Event.send_topic id (f.send_topic id))
    >> (if f.send_topic id then call (Event.send_bytes id text (f.send_bytes id)) else pure tt)

-- The loop of one tick over the nodes that are known.
pub monitor_tick : Feed → Map NodeStatus → Io Event (Map NodeStatus)
unfolding publish
monitor_tick f [] = pure []
monitor_tick f ((id, old) ∷ m) =
    let rest = monitor_tick f m in
    ((id, f.status id) ∷ rest.0, (publish f id (f.status id).json).1 ++ rest.1)

-- `nodeStatus` of a new server; nothing but the monitor writes it.
abbrev pub new_status : Map NodeStatus
new_status = []

pub record Ports : Type 0 where
  pub allocate : Option ℕ
  pub notify : Option ℕ → ℕ → ℕ → ℕ → Bool

pub data Call : Type 0 where
  allocate_udp_port : Option ℕ → Call
  notify_node : Option ℕ → ℕ → ℕ → ℕ → Bool → Call

abbrev pub mtu : ℕ
mtu = 1500

abbrev pub notified : Ports → Option ℕ → ℕ → Option ℕ → Io Call (Option ℕ)
notified p target size none = pure none
notified p target size (some port) =
    let ok = p.notify target port size (mtu - 40) in
    call (notify_node target port size (mtu - 40) ok) >> pure (if ok then some port else none)

pub negotiate_transfer_params : Ports → Option ℕ → ℕ → Io Call (Option ℕ)
negotiate_transfer_params p target size =
    call (allocate_udp_port p.allocate) >> notified p target size p.allocate

pub record Plan : Type 0 where
  pub node_id : Option ℕ
  pub port : ℕ
  pub use_udp : Bool

abbrev pub planned : Option ℕ → Option ℕ → Option Plan
planned target none = none
planned target (some port) = some (record { node_id = target; port = port; use_udp = true })

-- `none` is the error of the negotiation.
unfoldable pub plan_memcpy_htod : Ports → Map NodeStatus → ℕ → Io Call (Option Plan)
unfolding select_optimal_node negotiate_transfer_params
plan_memcpy_htod p m size =
    let target = select_optimal_node m size in
    let negotiated = negotiate_transfer_params p target size in
    (planned target negotiated.0, negotiated.1)

-- Whether a fetch is started.
pub prefetch_data : (ℕ → Bool) → ℕ → Bool
prefetch_data cached id = if cached id then false else true
