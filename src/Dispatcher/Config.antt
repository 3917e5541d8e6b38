-- ===== src/Dispatcher/Config.antt =====
-- `Dispatcher::LoadConfig`. yaml-cpp is not in the repository: the configuration is what it read,
-- and `none` is a file that it could not. A field of an entry is `none` where the key is missing or
-- its value does not convert: `as<T>()` throws then, and `as<T>(x)` is x. `connects` says to which
-- addresses a client connects.
use gpu_over_ip_capnp.Base.{
  ℕ, ◌≡◌, refl, ◌∙◌, Bool, true, false, Option, none, some, List, [], ◌∷◌, ◌++◌, ℤ, pos, negsuc,
  arith, Option-cases, inl, inr, String, Outcome, returned, append_assoc, append-nil,
}
use gpu_over_ip_capnp.Float.{Float, fl_zero}
use gpu_over_ip_capnp.Dispatcher.Lock.{find_node-append}
use gpu_over_ip_capnp.Dispatcher.{RemoteNode, find_node, Dispatcher, guarded}

pub record YamlNode : Type 0 where
  pub id : Option String
  pub name : Option String
  pub address : Option String
  pub roce_interface : Option String
  pub priority : Option ℤ
  pub total_memory : Option ℕ
  pub memory : Option ℕ
  pub numa_id : Option ℤ

-- `as<T>(fallback)`
abbrev pub or_else {ℓ} : {A : Type ℓ} → Option A → A → A
or_else none fallback = fallback
or_else (some a) fallback = a

module _ (f : Float) (connects : String → Bool) (raw : RemoteNode f) where
  -- The node of an entry with the given identifier and address; `raw` has the members that the
  -- constructor leaves as they were in memory.
  pub node_of : YamlNode → String → String → RemoteNode f
  node_of y id address = record raw {
    id = id;
    name = or_else y.name "";
    address = address;
    roce_interface = or_else y.roce_interface "";
    priority = or_else y.priority (pos 50);
    total_memory = or_else y.total_memory 0;
    available_memory = or_else y.memory 0;
    network_latency = fl_zero f;
    cpu_usage = fl_zero f;
    gpu_utilization = fl_zero f;
    numa_id = or_else y.numa_id (negsuc 0);
    connected = connects address;
  }

  -- One round of the loop, or `none` where a conversion throws.
  pub read_node : YamlNode → Option (RemoteNode f)
  read_node y = elim y.id [
    | none ↦ none
    | some id ↦ elim y.address [ none ↦ none | some address ↦ some (node_of y id address) ]
  ]

  -- The loop: whether it came to its end, and the nodes.
  pub load_nodes : List YamlNode → List (RemoteNode f) → Bool × List (RemoteNode f)
  load_nodes [] nodes = (true, nodes)
  load_nodes (y ∷ ys) nodes = elim (read_node y) [
    | none ↦ (false, nodes)
    | some node ↦ load_nodes ys (nodes ++ node ∷ [])
  ]

  pub load_config : Option (List YamlNode) → Dispatcher f → Outcome (Bool × Dispatcher f)
  load_config file = guarded f λ d. elim file [
    | none ↦ returned (false, d)
    | some ys ↦
        let loaded = load_nodes ys d.nodes in returned (loaded.0, record d { nodes = loaded.1 })
  ]

  -- What one entry adds to the nodes of the entries after it, and to the answer.
  abbrev pub prepend :
      Option (RemoteNode f) → Bool × List (RemoteNode f) → Bool × List (RemoteNode f)
  prepend none rest = (false, [])
  prepend (some node) rest = (rest.0, node ∷ rest.1)

  -- The nodes of the entries up to the first that throws, and whether none does.
  abbrev pub readable : List YamlNode → Bool × List (RemoteNode f)
  readable [] = (true, [])
  readable (y ∷ ys) = prepend (read_node y) (readable ys)

  load_nodes_lem :
      (ys : List YamlNode) (nodes : List (RemoteNode f))
      → load_nodes ys nodes ≡ ((readable ys).0, nodes ++ (readable ys).1)
  unfolding load_nodes
  load_nodes_lem [] nodes = rw append-nil refl
  load_nodes_lem (y ∷ ys) nodes = elim (Option-cases (read_node y)) [
    | inl e ↦ rw (e, load_nodes) (rw append-nil refl)
    | inr (node, e) ↦
        rw (e, load_nodes) (load_nodes_lem ys (nodes ++ node ∷ []) ∙ rw append_assoc refl)
  ]

  -- Reading a configuration on a free dispatcher appends the nodes of the entries before the first
  -- that lacks an identifier or an address, in order, and answers whether there is no such entry;
  -- a file that cannot be read changes nothing and answers false. The mutex is free after it.
  pub load_config_lem :
      (file : Option (List YamlNode)) (d : Dispatcher f)
      → d.locked ≡ false
      → load_config file d ≡ (elim file [
        | none ↦ returned (false, d)
        | some ys ↦ returned ((readable ys).0, record d { nodes = d.nodes ++ (readable ys).1 })
      ])
  unfolding load_config
  load_config_lem none d free = rw free (ground arith)
  load_config_lem (some ys) d free = rw (free, load_nodes_lem ys d.nodes) (ground arith)

  -- Reading the configuration again does not change what a node that is known already is: the
  -- search by identifier finds the old entry, whatever the file says of it now.
  pub reload_finds_old :
      (file : Option (List YamlNode)) (id : String) (m : RemoteNode f) (d : Dispatcher f)
      → d.locked ≡ false
      → find_node f id d.nodes ≡ some m
      → (answer : Bool) × (e : Dispatcher f) × (load_config file d ≡ returned (answer, e))
        × (find_node f id e.nodes ≡ some m)
  reload_finds_old none id m d free found = (false, d, load_config_lem none d free, found)
  reload_finds_old (some ys) id m d free found = (
    (readable ys).0,
    record d { nodes = d.nodes ++ (readable ys).1 },
    load_config_lem (some ys) d free,
    find_node-append f id d.nodes (readable ys).1 ∙ rw found refl,
  )
