-- ===== src/Numa/Tests.antt =====
-- Runs of the access to memory of a node.
use gpu_over_ip_capnp.Base.{
  ◌≡◌, refl, true, false, some, [], ◌∷◌, if◌then◌else◌, ltb, pos, negsuc, IsReleased, arith,
}
use gpu_over_ip_capnp.Numa.{
  Host, Command, use_of, get_current_node, get_address_node, route_memory_access, panic,
}
use gpu_over_ip_capnp.Numa.Routing.{is_local, sent, route_lem}
use gpu_over_ip_capnp.Numa.Current.{current_node-block}

-- The process may run on the processors 2 to 4, and every page lies on node 1.
abbrev two_nodes : Host
two_nodes = record {
  affinity = some (false ∷ false ∷ true ∷ true ∷ true ∷ []);
  page_status = λ a. some (pos 1);
  maps = λ offset size. ltb 0 size;
  sends = λ id cmd. true;
}

-- The process may run on every processor, and every page lies on node 0.
abbrev one_node : Host
one_node = record two_nodes { affinity = some (true ∷ true ∷ []); page_status = λ a. some (pos 0) }

abbrev command : Command
command = record { dst_address = 4096; data_size = 2; op_type = 1; content = 7 ∷ 8 ∷ [] }

route_lem_example :
    IsReleased use_of (route_memory_access two_nodes 4096 2 1 (7 ∷ 8 ∷ [])).1
    × (sent (route_memory_access two_nodes 4096 2 1 (7 ∷ 8 ∷ [])).1
        ≡ (if is_local two_nodes 4096 then [] else (get_address_node two_nodes 4096, command) ∷ []))
route_lem_example = route_lem two_nodes 4096 2 1 (7 ∷ 8 ∷ [])

current_node-block_example : get_current_node two_nodes ≡ (if ltb 2 3 then pos 2 else negsuc 0)
current_node-block_example = current_node-block two_nodes 2 3 refl (omega arith)

-- An empty copy to the node panics.
empty_copy : (route_memory_access one_node 4096 0 1 []).0 ≡ panic
unfolding route_memory_access
empty_copy = refl
