-- ===== src/Cli/Tests.antt =====
-- Runs of the tool.
use gpu_over_ip_capnp.Base.{
  ℕ, ◌≤◌, ◌≡◌, refl, Bool, true, false, Option, none, some, List, [], ◌∷◌, length, Text, codes, map,
  All,
}
use gpu_over_ip_capnp.Float.Fixed.{fixed}
use gpu_over_ip_capnp.Go.{atoi, trim_space, join_comma}
use gpu_over_ip_capnp.Cli.Menu.{Input, main, read_all, default_config, new_menu, set_percent}
use gpu_over_ip_capnp.Cli.Menu.Ranges.{InRange, IsSafe, read_all-IsSafe}
use gpu_over_ip_capnp.Cli.Menu.Returns.{
  typed, is_closed, way_out, type_all, read_blank, menu_returns,
}
use gpu_over_ip_capnp.Cli.Containers.{
  CliConfig, Machine, NodeConfig, all_started, start_containers, container_args, default_node,
}
use gpu_over_ip_capnp.Cli.Containers.Placement.{cards_text, IsPlaced, start_containers-IsPlaced}
use gpu_over_ip_capnp.Cli.Topology.{Sysfs, numa_map}

abbrev only_first : List (List Text) → List Text → Bool
only_first [] args = true
only_first (other ∷ before) args = false

-- Whole numbers only.
abbrev parse : Text → Option fixed.Real
parse t = elim (atoi t) [ none ↦ none | some n ↦ some (fixed.from_int n) ]

default_config-InRange : InRange fixed parse (default_config fixed parse)
default_config-InRange = record {
  above = refl;
  at_most_90 = refl;
  from_tenth = refl;
  to_nine_tenths = refl;
}

new_menu-IsSafe : IsSafe fixed parse (new_menu fixed parse)
new_menu-IsSafe = record {
  configs = (default_config-InRange, (default_config-InRange, tt));
  node0 = cc;
  node1 = cc;
  starts = tt;
  mode = tt;
}

-- Node 0 is set to 50 percent, saved, and the containers are started.
abbrev session : List Input
session =
    typed (codes "1")
    ∷ typed (codes "1")
    ∷ typed (codes " 50")
    ∷ typed (codes "4")
    ∷ typed (codes "3")
    ∷ []

-- Half a percent is taken.
half_taken :
    (set_percent fixed parse (default_config fixed parse) (some (fixed.lit 5 10))).mem_percent
    ≡ fixed.lit 5 10
unfolding set_percent
half_taken = refl

read_all-IsSafe_example : IsSafe fixed parse (read_all fixed parse session (new_menu fixed parse))
read_all-IsSafe_example = read_all-IsSafe fixed parse session (new_menu fixed parse) new_menu-IsSafe

menu_returns_example :
    (is_closed fixed parse
        (type_all fixed parse (way_out fixed parse main) (new_menu fixed parse)).mode
      ≡ true)
    × (length (way_out fixed parse main) ≤ 4)
    × (is_closed fixed parse (read_blank fixed parse (none ∷ none ∷ []) (new_menu fixed parse)).mode
        ≡ is_closed fixed parse main)
menu_returns_example = menu_returns fixed parse (new_menu fixed parse) (none ∷ none ∷ [])

-- One node has GPUs, and Docker starts a container where none runs.
abbrev machine : Machine
machine = record {
  macvlan = λ i. true;
  cuda_lib = [];
  nvidia_smi = [];
  iface = λ i. [];
  docker = only_first;
}

abbrev cli_config : CliConfig
cli_config = record {
  enable_mem_ext = false;
  disable_numa_binding = false;
  capnp_base_port = 50051;
  zmq_base_port = 5555;
  image_name = codes "aitherion-runtime";
  tag = codes "latest";
  dry_run = false;
  control_iface = [];
  data_iface = [];
  enable_macvlan = true;
  rdma_devices = [];
}

abbrev no_nodes : ℕ → Option NodeConfig
no_nodes i = none

abbrev one_gpu : List Text
one_gpu = [] ∷ codes "card0" ∷ []

abbrev gpu_args : List Text
gpu_args = container_args cli_config machine default_node 1 (codes "card0")

-- The cards of a machine with the nodes 0 and 8, where node 0 has none.
abbrev cards_of_8 : Sysfs
cards_of_8 = record { drm = (codes "card1", some (codes "8")) ∷ []; net = []; meminfo = λ n. none }

abbrev placed_args : List Text
placed_args = container_args cli_config machine default_node 1 (codes "card1")

one_placed :
    start_containers cli_config machine no_nodes (map (cards_text cards_of_8) (0 ∷ 8 ∷ []))
    ≡ all_started (placed_args ∷ [])
unfolding start_containers numa_map trim_space join_comma
one_placed = refl

start_containers-IsPlaced_example :
    All (IsPlaced cli_config machine cards_of_8 (0 ∷ 8 ∷ [])) (placed_args ∷ [])
start_containers-IsPlaced_example =
    start_containers-IsPlaced cli_config machine no_nodes cards_of_8 (0 ∷ 8 ∷ []) refl one_placed
