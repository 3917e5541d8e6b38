-- ===== src/Cli/Containers.antt =====
-- `StartContainers`: cmd/aitherion-cli/utils/docker.go. The files that it reads, the paths that two
-- functions outside the repository detect and the programs that it runs are parameters: `Machine`
-- has, for the i-th file of the glob, the texts that are read, without the white space around them,
-- and whether `SetupMacvlanForNUMA`, which the package defines twice, succeeds. `docker` answers
-- whether a container starts, by the arguments of the calls before it, the last one first; what the
-- containers of those calls do since, and whether they still run, is part of its answer. The
-- directory and the huge pages of the memory extension, whose failure is only printed, are left out.
pub mod Ports
pub mod Placement
use gpu_over_ip_capnp.Base.{
  ℕ, zero, suc, ◌+◌, ◌≡◌, Bool, true, false, ◌&&◌, not, Option, none, some, List, [], ◌∷◌, ◌++◌,
  if◌then◌else◌, ◌==◌, ltb, length, Text, codes, decimal, map,
}
use gpu_over_ip_capnp.Go.{join_comma}

pub record RdmaDevice : Type 0 where
  pub interface_name : Text
  pub numa_nodes : List ℕ

pub record NodeConfig : Type 0 where
  pub control_iface : Text
  pub data_iface : Text

pub record CliConfig : Type 0 where
  pub enable_mem_ext : Bool
  pub disable_numa_binding : Bool
  pub capnp_base_port : ℕ
  pub zmq_base_port : ℕ
  pub image_name : Text
  pub tag : Text
  pub dry_run : Bool
  pub control_iface : Text
  pub data_iface : Text
  pub enable_macvlan : Bool
  pub rdma_devices : List RdmaDevice

pub record Machine : Type 0 where
  pub macvlan : ℕ → Bool
  pub cuda_lib : Text
  pub nvidia_smi : Text
  pub iface : ℕ → Text
  pub docker : List (List Text) → List Text → Bool

-- A mount of a path at the same place, read only, unless the path is empty.
pub mount : Text → Text → List Text
mount before [] = []
mount before (c ∷ path) =
    let place = before ++ c ∷ path in
    codes "-v" ∷ (place ++ (codes ":" ++ (place ++ codes ":ro"))) ∷ []

abbrev pub is_bound : ℕ → List ℕ → Bool
is_bound i [] = false
is_bound i (n ∷ ns) = if n == i then true else is_bound i ns

pub rdma_args : ℕ → List RdmaDevice → List Text
rdma_args i [] = []
rdma_args i (d ∷ ds) =
    (if is_bound i d.numa_nodes
      then codes "--device" ∷ (codes "/dev/infiniband/" ++ d.interface_name) ∷ []
      else [])
    ++ rdma_args i ds

-- `getRDMADevicesForNUMA`
pub bound_names : ℕ → List RdmaDevice → List Text
bound_names i [] = []
bound_names i (d ∷ ds) =
    (if is_bound i d.numa_nodes then d.interface_name ∷ [] else []) ++ bound_names i ds

-- The two publications of ports.
pub port_args : ℕ → ℕ → List Text
port_args capnp_port zmq_port =
    codes "-p"
    ∷ (decimal capnp_port ++ (codes ":" ++ decimal capnp_port))
    ∷ codes "-p"
    ∷ (decimal zmq_port ++ (codes ":" ++ (decimal zmq_port ++ codes "/udp")))
    ∷ []

pub environment : CliConfig → ℕ → Text → List Text
environment cfg i gpus =
    codes "-e"
    ∷ (codes "NVIDIA_VISIBLE_DEVICES=" ++ gpus)
    ∷ codes "-e"
    ∷ (codes "CAPNP_PORT=" ++ decimal (cfg.capnp_base_port + i))
    ∷ codes "-e"
    ∷ (codes "ZMQ_PORT=" ++ decimal cfg.zmq_base_port)
    ∷ codes "-e"
    ∷ (codes "CONTROL_IFACE=" ++ cfg.control_iface)
    ∷ codes "-e"
    ∷ (codes "DATA_IFACE=" ++ cfg.data_iface)
    ∷ codes "-e"
    ∷ (codes "NUMA_NODE_ID=" ++ decimal i)
    ∷ []

-- What a node without a configuration has.
abbrev pub default_node : NodeConfig
default_node = record { control_iface = codes "eth0"; data_iface = codes "eth1" }

abbrev pub node_or_default : Option NodeConfig → NodeConfig
node_or_default none = default_node
node_or_default (some n) = n

-- The options behind the ports: name, mounts, devices, network, memory binding and extension.
pub options : CliConfig → Machine → ℕ → List Text
unfolding mount rdma_args
options cfg m i =
    (codes "--name" ∷ (codes "aitherion-cli-numa" ++ decimal i) ∷ [])
    ++ (mount [] m.cuda_lib
        ++ (mount [] m.nvidia_smi
            ++ (mount (codes "/sys/class/net/") (m.iface i)
                ++ (rdma_args i cfg.rdma_devices
                    ++ ((if cfg.enable_macvlan
                          then codes "--network" ∷ (codes "container:macvlan" ++ decimal i) ∷ []
                          else [])
                        ++ ((if cfg.disable_numa_binding
                              then []
                              else codes "--cpuset-mems" ∷ decimal i ∷ [])
                            ++ (if cfg.enable_mem_ext
                                then codes "-v"
                                  ∷ (codes "/mnt/memext/numa"
                                      ++ (decimal i ++ codes ":/mnt/memext"))
                                  ∷ []
                                else [])))))))

-- The program, its flags and the image, in the order of the source.
pub program : CliConfig → NodeConfig → ℕ → List Text
unfolding bound_names join_comma
program cfg node i =
    (codes "./capnpserver"
      ∷ codes "--port"
      ∷ decimal (cfg.capnp_base_port + i)
      ∷ codes "--zmq-port"
      ∷ decimal cfg.zmq_base_port
      ∷ codes "--control-iface"
      ∷ node.control_iface
      ∷ codes "--data-iface"
      ∷ node.data_iface
      ∷ (cfg.image_name ++ (codes ":" ++ cfg.tag))
      ∷ [])
    ++ (elim cfg.rdma_devices [
      | [] ↦ []
      | d ∷ ds ↦
          codes "-e"
          ∷ codes "ENABLE_RDMA=true"
          ∷ codes "-e"
          ∷ (codes "RDMA_DEVICES=" ++ join_comma (bound_names i (d ∷ ds)))
          ∷ []
    ])

pub container_args : CliConfig → Machine → NodeConfig → ℕ → Text → List Text
unfolding port_args environment options program
container_args cfg m node i gpus =
    (codes "run" ∷ codes "-it" ∷ codes "--rm" ∷ codes "-d" ∷ codes "--runtime=nvidia" ∷ [])
    ++ (environment cfg i gpus
        ++ ((codes "-v" ∷ codes "/dev:/dev" ∷ [])
            ++ (port_args (cfg.capnp_base_port + i) cfg.zmq_base_port
                ++ (options cfg m i ++ program cfg node i))))

-- How the start ends, with the arguments of the containers that it started, the last one first.
pub data Ending : Type 0 where
  all_started : List (List Text) → Ending
  no_topology macvlan_failed : Ending
  container_failed : ℕ → List (List Text) → Ending

-- The loop over the files of the glob, at the i-th.
unfoldable pub start_loop :
    CliConfig → Machine → (ℕ → Option NodeConfig) → ℕ → List (List Text) → List Text → Ending
unfolding container_args
start_loop cfg m nodes i before [] = all_started before
start_loop cfg m nodes i before ([] ∷ files) = start_loop cfg m nodes (i + 1) before files
start_loop cfg m nodes i before ((g ∷ pus) ∷ files) =
    let args = container_args cfg m (node_or_default (nodes i)) i (g ∷ pus) in
    let printed = start_loop cfg m nodes (i + 1) before files in
    let rest = start_loop cfg m nodes (i + 1) (args ∷ before) files in
    if cfg.enable_macvlan && not (m.macvlan i)
    then macvlan_failed
    else if cfg.dry_run
    then printed
    else if m.docker before args
    then rest
    else container_failed i before

-- `files` are the texts of the files that the glob finds.
unfoldable pub start_containers : CliConfig → Machine → (ℕ → Option NodeConfig) → List Text → Ending
unfolding start_loop
start_containers cfg m nodes [] = no_topology
start_containers cfg m nodes (file ∷ files) = start_loop cfg m nodes 0 [] (file ∷ files)
