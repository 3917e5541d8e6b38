-- ===== src/Cli/Menu.antt =====
-- The interactive configuration of the nodes: cmd/aitherion-cli/numa/configure.go. Each read of a
-- line is a step from the place of the program that waits for it, its `Mode`, to the next; a read
-- at the end of the input gives the empty line. `lspci` is what the call of lspci prints in a step
-- that makes it, `none` where it fails; the second call of lspci is only printed. Numbers are those
-- of a `Float`, and `parse_float` is `strconv.ParseFloat`, with NaN as `none`, which every range
-- test refuses. A choice of the containers' start is the configuration that it is given.
pub mod Ranges
pub mod Returns
use gpu_over_ip_capnp.Base.{
  ℕ, zero, suc, ◌+◌, ◌-◌, ◌≡◌, Bool, true, false, ◌&&◌, ◌||◌, not, Option, none, some, List, [],
  ◌∷◌, ◌++◌, if◌then◌else◌, ◌==◌, ltb, leb, length, get_or, Text, codes, ℤ, pos, negsuc, Map,
  lookup, insert,
}
use gpu_over_ip_capnp.Float.{Float}
use gpu_over_ip_capnp.Go.{trim_space, atoi, first_field, contains, split_comma}

pub record RdmaDevice : Type 0 where
  pub pci_address : Text
  pub description : Text
  pub numa_nodes : List ℤ

pub record Input : Type 0 where
  pub line : Text
  pub lspci : Option (List Text)

abbrev pub names_rdma : Text → Bool
names_rdma line =
    contains line (codes "InfiniBand")
    || (contains line (codes "ROCE") || contains line (codes "RDMA"))

-- The lines of lspci that name a device.
pub rdma_lines : List Text → List Text
rdma_lines [] = []
rdma_lines (line ∷ lines) = if names_rdma line then line ∷ rdma_lines lines else rdma_lines lines

-- The numbers among the fields.
pub numbers : List Text → List ℤ
numbers [] = []
numbers (t ∷ ts) = elim (atoi t) [ none ↦ numbers ts | some n ↦ n ∷ numbers ts ]

module _ (f : Float) (parse_float : Text → Option f.Real) where
  pub record NumaConfig : Type 0 where
    pub mem_percent : f.Real
    pub vmem_ratio : f.Real
    pub control_iface : Text
    pub data_iface : Text

  -- The program waits in a menu (`main`, `roce`, `setting`), for the number of a device or its
  -- nodes, or for a value of a node's configuration, of which it holds the copy; or it returned.
  pub data Mode : Type 0 where
    main roce closed : Mode
    pick : List Text → Mode
    bind : Text → Text → Mode
    setting percent ratio control_name data_name : ℕ → NumaConfig → Mode

  pub record Menu : Type 0 where
    pub configs : Map NumaConfig
    pub devices : List RdmaDevice
    pub starts : List (Map NumaConfig)
    pub mode : Mode

  -- `numaConfig`: what both nodes have at the start, when the main menu waits.
  abbrev pub default_config : NumaConfig
  default_config = record {
    mem_percent = f.lit 80 1;
    vmem_ratio = f.lit 8 10;
    control_iface = codes "eth0";
    data_iface = codes "eth1";
  }

  abbrev pub new_menu : Menu
  new_menu = record {
    configs = (0, default_config) ∷ (1, default_config) ∷ [];
    devices = [];
    starts = [];
    mode = main;
  }

  abbrev pub go : Mode → Menu → Menu
  go mode s = record s { mode = mode }

  -- What a node without an entry has.
  abbrev pub zero_config : NumaConfig
  zero_config = record {
    mem_percent = f.lit 0 1;
    vmem_ratio = f.lit 0 1;
    control_iface = [];
    data_iface = [];
  }

  abbrev pub config_or_zero : Option NumaConfig → NumaConfig
  config_or_zero none = zero_config
  config_or_zero (some c) = c

  -- `configureNUMANode` up to its first read.
  pub configure_node : ℕ → Menu → Menu
  configure_node id s = go (setting id (config_or_zero (lookup id s.configs))) s

  -- The choices 1 to 5 of a menu by the line; `none` is any other number or no number.
  abbrev pub choice : Option ℤ → Option ℕ
  choice none = none
  choice (some (negsuc n)) = none
  choice (some (pos n)) = if ltb 0 n && leb n 5 then some n else none

  pub main_choice : Option ℕ → Menu → Menu
  unfolding configure_node
  main_choice none s = s
  main_choice (some n) s =
      if n == 1
      then configure_node 0 s
      else if n == 2
      then configure_node 1 s
      else if n == 3
      then record s { starts = s.starts ++ s.configs ∷ [] }
      else if n == 4
      then go roce s
      else go closed s

  abbrev pub pick_from : List Text → Menu → Menu
  pick_from [] s = s
  pick_from (d ∷ ds) s = go (pick (d ∷ ds)) s

  -- `addRoceInterface` up to its first read.
  pub add_roce : Option (List Text) → Menu → Menu
  add_roce none s = s
  add_roce (some lines) s = pick_from (rdma_lines lines) s

  pub roce_choice : Option (List Text) → Option ℕ → Menu → Menu
  unfolding add_roce
  roce_choice lspci none s = s
  roce_choice lspci (some n) s =
      if n == 1 then add_roce lspci s else if n == 5 then go main s else s

  abbrev pub bind_to : Text → Option Text → Menu → Menu
  bind_to selected none s = go roce s
  bind_to selected (some pci) s = go (bind selected pci) s

  -- The number of a device is its place from 1 on.
  pub picked : List Text → Option ℤ → Menu → Menu
  picked ds none s = go roce s
  picked ds (some (negsuc n)) s = go roce s
  picked ds (some (pos n)) s =
      if ltb n 1 || ltb (length ds) n
      then go roce s
      else bind_to (get_or ds (n - 1) []) (first_field (get_or ds (n - 1) [])) s

  pub bound : Text → Text → List Text → Menu → Menu
  bound selected pci fields s =
      let device : RdmaDevice = record {
        pci_address = pci;
        description = selected;
        numa_nodes = numbers fields;
      } in
      record s { devices = s.devices ++ device ∷ []; mode = roce }

  -- The fifth choice of this menu is no choice.
  pub setting_choice : ℕ → NumaConfig → Option ℕ → Menu → Menu
  setting_choice id c none s = s
  setting_choice id c (some n) s =
      if n == 1
      then go (percent id c) s
      else if n == 2
      then go (ratio id c) s
      else if n == 3
      then go (control_name id c) s
      else if n == 4
      then record s { configs = insert id c s.configs; mode = main }
      else s

  unfoldable pub set_percent : NumaConfig → Option f.Real → NumaConfig
  set_percent c none = c
  set_percent c (some value) =
      if f.less (f.lit 0 1) value && not (f.less (f.lit 90 1) value)
      then record c { mem_percent = value }
      else c

  pub set_ratio : NumaConfig → Option f.Real → NumaConfig
  set_ratio c none = c
  set_ratio c (some value) =
      if not (f.less value (f.lit 1 10)) && not (f.less (f.lit 9 10) value)
      then record c { vmem_ratio = value }
      else c

  -- One read.
  pub read_in : Mode → Input → Menu → Menu
  unfolding main_choice roce_choice picked bound setting_choice set_percent set_ratio
  read_in main i s = main_choice (choice (atoi (trim_space i.line))) s
  read_in roce i s = roce_choice i.lspci (choice (atoi (trim_space i.line))) s
  read_in closed i s = s
  read_in (pick ds) i s = picked ds (atoi (trim_space i.line)) s
  read_in (bind selected pci) i s = bound selected pci (split_comma (trim_space i.line)) s
  read_in (setting id c) i s = setting_choice id c (choice (atoi (trim_space i.line))) s
  read_in (percent id c) i s = go (setting id (set_percent c (parse_float (trim_space i.line)))) s
  read_in (ratio id c) i s = go (setting id (set_ratio c (parse_float (trim_space i.line)))) s
  read_in (control_name id c) i s =
      go (data_name id (record c { control_iface = trim_space i.line })) s
  read_in (data_name id c) i s = go (setting id (record c { data_iface = trim_space i.line })) s

  unfoldable pub read : Input → Menu → Menu
  unfolding read_in
  read i s = read_in s.mode i s

  pub read_all : List Input → Menu → Menu
  unfolding read
  read_all [] s = s
  read_all (i ∷ is) s = read_all is (read i s)
