-- ===== src/Cli/Network.antt =====
-- The network of the containers: `SetupMacvlanForNUMA`, `GetPhysicalInterfaceForNUMA` and
-- `CheckContainerHealth` of cmd/aitherion-cli/utils/docker.go, `CleanupMacvlanForNUMA` of
-- cmd/aitherion-cli/utils/network.go and the loop of cmd/aitherion-cli/clean.go. The programs that
-- they run are a parameter, `Shell`: whether a command succeeds and what it prints, by the commands
-- that ran before it, the last one first. `setup_mapped` is the set-up of network.go, of the same name.
pub mod Leftover
mod Tests
use gpu_over_ip_capnp.Base.{
  ℕ, zero, suc, ◌+◌, ◌≡◌, Bool, true, false, ◌||◌, Option, none, some, List, [], ◌∷◌, ◌++◌,
  if◌then◌else◌, ◌==◌, Text, codes, decimal,
}
use gpu_over_ip_capnp.Go.{contains, trim_space, same_text}

-- A command by its words, and whether it succeeded.
abbrev pub Run : Type 0
Run = List Text × Bool

abbrev pub Shell : Type 0
Shell = List Run → List Text → Bool × Text

pub data Setup : Type 0 where
  configured not_mapped add_failed up_failed netns_failed move_failed : Setup
  inner_up_failed address_failed route_failed : Setup

abbrev pub macvlan : ℕ → Text
macvlan i = codes "macvlan" ++ decimal i

abbrev pub namespace : ℕ → Text
namespace i = codes "aitherion-ns" ++ decimal i

pub physical_interface : ℕ → Text
physical_interface i = if i == 0 then codes "eth0" else codes "eth1"

abbrev pub link_add : Text → Text → Text → List Text
link_add name link mode =
    codes "ip"
    ∷ codes "link"
    ∷ codes "add"
    ∷ name
    ∷ codes "link"
    ∷ link
    ∷ codes "type"
    ∷ codes "macvlan"
    ∷ codes "mode"
    ∷ mode
    ∷ []

abbrev pub link_up : Text → List Text
link_up name = codes "ip" ∷ codes "link" ∷ codes "set" ∷ name ∷ codes "up" ∷ []

abbrev pub netns_add : Text → List Text
netns_add ns = codes "ip" ∷ codes "netns" ∷ codes "add" ∷ ns ∷ []

abbrev pub link_move : Text → Text → List Text
link_move name ns = codes "ip" ∷ codes "link" ∷ codes "set" ∷ name ∷ codes "netns" ∷ ns ∷ []

abbrev pub link_delete : Text → List Text
link_delete name = codes "ip" ∷ codes "link" ∷ codes "delete" ∷ name ∷ []

-- A command in a namespace.
abbrev pub inside : Text → List Text → List Text
inside ns words = codes "ip" ∷ codes "netns" ∷ codes "exec" ∷ ns ∷ words

abbrev pub address_add : Text → Text → List Text
address_add name ip = codes "ip" ∷ codes "addr" ∷ codes "add" ∷ ip ∷ codes "dev" ∷ name ∷ []

abbrev pub route_add : Text → List Text
route_add gateway =
    codes "ip" ∷ codes "route" ∷ codes "add" ∷ codes "default" ∷ codes "via" ∷ gateway ∷ []

abbrev pub address : ℕ → Text
address i = codes "192.168." ++ (decimal i ++ codes ".2/24")

abbrev pub gateway : ℕ → Text
gateway i = codes "192.168." ++ (decimal i ++ codes ".1")

module _ (r : Shell) where
  -- A command whose failure ends the set-up.
  pub try_run : List Text → Setup → (List Run → Setup × List Run) → List Run → Setup × List Run
  try_run words error more before =
      let ok = (r before words).0 in
      let after = (words, ok) ∷ before in if ok then more after else (error, after)

  -- The namespace may be there already.
  pub try_netns : List Text → (List Run → Setup × List Run) → List Run → Setup × List Run
  try_netns words more before =
      let (ok, output) = r before words in
      let after = (words, ok) ∷ before in
      if ok || contains output (codes "already exists") then more after else (netns_failed, after)

  -- The set-up of a node from each of its commands on.
  pub from_route : ℕ → List Run → Setup × List Run
  unfolding try_run
  from_route i =
      try_run (inside (namespace i) (route_add (gateway i))) route_failed
        (λ after. (configured, after))

  pub from_address : ℕ → List Run → Setup × List Run
  unfolding try_run from_route
  from_address i =
      try_run (inside (namespace i) (address_add (macvlan i) (address i))) address_failed
        (from_route i)

  pub from_inner_up : ℕ → List Run → Setup × List Run
  unfolding try_run from_address
  from_inner_up i =
      try_run (inside (namespace i) (link_up (macvlan i))) inner_up_failed (from_address i)

  pub from_move : ℕ → List Run → Setup × List Run
  unfolding try_run from_inner_up
  from_move i = try_run (link_move (macvlan i) (namespace i)) move_failed (from_inner_up i)

  pub from_netns : ℕ → List Run → Setup × List Run
  unfolding try_netns from_move
  from_netns i = try_netns (netns_add (namespace i)) (from_move i)

  pub from_up : ℕ → List Run → Setup × List Run
  unfolding try_run from_netns
  from_up i = try_run (link_up (macvlan i)) up_failed (from_netns i)

  pub setup_macvlan : ℕ → List Run → Setup × List Run
  unfolding physical_interface try_run from_up
  setup_macvlan i =
      try_run (link_add (macvlan i) (physical_interface i) (codes "bridge")) add_failed (from_up i)

  -- The set-up of network.go, on the network card that a map names.
  abbrev pub add_mapped : Text → ℕ → Option Text → List Run → Setup × List Run
  add_mapped mode i none before = (not_mapped, before)
  add_mapped mode i (some nic) before =
      try_run (link_add (macvlan i) nic mode) add_failed
        (try_run (link_up (macvlan i)) up_failed (λ after. (configured, after))) before

  pub setup_mapped : (Text → Option Text) → Text → ℕ → List Run → Setup × List Run
  unfolding try_run
  setup_mapped nics mode i = add_mapped mode i (nics (decimal i))

  -- Whether the interface is removed.
  pub cleanup_macvlan : ℕ → List Run → Bool × List Run
  cleanup_macvlan i before =
      let ok = (r before (link_delete (macvlan i))).0 in
      (ok, (link_delete (macvlan i), ok) ∷ before)

  -- The loop over `n` nodes from the i-th on, with what is printed of each.
  pub clean_loop : ℕ → ℕ → List Run → List Bool × List Run
  unfolding cleanup_macvlan
  clean_loop i zero before = ([], before)
  clean_loop i (suc n) before =
      let (ok, after) = cleanup_macvlan i before in
      let (rest, last) = clean_loop (i + 1) n after in (ok ∷ rest, last)

  abbrev pub clean : List Run → List Bool × List Run
  clean = clean_loop 0 8

pub data ContainerHealth : Type 0 where
  healthy inspect_failed not_running device_failed : ContainerHealth

pub check_container_health : Shell → Text → List Run → ContainerHealth × List Run
check_container_health r name before =
    let inspect =
      codes "docker" ∷ codes "inspect" ∷ codes "-f" ∷ codes "{{.State.Running}}" ∷ name ∷ [] in
    let check =
      codes "docker" ∷ codes "exec" ∷ name ∷ codes "numa-tool" ∷ codes "check-ocxl-health" ∷ [] in
    let (ok, output) = r before inspect in
    let after = (inspect, ok) ∷ before in
    let well = (r after check).0 in
    if ok
    then (if same_text (trim_space output) (codes "true")
        then (if well then healthy else device_failed, (check, well) ∷ after)
        else (not_running, after))
    else (inspect_failed, after)
