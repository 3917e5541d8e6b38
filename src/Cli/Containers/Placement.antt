-- ===== src/Cli/Containers/Placement.antt =====
-- Where the containers are placed that run with the cards of a node.
use gpu_over_ip_capnp.Base.{
  ℕ, zero, suc, ◌+◌, ◌≡◌, refl, sym, ap, subst, ◌∙◌, false, ◌&&◌, not, Option, some, List, [], ◌∷◌,
  ◌++◌, append_assoc, if◌then◌else◌, Text, codes, decimal, map, All, get_elem?, Bool-cases, inl,
  inr, arith,
}
use gpu_over_ip_capnp.Go.{join_comma, trim_space}
use gpu_over_ip_capnp.Cli.Topology.{Sysfs, info_at, numa_map}
use gpu_over_ip_capnp.Cli.Containers.{
  CliConfig, NodeConfig, Machine, node_or_default, port_args, environment, options, program,
  container_args, all_started, start_loop, start_containers, mount, rdma_args,
}

-- The arguments have an option with a value.
abbrev pub Has : List Text → Text → Text → Type 0
Has args option value =
    (before : List Text) × (after : List Text) × (args ≡ before ++ option ∷ value ∷ after)

Has-after :
    (front : List Text) {args : List Text} {option value : Text}
    → Has args option value
    → Has (front ++ args) option value
Has-after front (before, after, e) = (
  front ++ before,
  after,
  ap (λ ts. front ++ ts) e ∙ sym (append_assoc front before (_ ∷ _ ∷ after)),
)

Has-before :
    {args : List Text} (back : List Text) {option value : Text}
    → Has args option value
    → Has (args ++ back) option value
Has-before back (before, after, e) =
    (before, after ++ back, ap (λ ts. ts ++ back) e ∙ append_assoc before (_ ∷ _ ∷ after) back)

get_elem?-map :
    (f : ℕ → Text) (ns : List ℕ) (i : ℕ) {t : Text}
    → get_elem? (map f ns) i ≡ some t
    → (n : ℕ) × (get_elem? ns i ≡ some n) × (f n ≡ t)
get_elem?-map f [] i e = cc
get_elem?-map f (n ∷ ns) zero e = (n, refl, cc)
get_elem?-map f (n ∷ ns) (suc i) e = get_elem?-map f ns i e

-- The text that the start reads of the cards of a node.
abbrev pub cards_text : Sysfs → ℕ → Text
cards_text s n = trim_space (join_comma (info_at n (numa_map s)).gpus)

module _ (cfg : CliConfig) (m : Machine) where
  container-cards :
      (node : NodeConfig) (i : ℕ) (gpus : Text)
      → Has
          (container_args cfg m node i gpus)
          (codes "-e")
          (codes "NVIDIA_VISIBLE_DEVICES=" ++ gpus)
  unfolding container_args environment
  container-cards node i gpus =
      Has-after
        (codes "run" ∷ codes "-it" ∷ codes "--rm" ∷ codes "-d" ∷ codes "--runtime=nvidia" ∷ [])
        ([], _, refl)

  options-binding :
      (i : ℕ)
      → cfg.disable_numa_binding ≡ false
      → Has (options cfg m i) (codes "--cpuset-mems") (decimal i)
  unfolding options
  options-binding i bind = rw bind (
      Has-after (codes "--name" ∷ (codes "aitherion-cli-numa" ++ decimal i) ∷ []) (
        Has-after (mount [] m.cuda_lib) (
          Has-after (mount [] m.nvidia_smi) (
            Has-after (mount (codes "/sys/class/net/") (m.iface i)) (
              Has-after (rdma_args i cfg.rdma_devices) (
                Has-after
                  (if cfg.enable_macvlan
                    then codes "--network" ∷ (codes "container:macvlan" ++ decimal i) ∷ []
                    else [])
                  ([], _, refl)))))))

  container-binding :
      (node : NodeConfig) (i : ℕ) (gpus : Text)
      → cfg.disable_numa_binding ≡ false
      → Has (container_args cfg m node i gpus) (codes "--cpuset-mems") (decimal i)
  unfolding container_args
  container-binding node i gpus bind =
      Has-after
        (codes "run" ∷ codes "-it" ∷ codes "--rm" ∷ codes "-d" ∷ codes "--runtime=nvidia" ∷ [])
        (Has-after (environment cfg i gpus) (
          Has-after (codes "-v" ∷ codes "/dev:/dev" ∷ []) (
            Has-after (port_args (cfg.capnp_base_port + i) cfg.zmq_base_port)
              (Has-before (program cfg node i) (options-binding i bind)))))

  module _ (nodes : ℕ → Option NodeConfig) (files : List Text) where
    -- The arguments are those of a file and its position.
    abbrev pub IsOfFile : List Text → Type 0
    IsOfFile args =
        (i : ℕ) × (gpus : Text) × (get_elem? files i ≡ some gpus)
        × (args ≡ container_args cfg m (node_or_default (nodes i)) i gpus)

    -- The files from a position on.
    abbrev pub IsFrom : ℕ → List Text → Type 0
    IsFrom k fs = (j : ℕ) → get_elem? fs j ≡ get_elem? files (k + j)

    IsFrom-next : (k : ℕ) (f : Text) (fs : List Text) → IsFrom k (f ∷ fs) → IsFrom (k + 1) fs
    IsFrom-next k f fs h j = h (suc j) ∙ ap (get_elem? files) (omega arith)

    start_loop-IsOfFile :
        (k : ℕ) (earlier : List (List Text)) (fs : List Text) {r : List (List Text)}
        → All IsOfFile earlier
        → IsFrom k fs
        → start_loop cfg m nodes k earlier fs ≡ all_started r
        → All IsOfFile r
    unfolding start_loop
    start_loop-IsOfFile k earlier [] {r} h from e = subst (All IsOfFile) (cc) h
    start_loop-IsOfFile k earlier ([] ∷ fs) h from e =
        start_loop-IsOfFile (k + 1) earlier fs h (IsFrom-next k [] fs from) e
    start_loop-IsOfFile k earlier ((g ∷ pus) ∷ fs) {r} h from e =
        let args = container_args cfg m (node_or_default (nodes k)) k (g ∷ pus) in
        let next = IsFrom-next k (g ∷ pus) fs from in
        let here : get_elem? files k ≡ some (g ∷ pus) =
          ap (get_elem? files) (omega arith) ∙ sym (from 0) in
        elim (Bool-cases (cfg.enable_macvlan && not (m.macvlan k))) [
          | inl bad ↦ absurd (ground arith)
          | inr fine ↦ elim (Bool-cases cfg.dry_run) [
            | inl dry ↦ start_loop-IsOfFile (k + 1) earlier fs {r = r} h next (ground arith)
            | inr wet ↦ elim (Bool-cases (m.docker earlier args)) [
              | inl ok ↦
                  start_loop-IsOfFile (k + 1) (args ∷ earlier) fs {r = r}
                    ((k, g ∷ pus, here, refl), h) next (ground arith)
              | inr refused ↦ absurd (ground arith)
            ]
          ]
        ]

  start_containers-start_loop :
      (nodes : ℕ → Option NodeConfig) (files : List Text) {r : List (List Text)}
      → start_containers cfg m nodes files ≡ all_started r
      → start_loop cfg m nodes 0 [] files ≡ all_started r
  unfolding start_containers
  start_containers-start_loop nodes [] e = cc
  start_containers-start_loop nodes (f ∷ fs) e = e

  -- The container has the cards of the node at a position, and its memory is that of the node whose
  -- number is the position.
  abbrev pub IsPlaced : Sysfs → List ℕ → List Text → Type 0
  IsPlaced s ns args =
      (i : ℕ) × (n : ℕ) × (get_elem? ns i ≡ some n)
      × Has args (codes "-e") (codes "NVIDIA_VISIBLE_DEVICES=" ++ cards_text s n)
      × Has args (codes "--cpuset-mems") (decimal i)

  IsOfFile-IsPlaced :
      (nodes : ℕ → Option NodeConfig) (s : Sysfs) (ns : List ℕ)
      → cfg.disable_numa_binding ≡ false
      → (rs : List (List Text)) → All (IsOfFile nodes (map (cards_text s) ns)) rs
      → All (IsPlaced s ns) rs
  IsOfFile-IsPlaced nodes s ns bind [] h = tt
  IsOfFile-IsPlaced nodes s ns bind (args ∷ rs) ((i, gpus, at, e), h) =
      let (n, node, same) = get_elem?-map (cards_text s) ns i at in
      let config = node_or_default (nodes i) in
      (
        (
          i,
          n,
          node,
          subst (λ a. Has a (codes "-e") (codes "NVIDIA_VISIBLE_DEVICES=" ++ cards_text s n))
              (sym e)
              (subst
                (λ g.
                  Has (container_args cfg m config i gpus) (codes "-e")
                    (codes "NVIDIA_VISIBLE_DEVICES=" ++ g))
                (sym same) (container-cards config i gpus)),
          subst (λ a. Has a (codes "--cpuset-mems") (decimal i)) (sym e)
              (container-binding config i gpus bind),
        ),
        IsOfFile-IsPlaced nodes s ns bind rs h,
      )

  -- Where the files of the glob are the topology files of some nodes, in any order, and the binding
  -- is not disabled, each container of a start that reports success runs with the cards of the node
  -- whose file stands at some position, and is bound to the memory of the node whose number is that
  -- position, whatever the number of the node of its cards.
  pub start_containers-IsPlaced :
      (nodes : ℕ → Option NodeConfig) (s : Sysfs) (ns : List ℕ) {r : List (List Text)}
      → cfg.disable_numa_binding ≡ false
      → start_containers cfg m nodes (map (cards_text s) ns) ≡ all_started r
      → All (IsPlaced s ns) r
  start_containers-IsPlaced nodes s ns {r} bind e =
      let files = map (cards_text s) ns in
      IsOfFile-IsPlaced nodes s ns bind r (
        start_loop-IsOfFile nodes files 0 [] files tt (λ j. ap (get_elem? files) (omega arith))
          (start_containers-start_loop nodes files e))
