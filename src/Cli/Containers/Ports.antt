-- ===== src/Cli/Containers/Ports.antt =====
-- Which ports the containers of the nodes publish.
use gpu_over_ip_capnp.Base.{ℕ, ◌+◌, ◌≡◌, List, [], ◌∷◌, ◌++◌, Text, codes, decimal}
use gpu_over_ip_capnp.Cli.Containers.{CliConfig}

-- The arguments publish a port.
abbrev pub Publishes : List Text → Text → Type 0
Publishes args p =
    (before : List Text) × (after : List Text) × (args ≡ before ++ codes "-p" ∷ p ∷ after)

abbrev pub zmq_port : CliConfig → Text
zmq_port cfg =
    decimal cfg.zmq_base_port ++ (codes ":" ++ (decimal cfg.zmq_base_port ++ codes "/udp"))

abbrev pub capnp_port : CliConfig → ℕ → Text
capnp_port cfg i =
    decimal (cfg.capnp_base_port + i) ++ (codes ":" ++ decimal (cfg.capnp_base_port + i))

-- The files from the i-th on that name a GPU, by their positions.
abbrev pub positions : ℕ → List Text → List ℕ
positions i [] = []
positions i ([] ∷ files) = positions (i + 1) files
positions i ((g ∷ pus) ∷ files) = i ∷ positions (i + 1) files

-- Containers that were started one after the other for positions: each publishes the port of Cap'n
-- Proto of its position, and all of them one port of ZMQ.
abbrev pub PublishEach : CliConfig → List ℕ → List (List Text) → Type 0
PublishEach cfg [] [] = Unit
PublishEach cfg [] (args ∷ rs) = ⊥
PublishEach cfg (i ∷ is) [] = ⊥
PublishEach cfg (i ∷ is) (args ∷ rs) =
    Publishes args (capnp_port cfg i) × Publishes args (zmq_port cfg) × PublishEach cfg is rs
