-- ===== src/Numa/Discovery/Listed.antt =====
-- What the discovery finds on a system whose kernel lists its nodes.
use gpu_over_ip_capnp.Base.{
  ℕ, ◌*◌, ◌^◌, ◌<◌, ◌≡◌, true, false, some, List, [], ◌∷◌, ◌++◌, if◌then◌else◌, Text, codes, map,
  All, ℤ, pos, replicate, decimal,
}
use gpu_over_ip_capnp.Go.{join_comma, contains}
use gpu_over_ip_capnp.Numa.Discovery.{Node, Entry, System, is_node}

-- An item of a list of processors, as the kernel prints them: a number or a range.
pub data Cpus : Type 0 where
  one : ℕ → Cpus
  span : ℕ → ℕ → Cpus

abbrev pub shown : Cpus → Text
shown (one n) = decimal n
shown (span a b) = decimal a ++ b'-' ∷ decimal b

abbrev pub IsInt : Cpus → Type 0
IsInt (one n) = n < 2 ^ 63
IsInt (span a b) = Unit

-- The numbers that stand alone.
abbrev pub singles : List Cpus → List ℤ
singles [] = []
singles (one n ∷ cs) = pos n ∷ singles cs
singles (span a b ∷ cs) = singles cs

-- The line of the memory of a node, with `pad` more spaces before the number.
abbrev pub mem_line : ℕ → ℕ → ℕ → Text
mem_line id pad kb =
    codes "Node "
    ++ (decimal id
        ++ b' ' ∷ (codes "MemTotal: " ++ (replicate pad b' ' ++ (decimal kb ++ codes " kB"))))

-- What the kernel lists of a node; `others` are the other lines of its meminfo.
pub record Listing : Type 0 where
  pub id : ℕ
  pub cpus : List Cpus
  pub pad : ℕ
  pub kb : ℕ
  pub others : List Text

pub record IsListing (l : Listing) : Type 0 where
  pub id : l.id < 2 ^ 63
  pub cpus : All IsInt l.cpus
  pub kb : l.kb < 2 ^ 54
  pub others : All (λ t. contains t (codes "MemTotal") ≡ false) l.others

abbrev pub entry_of : Listing → Entry
entry_of l = record {
  name = codes "node" ++ decimal l.id;
  is_dir = true;
  cpulist = some (join_comma (map shown l.cpus));
  meminfo = mem_line l.id l.pad l.kb ∷ l.others;
}

abbrev pub summary : Node → ℤ × (List ℤ × ℕ)
summary n = (n.id, (n.cpus, n.memory))

abbrev pub listed : Listing → ℤ × (List ℤ × ℕ)
listed l = (pos l.id, (singles l.cpus, l.kb * 1024))

-- The entries that are taken for nodes.
abbrev pub node_entries : System → List Entry → List Entry
node_entries s [] = []
node_entries s (e ∷ es) = let rest = node_entries s es in if is_node s e then e ∷ rest else rest
