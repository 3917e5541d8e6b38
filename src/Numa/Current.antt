-- ===== src/Numa/Current.antt =====
-- What `GetCurrentNode` makes of a set of processors.
use gpu_over_ip_capnp.Base.{
  ℕ, zero, suc, ◌+◌, ◌<◌, ◌≡◌, ◌∙◌, Bool, true, false, some, List, ◌++◌, if◌then◌else◌, ltb,
  replicate, pos, negsuc, arith,
}
use gpu_over_ip_capnp.Numa.{Host, count_cpus, first_cpu, get_current_node}

-- The `n` processors from number `k` on.
abbrev pub block : ℕ → ℕ → List Bool
block k n = replicate k false ++ replicate n true

count_cpus-replicate-true : (n : ℕ) → count_cpus (replicate n true) ≡ n
unfolding count_cpus
count_cpus-replicate-true zero = omega arith
count_cpus-replicate-true (suc n) = omega (arith, count_cpus-replicate-true n)

count_cpus-block : (k n : ℕ) → count_cpus (block k n) ≡ n
unfolding count_cpus
count_cpus-block zero n = count_cpus-replicate-true n
count_cpus-block (suc k) n = omega (arith, count_cpus-block k n)

first_cpu-block :
    (i fuel k n : ℕ)
    → 0 < n
    → first_cpu i fuel (block k n) ≡ (if ltb k fuel then pos (i + k) else negsuc 0)
unfolding first_cpu
first_cpu-block i zero k n h = ground arith
first_cpu-block i (suc fuel) zero zero h = absurd (omega arith)
first_cpu-block i (suc fuel) zero (suc n) h = ground arith
first_cpu-block i (suc fuel) (suc k) n h = ground (arith, first_cpu-block (i + 1) fuel k n h)

-- For a process that may run on the n > 0 processors from number k on, the answer is the number of
-- the first of them, k, where k < n, and otherwise -1, as after a failure.
pub current_node-block :
    (h : Host) (k n : ℕ)
    → h.affinity ≡ some (block k n)
    → 0 < n
    → get_current_node h ≡ (if ltb k n then pos k else negsuc 0)
unfolding get_current_node
current_node-block h k n bound some_cpu =
    rw (bound, count_cpus-block k n) (first_cpu-block 0 n k n some_cpu ∙ ground arith)
