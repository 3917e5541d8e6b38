-- ===== src/Dispatcher/Score.antt =====
-- How `CalculateNodeScore` orders nodes.
use gpu_over_ip_capnp.Base.{
  ℕ, ◌+◌, ◌-◌, ◌%◌, ◌≤◌, ◌<◌, ◌≡◌, true, false, ℤ, pos, ltb_ℤ, eq_ℤ, eq_ℤ_iff, ltb, if◌then◌else◌,
  u64_mod, arith, ◌⊎◌, inl, inr, Bool-cases,
}
use gpu_over_ip_capnp.Float.{
  Float, Laws, AtMost, AtMost-refl, AtMost-of_less, fl_zero, fl_one, fl_half,
}
use gpu_over_ip_capnp.Float.Monotone.{Monotone}
use gpu_over_ip_capnp.Dispatcher.{RemoteNode, calculate_node_score}

module _ (f : Float) where
  -- `n` is as good as `m` in each of the measures; of the memory it is the part that is available
  -- that counts, so that a larger memory in all is worse.
  pub record IsNoBetter (numa : ℤ) (m n : RemoteNode f) : Type 0 where
    pub total :
        (m.total_memory ≡ n.total_memory)
        ⊎ ((0 < n.total_memory) × (n.total_memory ≤ m.total_memory))
    pub memory : m.available_memory ≤ n.available_memory
    pub latency : AtMost f n.network_latency m.network_latency
    pub cpu : AtMost f n.cpu_usage m.cpu_usage
    pub gpu : AtMost f n.gpu_utilization m.gpu_utilization
    pub priority : ltb_ℤ n.priority m.priority ≡ false
    pub near : (m.numa_id ≡ n.numa_id) ⊎ (n.numa_id ≡ numa)

  module _ (l : Laws f) (o : Monotone f) where
    -- The difference that the score takes does not wrap for a node that has the memory.
    difference_exact :
        (a size : ℕ) → size ≤ a → a < u64_mod → (a + u64_mod - size) % u64_mod ≡ a - size
    difference_exact a size fits small = omega arith

    memory_part :
        (total total' left left' : ℕ)
        → left ≤ left'
        → (total ≡ total') ⊎ ((0 < total') × (total' ≤ total))
        → AtMost f
            (if ltb 0 total
              then f.div (f.from_int (pos left)) (f.from_int (pos total))
              else fl_zero f)
            (if ltb 0 total'
              then f.div (f.from_int (pos left')) (f.from_int (pos total'))
              else fl_zero f)
    memory_part total total' left left' h (inl same) = elim (Bool-cases (ltb 0 total')) [
      | inl some_left ↦
          rw (same, some_left)
            (o.div_mono _ _ _ (o.from_int_pos (pos total') (ground arith))
              (o.from_int_mono (pos left) (pos left') (ground arith)))
      | inr nothing ↦ rw (same, nothing) (AtMost-refl f l (fl_zero f))
    ]
    memory_part total total' left left' h (inr (some_memory, smaller)) =
        let here : ltb 0 total ≡ true = ground arith in
        let here' : ltb 0 total' ≡ true = ground arith in
        let positive = o.from_int_pos (pos total') (ground arith) in
        rw (here, here')
          (l.at_most_trans _ (f.div (f.from_int (pos left)) (f.from_int (pos total'))) _
            (o.div_anti _ _ _ (o.from_int_nonneg left) positive
              (o.from_int_mono (pos total') (pos total) (ground arith)))
            (o.div_mono _ _ _ positive (o.from_int_mono (pos left) (pos left') (ground arith))))

    numa_part :
        (numa a b : ℤ)
        → (a ≡ b) ⊎ (b ≡ numa)
        → AtMost f
            (if eq_ℤ a numa then fl_one f else fl_half f)
            (if eq_ℤ b numa then fl_one f else fl_half f)
    numa_part numa a b (inl same) = rw same (AtMost-refl f l _)
    numa_part numa a b (inr here) =
        let half_le_one : AtMost f (fl_half f) (fl_one f) =
          AtMost-of_less f l _ _ (l.less_trans _ _ _ l.half_lt_four_fifths l.four_fifths_lt_one) in
        let e : eq_ℤ b numa ≡ true = (eq_ℤ_iff b numa).1 here in
        rw e (elim (Bool-cases (eq_ℤ a numa)) [
          | inl near ↦ rw near (AtMost-refl f l _)
          | inr far ↦ rw far half_le_one
        ])

    weigh :
        (w d : ℕ) (a b : f.Real)
        → AtMost f a b
        → AtMost f (f.times (f.lit w d) a) (f.times (f.lit w d) b)
    weigh w d a b h = l.times_mono (f.lit w d) a b (l.lit_nonneg w d) h

    -- A node that has the memory scores no higher than a node that has as much or more available and
    -- either the same memory in all or less of it, but some; no higher latency (which is not
    -- negative), processor or GPU load, no lower priority, and the same NUMA node or the wanted one.
    -- Sizes are below 2 ^ 64.
    pub score_mono :
        (size : ℕ) (numa : ℤ) (m n : RemoteNode f)
        → size ≤ m.available_memory
        → n.available_memory < u64_mod
        → AtMost f (fl_zero f) n.network_latency
        → IsNoBetter numa m n
        → AtMost f (calculate_node_score f m size numa) (calculate_node_score f n size numa)
    unfolding calculate_node_score
    score_mono size numa m n fits small latency b =
        let memory = b.memory in
        let left : (m.available_memory + u64_mod - size) % u64_mod ≡ m.available_memory - size =
          difference_exact m.available_memory size fits (omega arith) in
        let left' : (n.available_memory + u64_mod - size) % u64_mod ≡ n.available_memory - size =
          difference_exact n.available_memory size (omega arith) small in
        o.plus_mono _ _ _ _
          (o.plus_mono _ _ _ _
            (o.plus_mono _ _ _ _
              (o.plus_mono _ _ _ _
                (weigh 3 10 _ _ (
                  rw (left, left')
                    (memory_part m.total_memory n.total_memory _ _ (omega arith) b.total)))
                (weigh 2 10 _ _ (
                  o.div_anti _ _ _ (l.lit_nonneg 1 1) (o.one_plus_pos _ latency)
                    (o.plus_mono _ _ _ _ (AtMost-refl f l _) b.latency))))
              (weigh 2 10 _ _ (
                o.minus_anti _ _ _
                  (o.div_mono _ _ _ o.two_hundred_pos (o.plus_mono _ _ _ _ b.cpu b.gpu)))))
            (weigh 1 10 _ _ (o.div_mono _ _ _ l.hundred_pos (o.from_int_mono _ _ b.priority))))
          (weigh 2 10 _ _ (numa_part numa m.numa_id n.numa_id b.near))
