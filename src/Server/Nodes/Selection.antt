-- ===== src/Server/Nodes/Selection.antt =====
-- The choice of `selectOptimalNode`, whatever the order of the iteration.
use gpu_over_ip_capnp.Base.{
  ℕ, ◌<◌, ◌≤◌, ◌≡◌, refl, sym, ◌∙◌, false, Option, none, some, [], ◌∷◌, ltb, ltb→lt, ltb→le, ◌==◌,
  Map, lookup, IsDistinct, arith, Bool-cases, ◌↔◌, inl, inr, AllValues, lookup-AllValues,
}
use gpu_over_ip_capnp.Server.Nodes.{NodeStatus, select_loop, select_optimal_node}

abbrev pub available : Option NodeStatus → ℕ
available none = 0
available (some status) = status.available_memory

-- The memory of a chosen node; no node has none.
abbrev pub memory_of : Map NodeStatus → Option ℕ → ℕ
memory_of m none = 0
memory_of m (some id) = available (lookup id m)

-- The selected node is the one of before, and no entry has more, or it is an entry that no entry and
-- no node before has more than.
data Chosen (limit : ℕ) (before after : Option ℕ) (m : Map NodeStatus) : Type 0 where
  kept :
      after ≡ before
      → AllValues (λ (s : NodeStatus). s.available_memory ≤ limit) m
      → Chosen limit before after m
  taken :
      (id : ℕ) (status : NodeStatus)
      → after ≡ some id
      → lookup id m ≡ some status
      → limit < status.available_memory
      → AllValues (λ (s : NodeStatus). s.available_memory ≤ status.available_memory) m
      → Chosen limit before after m

weaken :
    {a b : ℕ} (m : Map NodeStatus)
    → a ≤ b
    → AllValues (λ (s : NodeStatus). s.available_memory ≤ a) m
    → AllValues (λ (s : NodeStatus). s.available_memory ≤ b) m
weaken [] h v = tt
weaken (e ∷ m) h v = (omega arith, weaken m h v.1)

lookup_apart :
    (id k : ℕ) (m : Map NodeStatus) {s : NodeStatus}
    → lookup k m ≡ none
    → lookup id m ≡ some s
    → (id == k) ≡ false
lookup_apart id k m new old = elim (Bool-cases (id == k)) [
  | inl same ↦ let at : id ≡ k = ground arith in cc
  | inr other ↦ other
]

select_loop-Chosen :
    (limit : ℕ) (before : Option ℕ) (m : Map NodeStatus)
    → IsDistinct m
    → Chosen limit before (select_loop limit before m) m
unfolding select_loop
select_loop-Chosen limit before [] d = kept refl tt
select_loop-Chosen limit before ((id, s) ∷ m) d = elim (Bool-cases (ltb limit s.available_memory)) [
  | inl more ↦
      rw more (larger (ltb→lt _ _ more) (select_loop-Chosen s.available_memory (some id) m d.1))
  | inr less ↦ rw less (smaller (ltb→le _ _ less) (select_loop-Chosen limit before m d.1))
]
  where
    larger :
        limit < s.available_memory
        → Chosen s.available_memory (some id) (select_loop s.available_memory (some id) m) m
        → Chosen limit before (select_loop s.available_memory (some id) m) ((id, s) ∷ m)
    larger h (kept e v) = taken id s e (ground arith) h (omega arith, v)
    larger h (taken k t e at up v) =
        taken k t e (rw (lookup_apart k id m d.0 at) at) (omega arith) (omega arith, v)

    smaller :
        s.available_memory ≤ limit
        → Chosen limit before (select_loop limit before m) m
        → Chosen limit before (select_loop limit before m) ((id, s) ∷ m)
    smaller h (kept e v) = kept e (h, v)
    smaller h (taken k t e at up v) =
        taken k t e (rw (lookup_apart k id m d.0 at) at) up (omega arith, v)

optimal-Chosen :
    (m : Map NodeStatus) (size : ℕ) → IsDistinct m → Chosen 0 none (select_optimal_node m size) m
unfolding select_optimal_node
optimal-Chosen m size d = select_loop-Chosen 0 none m d

-- No node has more memory than the chosen one, and what that has, some node has, unless it is 0.
Chosen-best :
    (m : Map NodeStatus) {after : Option ℕ} (k : ℕ) (s : NodeStatus)
    → Chosen 0 none after m
    → lookup k m ≡ some s
    → s.available_memory ≤ memory_of m after
Chosen-best m k s (kept e v) at =
    rw e (lookup-AllValues (λ (t : NodeStatus). t.available_memory ≤ 0) k m s v at)
Chosen-best m k s (taken id t e found up v) at =
    rw (e, found)
      (lookup-AllValues (λ (u : NodeStatus). u.available_memory ≤ t.available_memory) k m s v at)

-- Two iterations of one map.
abbrev pub SameEntries : Map NodeStatus → Map NodeStatus → Type 0
SameEntries m m' = (k : ℕ) → lookup k m ≡ lookup k m'

Chosen-le :
    (m m' : Map NodeStatus) {after after' : Option ℕ}
    → SameEntries m m'
    → Chosen 0 none after m
    → Chosen 0 none after' m'
    → memory_of m after ≤ memory_of m' after'
Chosen-le m m' same (kept e v) c' = rw e (omega arith)
Chosen-le m m' same (taken id t e found up v) c' =
    rw (e, found) (Chosen-best m' id t c' (sym (same id) ∙ found))

-- In any two orders of iteration over one map, the chosen nodes have the same memory, no node has
-- more, and a node is chosen exactly when some node has memory.
pub optimal_node_lem :
    (m m' : Map NodeStatus) (size : ℕ)
    → IsDistinct m
    → IsDistinct m'
    → SameEntries m m'
    → (memory_of m (select_optimal_node m size) ≡ memory_of m' (select_optimal_node m' size))
      × ((k : ℕ) (s : NodeStatus)
          → lookup k m ≡ some s
          → s.available_memory ≤ memory_of m (select_optimal_node m size))
      × ((select_optimal_node m size ≡ none) ↔ (memory_of m (select_optimal_node m size) ≡ 0))
optimal_node_lem m m' size d d' same =
    let c = optimal-Chosen m size d in
    let c' = optimal-Chosen m' size d' in
    let le = Chosen-le m m' same c c' in
    let ge = Chosen-le m' m (λ k. sym (same k)) c' c in
    (omega arith, (λ k s at. Chosen-best m k s c at), none_iff (select_optimal_node m size) c)
  where
    none_iff : (o : Option ℕ) → Chosen 0 none o m → (o ≡ none) ↔ (memory_of m o ≡ 0)
    none_iff o (kept e v) = ((λ q. rw e refl), (λ q. e))
    none_iff o (taken id t e found up v) = (
      (λ q. absurd (cc)),
      (λ q.
          let positive : memory_of m o ≡ t.available_memory = rw (e, found) refl in
          absurd (omega arith)),
    )
