-- ===== src/Dispatcher/Choice.antt =====
-- Which node the loop of `makeAllocationDecision` chooses.
use gpu_over_ip_capnp.Base.{
  ℕ, ◌<◌, ◌≤◌, ltb→lt, ◌≡◌, refl, true, false, Option, none, some, List, [], ◌∷◌, ◌++◌, ℤ, arith,
  ltb, ltb→le, Bool-cases, ◌⊎◌, inl, inr, All, ap,
}
use gpu_over_ip_capnp.Float.{Float, Laws, AtMost, less_of_AtMost}
use gpu_over_ip_capnp.Dispatcher.{
  RemoteNode, calculate_node_score, select_node, best_node, lowest_score,
}

module _ (f : Float) (l : Laws f) (size : ℕ) (numa : ℤ) where
  abbrev score : RemoteNode f → f.Real
  score m = calculate_node_score f m size numa

  -- A node that has the memory scores below `bound`; one without is not considered.
  abbrev pub Below : f.Real → RemoteNode f → Type 0
  Below bound m = (m.available_memory < size) ⊎ (f.less (score m) bound ≡ true)

  abbrev pub NotAbove : f.Real → RemoteNode f → Type 0
  NotAbove bound m = (m.available_memory < size) ⊎ AtMost f (score m) bound

  -- `n` is the first of the nodes that have the memory and the highest score.
  pub record IsFirstBest (floor : f.Real) (nodes : List (RemoteNode f)) (n : RemoteNode f)
      : Type 0 where
    pub before : List (RemoteNode f)
    pub after : List (RemoteNode f)
    pub split : nodes ≡ before ++ n ∷ after
    pub fits : size ≤ n.available_memory
    pub above_floor : f.less floor (score n) ≡ true
    pub before_lower : All (Below (score n)) before
    pub after_not_higher : All (NotAbove (score n)) after

  abbrev Selects :
      f.Real → List (RemoteNode f) → Option (RemoteNode f) → Option (RemoteNode f) → Type 0
  Selects floor nodes best result =
      ((result ≡ best) × All (NotAbove floor) nodes)
      ⊎ ((n : RemoteNode f) × (result ≡ some n) × IsFirstBest floor nodes n)

  Below-of_NotAbove :
      (floor bound : f.Real) (m : RemoteNode f)
      → NotAbove floor m
      → f.less floor bound ≡ true
      → Below bound m
  Below-of_NotAbove floor bound m (inl short) h = inl short
  Below-of_NotAbove floor bound m (inr low) h = inr (less_of_AtMost f l _ _ _ low h)

  Selects-skip :
      (floor : f.Real) (m : RemoteNode f) (nodes : List (RemoteNode f))
      (best result : Option (RemoteNode f))
      → NotAbove floor m
      → Selects floor nodes best result
      → Selects floor (m ∷ nodes) best result
  Selects-skip floor m nodes best result low (inl (e, rest)) = inl (e, (low, rest))
  Selects-skip floor m nodes best result low (inr (n, e, b)) = inr (
    n,
    e,
    record {
      before = m ∷ b.before;
      after = b.after;
      split = ap (◌∷◌ m) b.split;
      fits = b.fits;
      above_floor = b.above_floor;
      before_lower = (Below-of_NotAbove floor (score n) m low b.above_floor, b.before_lower);
      after_not_higher = b.after_not_higher;
    },
  )

  Selects-take :
      (floor : f.Real) (m : RemoteNode f) (nodes : List (RemoteNode f))
      (best result : Option (RemoteNode f))
      → size ≤ m.available_memory
      → f.less floor (score m) ≡ true
      → Selects (score m) nodes (some m) result
      → Selects floor (m ∷ nodes) best result
  Selects-take floor m nodes best result has higher (inl (e, rest)) = inr (
    m,
    e,
    record {
      before = [];
      after = nodes;
      split = refl;
      fits = has;
      above_floor = higher;
      before_lower = tt;
      after_not_higher = rest;
    },
  )
  Selects-take floor m nodes best result has higher (inr (n, e, b)) = inr (
    n,
    e,
    record {
      before = m ∷ b.before;
      after = b.after;
      split = ap (◌∷◌ m) b.split;
      fits = b.fits;
      above_floor = l.less_trans _ _ _ higher b.above_floor;
      before_lower = (inr b.above_floor, b.before_lower);
      after_not_higher = b.after_not_higher;
    },
  )

  select_node_skip :
      (m : RemoteNode f) (nodes : List (RemoteNode f)) (best : Option (RemoteNode f))
      (floor : f.Real)
      → (ltb m.available_memory size ≡ true) ⊎ (f.less floor (score m) ≡ false)
      → select_node f size numa (m ∷ nodes) best floor ≡ select_node f size numa nodes best floor
  unfolding select_node
  select_node_skip m nodes best floor h = ground arith

  select_node_take :
      (m : RemoteNode f) (nodes : List (RemoteNode f)) (best : Option (RemoteNode f))
      (floor : f.Real)
      → ltb m.available_memory size ≡ false
      → f.less floor (score m) ≡ true
      → select_node f size numa (m ∷ nodes) best floor
        ≡ select_node f size numa nodes (some m) (score m)
  unfolding select_node
  select_node_take m nodes best floor h k = rw (h, k) refl

  select_node_nil :
      (best : Option (RemoteNode f)) (floor : f.Real) → select_node f size numa [] best floor ≡ best
  unfolding select_node
  select_node_nil best floor = refl

  select_node-Selects :
      (nodes : List (RemoteNode f)) (best : Option (RemoteNode f)) (floor : f.Real)
      → Selects floor nodes best (select_node f size numa nodes best floor)
  select_node-Selects [] best floor = inl (select_node_nil best floor, tt)
  select_node-Selects (m ∷ nodes) best floor = elim (Bool-cases (ltb m.available_memory size)) [
    | inl short ↦ rw (select_node_skip m nodes best floor (inl short)) (
        Selects-skip floor m nodes best _ (inl (ltb→lt _ _ short))
          (select_node-Selects nodes best floor))
    | inr enough ↦ elim (Bool-cases (f.less floor (score m))) [
      | inl higher ↦ rw (select_node_take m nodes best floor enough higher) (
          Selects-take floor m nodes best _ (ltb→le _ _ enough) higher
            (select_node-Selects nodes (some m) (score m)))
      | inr lower ↦
          rw (select_node_skip m nodes best floor (inr lower))
            (Selects-skip floor m nodes best _ (inr lower) (select_node-Selects nodes best floor))
    ]
  ]

  -- The chosen node has the memory and a score above -1; every node before it that has the memory
  -- scores lower, and every one after it no higher. If none is chosen, then no node that has the
  -- memory scores above -1.
  pub best_node_lem :
      (nodes : List (RemoteNode f))
      → ((best_node f size numa nodes ≡ none) × All (NotAbove (lowest_score f)) nodes)
        ⊎ ((n : RemoteNode f) × (best_node f size numa nodes ≡ some n)
            × IsFirstBest (lowest_score f) nodes n)
  unfolding best_node
  best_node_lem nodes = select_node-Selects nodes none (lowest_score f)
