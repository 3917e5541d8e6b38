-- ===== src/Dispatcher/Lock.antt =====
-- The dispatcher's mutex: which calls come back, and what they leave.
use text.Mathlib.Text.{◌==◌ as str_eq}
use gpu_over_ip_capnp.Base.{
  ℕ, ◌≡◌, ◌≢◌, refl, ap, ◌∙◌, true, false, none, some, List, [], ◌∷◌, ◌++◌, ℤ, negsuc, arith,
  Bool-cases, Option-cases, ◌⊎◌, inl, inr, if◌then◌else◌, String, Outcome, returned, blocked,
}
use gpu_over_ip_capnp.Float.{Float}
use gpu_over_ip_capnp.Cuda.{cuda_success}
use gpu_over_ip_capnp.Cooling.{CoolingService}
use gpu_over_ip_capnp.Dispatcher.{
  AllocationPlan, RemoteNode, Dispatcher, best_node, select_node, make_allocation_decision,
  find_node, guarded, add_node, get_node_by_id, pick_locked, pick_node,
}
use gpu_over_ip_capnp.Dispatcher.Decision.{plan_for-IsPlanned}

module _ (f : Float) where
  guarded_free {ℓ} :
      {A : Type ℓ} (body : Dispatcher f → Outcome (A × Dispatcher f)) (d : Dispatcher f) (a : A)
      → d.locked ≡ false
      → body (record d { locked = true }) ≡ returned (a, record d { locked = true })
      → guarded f body d ≡ returned (a, d)
  guarded_free body d a free e = rw (free, e) (ground arith)

  guarded_blocked {ℓ} :
      {A : Type ℓ} (body : Dispatcher f → Outcome (A × Dispatcher f)) (d : Dispatcher f)
      → d.locked ≡ false
      → body (record d { locked = true }) ≡ blocked
      → guarded f body d ≡ blocked
  guarded_blocked body d free e = rw (free, e) refl

  pick_locked-none :
      (blank : AllocationPlan) (cooling : CoolingService f) (ptr size : ℕ)
      (nodes : List (RemoteNode f))
      → best_node f size (negsuc 0) nodes ≡ none
      → pick_locked f blank cooling ptr size (record { nodes = nodes; locked = true })
        ≡ returned (none, record { nodes = nodes; locked = true })
  unfolding pick_locked make_allocation_decision
  pick_locked-none blank cooling ptr size [] e = refl
  pick_locked-none blank cooling ptr size (m ∷ nodes) e = rw (e, make_allocation_decision) refl

  best_node_nil : (size : ℕ) (numa : ℤ) → best_node f size numa [] ≡ none
  unfolding best_node select_node
  best_node_nil size numa = refl

  pick_locked-some :
      (blank : AllocationPlan) (cooling : CoolingService f) (ptr size : ℕ)
      (nodes : List (RemoteNode f)) (n : RemoteNode f)
      → blank.error ≡ cuda_success
      → best_node f size (negsuc 0) nodes ≡ some n
      → pick_locked f blank cooling ptr size (record { nodes = nodes; locked = true }) ≡ blocked
  unfolding pick_locked get_node_by_id make_allocation_decision
  pick_locked-some blank cooling ptr size [] n clean e = cc (best_node_nil size (negsuc 0))
  pick_locked-some blank cooling ptr size (m ∷ nodes) n clean e =
      let no_error = (plan_for-IsPlanned f blank cooling n ptr size).no_error in
      rw (e, make_allocation_decision) (rw (no_error, clean) refl)

  -- `PickNode` on a free dispatcher returns no node and leaves the dispatcher as it was when no
  -- node is chosen, and never comes back when one is: `GetNodeById` waits for the mutex that
  -- `PickNode` holds. A plan starts with no error.
  pub pick_node_lem :
      (blank : AllocationPlan) (cooling : CoolingService f) (ptr size : ℕ) (d : Dispatcher f)
      → blank.error ≡ cuda_success
      → d.locked ≡ false
      → ((best_node f size (negsuc 0) d.nodes ≡ none)
          × (pick_node f blank cooling ptr size d ≡ returned (none, d)))
        ⊎ ((n : RemoteNode f) × (best_node f size (negsuc 0) d.nodes ≡ some n)
            × (pick_node f blank cooling ptr size d ≡ blocked))
  unfolding pick_node
  pick_node_lem blank cooling ptr size d clean free =
      elim (Option-cases (best_node f size (negsuc 0) d.nodes)) [
        | inl e ↦ inl (
          e,
          guarded_free (pick_locked f blank cooling ptr size) d none free
              (pick_locked-none blank cooling ptr size d.nodes e),
        )
        | inr (n, e) ↦ inr (
          n,
          e,
          guarded_blocked (pick_locked f blank cooling ptr size) d free
              (pick_locked-some blank cooling ptr size d.nodes n clean e),
        )
      ]

  pick_node_held :
      (blank : AllocationPlan) (cooling : CoolingService f) (ptr size : ℕ) (d : Dispatcher f)
      → d.locked ≡ true
      → pick_node f blank cooling ptr size d ≡ blocked
  unfolding pick_node
  pick_node_held blank cooling ptr size d held = rw held refl

  -- So no call of it ever hands out a node.
  pub pick_node_no_node :
      (blank : AllocationPlan) (cooling : CoolingService f) (ptr size : ℕ) (d e : Dispatcher f)
      (n : RemoteNode f)
      → blank.error ≡ cuda_success
      → pick_node f blank cooling ptr size d ≢ returned (some n, e)
  pick_node_no_node blank cooling ptr size d e n clean = λ h. elim (Bool-cases d.locked) [
    | inl held ↦ ground (arith, pick_node_held blank cooling ptr size d held)
    | inr free ↦ ground (arith, pick_node_lem blank cooling ptr size d clean free)
  ]

  pub find_node-append :
      (id : String) (xs ys : List (RemoteNode f))
      → find_node f id (xs ++ ys)
        ≡ (elim (find_node f id xs) [ none ↦ find_node f id ys | some m ↦ some m ])
  unfolding find_node
  find_node-append id [] ys = refl
  find_node-append id (m ∷ xs) ys = ground (arith, find_node-append id xs ys)

  pub get_node_by_id_lem :
      (id : String) (d : Dispatcher f)
      → d.locked ≡ false
      → get_node_by_id f id d ≡ returned (find_node f id d.nodes, d)
  unfolding get_node_by_id
  get_node_by_id_lem id d free = rw free (ground arith)

  add_node_lem :
      (n : RemoteNode f) (d : Dispatcher f)
      → d.locked ≡ false
      → add_node f n d ≡ returned (tt, record d { nodes = d.nodes ++ n ∷ [] })
  unfolding add_node
  add_node_lem n d free = rw free (ground arith)

  -- Adding a node to a free dispatcher comes back with the mutex free, and a later search by
  -- identifier finds what it found before, and the new node where it found nothing and the
  -- identifier is the node's.
  pub find-add_node :
      (id : String) (n : RemoteNode f) (d : Dispatcher f)
      → d.locked ≡ false
      → (e : Dispatcher f) × (add_node f n d ≡ returned (tt, e))
        × (e.locked ≡ false)
        × (get_node_by_id f id e
            ≡ returned (
              (elim (find_node f id d.nodes) [
                | none ↦ if str_eq n.id id then some n else none
                | some m ↦ some m
              ]),
              e,
            ))
  unfolding find_node
  find-add_node id n d free = (
    record d { nodes = d.nodes ++ n ∷ [] },
    add_node_lem n d free,
    free,
    get_node_by_id_lem id (record d { nodes = d.nodes ++ n ∷ [] }) free
        ∙ ap (λ r. returned (r, record d { nodes = d.nodes ++ n ∷ [] }))
            (find_node-append id d.nodes (n ∷ [])),
  )
