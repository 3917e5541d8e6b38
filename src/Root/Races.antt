-- ===== src/Root/Races.antt =====
-- Requests that are handled while others wait for their peers.
use gpu_over_ip_capnp.Base.{
  ℕ, ◌≡◌, ◌≢◌, refl, ◌∙◌, true, false, none, some, List, [], ◌∷◌, ◌++◌, ◌==◌, String, returned,
  arith, Bool-cases, inl, inr,
}
use gpu_over_ip_capnp.Float.{Float}
use gpu_over_ip_capnp.Cuda.{CuResult, cuda_success}
use gpu_over_ip_capnp.Cooling.{CoolingService}
use gpu_over_ip_capnp.Dispatcher.{AllocationPlan, RemoteNode}
use gpu_over_ip_capnp.Root.{
  RemoteAllocInfo, Mappings, Pending, allocating, freeing, AllocResponse, free_result, ask_free,
  is_live, without, RootService, send, wait_for, request_allocation, finish_allocation,
  request_free, finish_free, plan_memcpy_htod, reject_allocation, reject_free,
}
use gpu_over_ip_capnp.Root.Requests.{IsMapped, request_free_mapped}

-- An address is live at most once.
abbrev pub IsOnce : List ℕ → Type 0
IsOnce [] = Unit
IsOnce (q ∷ qs) = (is_live q qs ≡ false) × IsOnce qs

without_gone : (p : ℕ) (qs : List ℕ) → IsOnce qs → is_live p (without p qs) ≡ false
without_gone p [] h = refl
without_gone p (q ∷ qs) h = ground (arith, without_gone p qs h.1)

without_others : (p q : ℕ) (qs : List ℕ) → p ≢ q → is_live p (without q qs) ≡ is_live p qs
without_others p q [] h = refl
without_others p q (r ∷ qs) h = ground (arith, without_others p q qs h)

without-IsOnce : (p : ℕ) (qs : List ℕ) → IsOnce qs → IsOnce (without p qs)
without-IsOnce p [] h = tt
without-IsOnce p (q ∷ qs) h = ground (arith, without-IsOnce p qs h.1, without_others q p qs)

module _ (f : Float) (m : Mappings) where
  -- Two requests to free one mapped pointer, the second handled before the peer answers the first,
  -- both ask the peer to free the allocation; and, whatever the peer answers, the first completion
  -- succeeds and the second deletes an address that is not live any more. The pointer is live before,
  -- and no address is live twice.
  pub double_free :
      (p : ℕ) (info : RemoteAllocInfo) (node : RemoteNode f) (e e' : CuResult) (s : RootService f m)
      → IsMapped f m p info node s
      → IsOnce s.heap
      → is_live p s.heap ≡ true
      → (t u v : RootService f m) × (request_free f m p s ≡ returned t)
        × (request_free f m p t ≡ returned u)
        × (u.sent
            ≡ (s.sent ++ ask_free node.address info.remote_handle ∷ [])
              ++ ask_free node.address info.remote_handle ∷ [])
        × (finish_free f m e p u ≡ some v)
        × (finish_free f m e' p v ≡ none)
  unfolding finish_free
  double_free p info node e e' s h once live =
      let t = wait_for f m (freeing p) (send f m (ask_free node.address info.remote_handle) s) in
      let h' : IsMapped f m p info node t = record {
        mapped = h.mapped;
        known = h.known;
        free = h.free;
      } in
      let u = wait_for f m (freeing p) (send f m (ask_free node.address info.remote_handle) t) in
      (
        t,
        u,
        send f m (free_result e) (record u { table = m.remove p s.table; heap = without p s.heap }),
        request_free_mapped f m p info node s h,
        request_free_mapped f m p info node t h',
        refl,
        rw live refl,
        rw (without_gone p s.heap once) refl,
      )

  -- The steps of the server: a request whose handler returns, or the end of one that waits, by the
  -- peer's answer or by the rejection of its promise. An address that `operator new` gives out is not
  -- live. After a handler that blocks, or a completion that faults, there is no step.
  pub data Step (blank : AllocationPlan) : RootService f m → RootService f m → Type 0 where
    allocation_requested :
        (cooling : CoolingService f) (size : ℕ) {s t : RootService f m}
        → request_allocation f m blank cooling size s ≡ returned t
        → Step blank s t
    allocation_finished :
        (fresh : ℕ) (response : AllocResponse) (node_id : String) (before after : List Pending)
        (s : RootService f m)
        → s.pending ≡ before ++ allocating node_id ∷ after
        → is_live fresh s.heap ≡ false
        → Step blank s
            (finish_allocation f m fresh response node_id (record s { pending = before ++ after }))
    allocation_rejected :
        (node_id : String) (before after : List Pending) (s : RootService f m)
        → s.pending ≡ before ++ allocating node_id ∷ after
        → Step blank s (reject_allocation f m (record s { pending = before ++ after }))
    free_requested :
        (p : ℕ) {s t : RootService f m} → request_free f m p s ≡ returned t → Step blank s t
    free_finished :
        (p : ℕ) (error : CuResult) (before after : List Pending) {s t : RootService f m}
        → s.pending ≡ before ++ freeing p ∷ after
        → finish_free f m error p (record s { pending = before ++ after }) ≡ some t
        → Step blank s t
    free_rejected :
        (p : ℕ) (before after : List Pending) (s : RootService f m)
        → s.pending ≡ before ++ freeing p ∷ after
        → Step blank s (reject_free f m (record s { pending = before ++ after }))
    copy_planned :
        (p size : ℕ) {s t : RootService f m}
        → plan_memcpy_htod f m p size s ≡ returned t
        → Step blank s t

  pub data Reach (blank : AllocationPlan) (s : RootService f m) : RootService f m → Type 0 where
    here : Reach blank s s
    next : {t u : RootService f m} → Reach blank s t → Step blank t u → Reach blank s u

  -- Every mapped pointer is the address of a live byte, and no byte is given out twice.
  pub record IsSound (s : RootService f m) : Type 0 where
    pub live : (p : ℕ) → m.get p s.table ≢ none → is_live p s.heap ≡ true
    pub once : IsOnce s.heap

  IsSound-same :
      {s t : RootService f m} → t.table ≡ s.table → t.heap ≡ s.heap → IsSound s → IsSound t
  IsSound-same {s = s} {t} table heap h = record {
    live = λ p mapped. rw heap (h.live p (rw (← table) mapped));
    once = rw heap h.once;
  }

  request_free_same :
      (p : ℕ) (s t : RootService f m)
      → request_free f m p s ≡ returned t
      → (t.table ≡ s.table) × (t.heap ≡ s.heap)
  unfolding request_free
  request_free_same p s t e = ground arith

  plan_same :
      (p size : ℕ) (s t : RootService f m)
      → plan_memcpy_htod f m p size s ≡ returned t
      → (t.table ≡ s.table) × (t.heap ≡ s.heap)
  unfolding plan_memcpy_htod
  plan_same p size s t e = ground arith

  request_allocation_same :
      (blank : AllocationPlan) (cooling : CoolingService f) (size : ℕ) (s t : RootService f m)
      → request_allocation f m blank cooling size s ≡ returned t
      → (t.table ≡ s.table) × (t.heap ≡ s.heap)
  unfolding request_allocation
  request_allocation_same blank cooling size s t e = ground arith

  finish_free_parts :
      (p : ℕ) (error : CuResult) (s t : RootService f m)
      → finish_free f m error p s ≡ some t
      → (t.table ≡ m.remove p s.table) × (t.heap ≡ without p s.heap)
  unfolding finish_free
  finish_free_parts p error s t e = ground arith

  removed-IsSound :
      (p : ℕ) (s t : RootService f m)
      → t.table ≡ m.remove p s.table
      → t.heap ≡ without p s.heap
      → IsSound s
      → IsSound t
  removed-IsSound p s t table heap h = record {
    live = λ q mapped. rw heap (still q (rw table at mapped));
    once = rw heap (without-IsOnce p s.heap h.once);
  }
    where
      still : (q : ℕ) → m.get q (m.remove p s.table) ≢ none → is_live q (without p s.heap) ≡ true
      still q mapped = elim (Bool-cases (q == p)) [
        | inl same ↦ absurd (mapped (m.get-remove q p s.table ∙ rw same refl))
        | inr other ↦
            let ne : q ≢ p = ground arith in
            without_others q p s.heap ne
            ∙ h.live q (λ lost. mapped (m.get-remove q p s.table ∙ rw other lost))
      ]

  added-IsSound :
      (fresh : ℕ) (info : RemoteAllocInfo) (s t : RootService f m)
      → t.table ≡ m.add fresh info s.table
      → t.heap ≡ fresh ∷ s.heap
      → is_live fresh s.heap ≡ false
      → IsSound s
      → IsSound t
  added-IsSound fresh info s t table heap new h = record {
    live = λ q mapped. rw heap (still q (rw table at mapped));
    once = rw heap (new, h.once);
  }
    where
      still :
          (q : ℕ) → m.get q (m.add fresh info s.table) ≢ none → is_live q (fresh ∷ s.heap) ≡ true
      still q mapped = elim (Bool-cases (q == fresh)) [
        | inl same ↦ rw same refl
        | inr other ↦
            rw other (h.live q (λ lost. mapped (m.get-add q fresh info s.table ∙ rw other lost)))
      ]

  finish_allocation-IsSound :
      (fresh : ℕ) (response : AllocResponse) (node_id : String) (s : RootService f m)
      → is_live fresh s.heap ≡ false
      → IsSound s
      → IsSound (finish_allocation f m fresh response node_id s)
  unfolding finish_allocation
  finish_allocation-IsSound fresh response node_id s new h =
      elim (Bool-cases (response.error == cuda_success)) [
        | inl ok ↦
            added-IsSound fresh
              (record { node_id = node_id; size = response.size; remote_handle = response.handle })
              s (finish_allocation f m fresh response node_id s) (ground arith) (ground arith) new h
        | inr failed ↦ IsSound-same {s = s} (ground arith) (ground arith) h
      ]

  rejected_allocation-IsSound :
      (s : RootService f m) → IsSound s → IsSound (reject_allocation f m s)
  unfolding reject_allocation
  rejected_allocation-IsSound s h = IsSound-same {s = s} refl refl h

  rejected_free-IsSound : (s : RootService f m) → IsSound s → IsSound (reject_free f m s)
  unfolding reject_free
  rejected_free-IsSound s h = IsSound-same {s = s} refl refl h

  pub Step-IsSound :
      {blank : AllocationPlan} {s t : RootService f m} → Step blank s t → IsSound s → IsSound t
  Step-IsSound {blank} (allocation_requested cooling size {s} {t} e) h =
      let same = request_allocation_same blank cooling size s t e in IsSound-same same.0 same.1 h
  Step-IsSound (allocation_finished fresh response node_id before after s waits new) h =
      finish_allocation-IsSound fresh response node_id (record s { pending = before ++ after }) new
        (IsSound-same {s = s} refl refl h)
  Step-IsSound (allocation_rejected node_id before after s waits) h =
      rejected_allocation-IsSound (record s { pending = before ++ after })
        (IsSound-same {s = s} refl refl h)
  Step-IsSound (free_requested p {s} {t} e) h =
      let same = request_free_same p s t e in IsSound-same same.0 same.1 h
  Step-IsSound (free_finished p error before after {s} {t} waits e) h =
      let parts = finish_free_parts p error (record s { pending = before ++ after }) t e in
      removed-IsSound p s t parts.0 parts.1 h
  Step-IsSound (free_rejected p before after s waits) h =
      rejected_free-IsSound (record s { pending = before ++ after })
        (IsSound-same {s = s} refl refl h)
  Step-IsSound (copy_planned p size {s} {t} e) h =
      let same = plan_same p size s t e in IsSound-same same.0 same.1 h

  -- However requests and completions interleave, from a sound state the server reaches only states
  -- in which every mapped pointer is the address of a live byte, which no other allocation has.
  pub Reach-IsSound :
      (blank : AllocationPlan) {s t : RootService f m} → Reach blank s t → IsSound s → IsSound t
  Reach-IsSound blank here h = h
  Reach-IsSound blank (next r st) h = Step-IsSound st (Reach-IsSound blank r h)
