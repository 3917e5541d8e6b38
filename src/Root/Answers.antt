-- ===== src/Root/Answers.antt =====
-- The replies of the root service, and the requests that wait for a peer.
use gpu_over_ip_capnp.Base.{ℕ, ◌+◌, ◌≡◌, ap, some, List, [], ◌∷◌, ◌++◌, arith, String, returned}
use gpu_over_ip_capnp.Float.{Float}
use gpu_over_ip_capnp.Cuda.{CuResult}
use gpu_over_ip_capnp.Cooling.{CoolingService}
use gpu_over_ip_capnp.Dispatcher.{AllocationPlan}
use gpu_over_ip_capnp.Root.{
  Mappings, Pending, allocating, freeing, AllocResponse, Sent, allocation_result, free_result,
  memcpy_plan, memcpy_error, allocation_exception, free_exception, RootService, request_allocation,
  finish_allocation, reject_allocation, request_free, finish_free, reject_free, plan_memcpy_htod,
}
use gpu_over_ip_capnp.Root.Races.{
  Step, allocation_requested, allocation_finished, allocation_rejected, free_requested,
  free_finished, free_rejected, copy_planned, Reach, here, next,
}

-- The requests of a client.
pub data Request : Type 0 where
  an_allocation : Request
  a_free : Request
  a_copy : Request

abbrev same : Request → Request → ℕ
same an_allocation an_allocation = 1
same a_free a_free = 1
same a_copy a_copy = 1
same k l = 0

-- Whether a message is a reply to such a request.
abbrev is_reply : Request → Sent → ℕ
is_reply an_allocation (allocation_result r) = 1
is_reply an_allocation allocation_exception = 1
is_reply a_free (free_result r) = 1
is_reply a_free free_exception = 1
is_reply a_copy (memcpy_plan p) = 1
is_reply a_copy (memcpy_error r) = 1
is_reply k message = 0

-- The replies to such requests.
abbrev pub replies : Request → List Sent → ℕ
replies k [] = 0
replies k (message ∷ ms) = is_reply k message + replies k ms

abbrev is_waiting : Request → Pending → ℕ
is_waiting an_allocation (allocating node_id) = 1
is_waiting a_free (freeing p) = 1
is_waiting k p = 0

-- Such requests that wait for a peer.
abbrev pub waiting : Request → List Pending → ℕ
waiting k [] = 0
waiting k (p ∷ ps) = is_waiting k p + waiting k ps

replies-append :
    (k : Request) (xs ys : List Sent) → replies k (xs ++ ys) ≡ replies k xs + replies k ys
replies-append k [] ys = omega arith
replies-append k (message ∷ ms) ys = omega (arith, replies-append k ms ys)

waiting-append :
    (k : Request) (xs ys : List Pending) → waiting k (xs ++ ys) ≡ waiting k xs + waiting k ys
waiting-append k [] ys = omega arith
waiting-append k (p ∷ ps) ys = omega (arith, waiting-append k ps ys)

module _ (f : Float) (m : Mappings) where
  -- The requests of a kind that are answered or wait.
  abbrev taken : Request → RootService f m → ℕ
  taken k s = replies k s.sent + waiting k s.pending

  taken-request_free :
      (k : Request) (p : ℕ) (s t : RootService f m)
      → request_free f m p s ≡ returned t
      → taken k t ≡ same k a_free + taken k s
  unfolding request_free
  taken-request_free an_allocation p s t e = grind (arith, replies-append, waiting-append)
  taken-request_free a_free p s t e = grind (arith, replies-append, waiting-append)
  taken-request_free a_copy p s t e = grind (arith, replies-append, waiting-append)

  taken-plan_memcpy :
      (k : Request) (p size : ℕ) (s t : RootService f m)
      → plan_memcpy_htod f m p size s ≡ returned t
      → taken k t ≡ same k a_copy + taken k s
  unfolding plan_memcpy_htod
  taken-plan_memcpy an_allocation p size s t e = grind (arith, replies-append, waiting-append)
  taken-plan_memcpy a_free p size s t e = grind (arith, replies-append, waiting-append)
  taken-plan_memcpy a_copy p size s t e = grind (arith, replies-append, waiting-append)

  taken-request_allocation :
      (k : Request) (blank : AllocationPlan) (cooling : CoolingService f) (size : ℕ)
      (s t : RootService f m)
      → request_allocation f m blank cooling size s ≡ returned t
      → taken k t ≡ same k an_allocation + taken k s
  unfolding request_allocation
  taken-request_allocation an_allocation blank cooling size s t e =
      grind (arith, replies-append, waiting-append)
  taken-request_allocation a_free blank cooling size s t e =
      grind (arith, replies-append, waiting-append)
  taken-request_allocation a_copy blank cooling size s t e =
      grind (arith, replies-append, waiting-append)

  -- One waiting request less.
  waiting-remove :
      (k : Request) (before after : List Pending) (p : Pending)
      → waiting k (before ++ p ∷ after) ≡ is_waiting k p + waiting k (before ++ after)
  waiting-remove k before after p =
      omega (arith, waiting-append k before (p ∷ after), waiting-append k before after)

  taken-finish_free :
      (k : Request) (p : ℕ) (error : CuResult) (s t : RootService f m)
      → finish_free f m error p s ≡ some t
      → taken k t ≡ is_waiting k (freeing p) + taken k s
  unfolding finish_free
  taken-finish_free an_allocation p error s t e = grind (arith, replies-append)
  taken-finish_free a_free p error s t e = grind (arith, replies-append)
  taken-finish_free a_copy p error s t e = grind (arith, replies-append)

  taken-finish_allocation :
      (k : Request) (fresh : ℕ) (response : AllocResponse) (node_id : String) (s : RootService f m)
      → taken k (finish_allocation f m fresh response node_id s)
        ≡ is_waiting k (allocating node_id) + taken k s
  unfolding finish_allocation
  taken-finish_allocation an_allocation fresh response node_id s = grind (arith, replies-append)
  taken-finish_allocation a_free fresh response node_id s = grind (arith, replies-append)
  taken-finish_allocation a_copy fresh response node_id s = grind (arith, replies-append)

  taken-reject_allocation :
      (k : Request) (node_id : String) (s : RootService f m)
      → taken k (reject_allocation f m s) ≡ is_waiting k (allocating node_id) + taken k s
  unfolding reject_allocation
  taken-reject_allocation an_allocation node_id s = grind (arith, replies-append)
  taken-reject_allocation a_free node_id s = grind (arith, replies-append)
  taken-reject_allocation a_copy node_id s = grind (arith, replies-append)

  taken-reject_free :
      (k : Request) (p : ℕ) (s : RootService f m)
      → taken k (reject_free f m s) ≡ is_waiting k (freeing p) + taken k s
  unfolding reject_free
  taken-reject_free an_allocation p s = grind (arith, replies-append)
  taken-reject_free a_free p s = grind (arith, replies-append)
  taken-reject_free a_copy p s = grind (arith, replies-append)

  -- The arrivals of such requests in a step.
  abbrev arrivals :
      {blank : AllocationPlan} {s t : RootService f m} → Request → Step f m blank s t → ℕ
  arrivals k (allocation_requested cooling size e) = same k an_allocation
  arrivals k (free_requested p e) = same k a_free
  arrivals k (copy_planned p size e) = same k a_copy
  arrivals k st = 0

  abbrev pub requests :
      {blank : AllocationPlan} {s t : RootService f m} → Request → Reach f m blank s t → ℕ
  requests k here = 0
  requests k (next r st) = requests k r + arrivals k st

  Step-taken :
      (k : Request) {blank : AllocationPlan} {s t : RootService f m} (st : Step f m blank s t)
      → taken k t ≡ arrivals k st + taken k s
  Step-taken k {blank} (allocation_requested cooling size {s} {t} e) =
      taken-request_allocation k blank cooling size s t e
  Step-taken k (allocation_finished fresh response node_id before after s waits new) = omega (
    arith,
    taken-finish_allocation k fresh response node_id (record s { pending = before ++ after }),
    waiting-remove k before after (allocating node_id),
    ap (waiting k) waits,
  )
  Step-taken k (allocation_rejected node_id before after s waits) = omega (
    arith,
    taken-reject_allocation k node_id (record s { pending = before ++ after }),
    waiting-remove k before after (allocating node_id),
    ap (waiting k) waits,
  )
  Step-taken k (free_requested p {s} {t} e) = taken-request_free k p s t e
  Step-taken k (free_finished p error before after {s} {t} waits e) = omega (
    arith,
    taken-finish_free k p error (record s { pending = before ++ after }) t e,
    waiting-remove k before after (freeing p),
    ap (waiting k) waits,
  )
  Step-taken k (free_rejected p before after s waits) = omega (
    arith,
    taken-reject_free k p (record s { pending = before ++ after }),
    waiting-remove k before after (freeing p),
    ap (waiting k) waits,
  )
  Step-taken k (copy_planned p size {s} {t} e) = taken-plan_memcpy k p size s t e

  -- However the requests whose handlers return, the answers of peers and the rejections of their
  -- promises interleave, up to a handler that blocks or a free completion that faults: for the
  -- allocations, for the frees and for the copies alike, the replies to requests of the kind, an
  -- exception counted as one, and the requests of the kind that wait for a peer grow together by
  -- exactly the requests of the kind that arrived.
  pub answered_once :
      (k : Request) (blank : AllocationPlan) {s t : RootService f m} (r : Reach f m blank s t)
      → replies k t.sent + waiting k t.pending
        ≡ replies k s.sent + waiting k s.pending + requests k r
  answered_once k blank here = omega arith
  answered_once k blank (next r st) = omega (arith, answered_once k blank r, Step-taken k st)
