-- ===== src/Transport/Rdma/Paths.antt =====
-- What the calls of an `RdmaTransport` come to, and what they leave open.
use gpu_over_ip_capnp.Base.{
  ℕ, zero, suc, ◌+◌, ◌<◌, ◌≡◌, ◌≢◌, refl, sym, ap, if◌then◌else◌, ◌∙◌, Bool, true, false, ◌&&◌,
  Option, none, some, List, [], ◌∷◌, ◌++◌, arith, Io, handles, handles-append, continue, subst,
  returned, blocked, lookup, Bool-cases, Option-cases, inl, inr, lookup-insert_self,
}
use gpu_over_ip_capnp.Transport.Rdma.{
  Verbs, Event, use_of, RdmaTransport, WorkRequest, TransferType, standard, gdr, register_locked,
  register_memory, enable_gdr, poll_loop, run_request, transfer_registered, run_typed, make_request,
  transfer, after, on_answer, Poll, nothing, poll_failed, completed,
}

-- A transfer of a buffer that has no region yet never comes back on a free transport: it holds the
-- mutex that `RegisterMemory` then waits for.
transfer_unregistered :
    (v : Verbs) (fuel buffer size remote_addr remote_key : ℕ) (type : TransferType)
    (t : RdmaTransport)
    → lookup buffer t.memory_regions ≡ none
    → transfer v fuel buffer size remote_addr remote_key type t ≡ blocked
unfolding transfer register_memory
transfer_unregistered v fuel buffer size remote_addr remote_key type t e = ground arith

-- The first answer that is not 0 is the k-th.
pub record IsFirst (v : Verbs) (k : ℕ) : Type 0 where
  pub waits : (i : ℕ) → i < k → v.polled i ≡ nothing
  pub ends : v.polled k ≢ nothing

-- The status that is read after an answer: of an error it is what was not initialized.
abbrev pub reads_success : Verbs → Poll → Bool
reads_success v nothing = false
reads_success v (completed ok) = ok
reads_success v poll_failed = v.stale_success

-- The completion queues that were made.
abbrev pub queues : Verbs → List ℕ
queues v = (if v.recv_cq then 4 ∷ [] else []) ++ (if v.send_cq then 4 ∷ [] else [])

abbrev pub Leaves : List ℕ → Bool → Option (Io Event Bool) → List ℕ → Type 0
Leaves hs ok r ks =
    (m : Io Event Bool) × (r ≡ some m) × (m.0 ≡ ok) × (handles use_of m.1 hs ≡ some ks)

answer-Leaves :
    (v : Verbs) (p : Poll) (again : Option (Io Event Bool)) (hs : List ℕ)
    → p ≢ nothing
    → Leaves hs (reads_success v p) (on_answer v p again) hs
answer-Leaves v nothing again hs h = absurd (h refl)
answer-Leaves v (completed ok) again hs h = ((ok, Event.poll_cq ∷ []), refl, refl, refl)
answer-Leaves v poll_failed again hs h = ((v.stale_success, Event.poll_cq ∷ []), refl, refl, refl)

-- The polls wait: with fuel above the round of the first answer that is not 0 the loop ends.
poll_loop-Leaves :
    (v : Verbs) (k fuel i : ℕ) (hs : List ℕ)
    → ((j : ℕ) → j < k → v.polled (i + j) ≡ nothing)
    → v.polled (i + k) ≢ nothing
    → k < fuel
    → Leaves hs (reads_success v (v.polled (i + k))) (poll_loop v fuel i) hs
unfolding poll_loop
poll_loop-Leaves v k zero i hs waits ends h = absurd (omega arith)
poll_loop-Leaves v zero (suc fuel) i hs waits ends h =
    let same : v.polled (i + 0) ≡ v.polled i = ap v.polled (omega arith) in
    subst
      (λ p.
        Leaves hs (reads_success v (v.polled (i + 0))) (on_answer v p (poll_loop v fuel (i + 1)))
          hs)
      same (answer-Leaves v (v.polled (i + 0)) (poll_loop v fuel (i + 1)) hs ends)
poll_loop-Leaves v (suc k) (suc fuel) i hs waits ends h =
    let here : v.polled i ≡ nothing = ap v.polled (omega arith) ∙ waits 0 (omega arith) in
    let same : v.polled ((i + 1) + k) ≡ v.polled (i + suc k) = ap v.polled (omega arith) in
    let (m, e, answer, left) =
      poll_loop-Leaves v k fuel (i + 1) hs
        (λ j l. ap v.polled (omega arith) ∙ waits (suc j) (omega arith)) (λ c. ends (sym same ∙ c))
        (omega arith) in
    (
      (m.0, Event.poll_cq ∷ m.1),
      ap (λ p. on_answer v p (poll_loop v fuel (i + 1))) here ∙ ap (after (Event.poll_cq ∷ [])) e,
      answer ∙ ap (reads_success v) same,
      left,
    )

run_request-Leaves :
    (v : Verbs) (k fuel : ℕ) (request : WorkRequest) (hs : List ℕ)
    → v.send_cq ≡ true
    → IsFirst v k
    → k < fuel
    → Leaves (5 ∷ hs) (v.post_send && reads_success v (v.polled k)) (run_request v fuel request) hs
unfolding run_request
run_request-Leaves v k fuel request hs made first h = elim (Bool-cases v.post_send) [
  | inl posted ↦
      let (m, e, answer, left) =
        poll_loop-Leaves v k fuel 0 (5 ∷ hs) (λ j l. ap v.polled (omega arith) ∙ first.waits j l)
          (λ c. first.ends (ap v.polled (omega arith) ∙ c)) h in
      let read : m.0 ≡ reads_success v (v.polled k) =
        answer ∙ ap (λ (j : ℕ). reads_success v (v.polled j)) (omega arith) in
      (
        (m.0, Event.post_send request true ∷ (m.1 ++ Event.destroy_qp ∷ [])),
        ground arith,
        ground arith,
        handles-append use_of m.1 (Event.destroy_qp ∷ []) (5 ∷ hs)
            ∙ ap (continue (handles use_of (Event.destroy_qp ∷ []))) left,
      )
  | inr refused ↦ (
    (false, Event.post_send request false ∷ Event.destroy_qp ∷ []),
    ground arith,
    ground arith,
    refl,
  )
]

-- The device is asked for direct access, and gives it.
abbrev pub gdr_ok : Verbs → TransferType → Bool
gdr_ok v standard = true
gdr_ok v gdr = v.gdr_compiled && v.modify_qp

gdr-Leaves :
    (v : Verbs) (k fuel : ℕ) (request : WorkRequest) (type : TransferType) (hs : List ℕ)
    → v.send_cq ≡ true
    → IsFirst v k
    → k < fuel
    → Leaves
        (5 ∷ hs)
        (gdr_ok v type && (v.post_send && reads_success v (v.polled k)))
        (run_typed v fuel request type)
        hs
unfolding run_typed enable_gdr
gdr-Leaves v k fuel request standard hs made first h =
    run_request-Leaves v k fuel request hs made first h
gdr-Leaves v k fuel request gdr hs made first h = elim (Bool-cases v.gdr_compiled) [
  | inl compiled ↦ elim (Bool-cases v.modify_qp) [
    | inl modified ↦
        let (m, e, answer, left) = run_request-Leaves v k fuel request hs made first h in
        ((m.0, Event.modify_qp true ∷ m.1), ground arith, ground arith, left)
    | inr refused ↦
        ((false, Event.modify_qp false ∷ Event.destroy_qp ∷ []), ground arith, ground arith, refl)
  ]
  | inr absent ↦ ((false, Event.destroy_qp ∷ []), ground arith, ground arith, refl)
]

-- The handles after the queues and the queue pair.
opened_queues :
    (v : Verbs) (made : Bool) (es : List Event)
    → handles use_of
        (Event.create_cq v.send_cq ∷ Event.create_cq v.recv_cq ∷ Event.create_qp made ∷ es)
        []
      ≡ handles use_of es ((if made then 5 ∷ [] else []) ++ queues v)
opened_queues v made es = elim (Bool-cases v.send_cq) [
  | inl s ↦ elim (Bool-cases v.recv_cq) [ inl r ↦ ground arith | inr r ↦ ground arith ]
  | inr s ↦ elim (Bool-cases v.recv_cq) [ inl r ↦ ground arith | inr r ↦ ground arith ]
]

-- The queue pair is made.
abbrev pub qp_made : Verbs → Bool
qp_made v = v.create_qp v.send_cq v.recv_cq

registered-Leaves :
    (v : Verbs) (k fuel buffer size key remote_addr remote_key : ℕ) (type : TransferType)
    → (qp_made v ≡ true → v.send_cq ≡ true)
    → IsFirst v k
    → k < fuel
    → Leaves []
        (qp_made v && (gdr_ok v type && (v.post_send && reads_success v (v.polled k))))
        (transfer_registered v fuel buffer size key remote_addr remote_key type)
        (queues v)
unfolding transfer_registered
registered-Leaves v k fuel buffer size key remote_addr remote_key type needs first h =
    elim (Bool-cases (qp_made v)) [
      | inl made ↦
          let (m, e, answer, left) =
            gdr-Leaves v k fuel (make_request buffer size key remote_addr remote_key) type
              (queues v) (needs made) first h in
          (
            (
              m.0,
              Event.create_cq v.send_cq ∷ Event.create_cq v.recv_cq ∷ Event.create_qp true ∷ m.1,
            ),
            ground arith,
            ground arith,
            opened_queues v true m.1 ∙ left,
          )
      | inr refused ↦ (
        (false, Event.create_cq v.send_cq ∷ Event.create_cq v.recv_cq ∷ Event.create_qp false ∷ []),
        ground arith,
        ground arith,
        opened_queues v false [],
      )
    ]

-- Where no queue pair is made without a queue for the sends, as the documentation of `ibv_create_qp`
-- has it, and with fuel for the first answer of a poll that is not 0, a transfer of a registered
-- buffer comes back. It answers true exactly when the queue pair is made, a direct transfer is
-- enabled, the operation is posted, and the status reads as success after that answer, which for an
-- error is the status that was never initialized. On every path it leaves open each of its two
-- completion queues that was made.
pub transfer_leaves :
    (v : Verbs) (k fuel buffer size remote_addr remote_key key : ℕ) (type : TransferType)
    (t : RdmaTransport)
    → lookup buffer t.memory_regions ≡ some key
    → t.locked ≡ false
    → (qp_made v ≡ true → v.send_cq ≡ true)
    → IsFirst v k
    → k < fuel
    → (m : Io Event Bool) × (transfer v fuel buffer size remote_addr remote_key type t
        ≡ returned (some m))
      × (m.0 ≡ (qp_made v && (gdr_ok v type && (v.post_send && reads_success v (v.polled k)))))
      × (handles use_of m.1 [] ≡ some (queues v))
unfolding transfer
transfer_leaves v k fuel buffer size remote_addr remote_key key type t found free needs first h =
    let (m, e, answer, left) =
      registered-Leaves v k fuel buffer size key remote_addr remote_key type needs first h in
    (m, ground arith, answer, left)

-- A region is registered once: after `RegisterMemory` answers true on a free transport, the buffer
-- has a region, and any later call for it answers true, changes nothing and makes no call.
register_twice :
    (v : Verbs) (buffer size size' : ℕ) (t t' : RdmaTransport) (es : List Event)
    → register_memory v buffer size t ≡ returned ((true, t'), es)
    → register_memory v buffer size' t' ≡ returned ((true, t'), [])
unfolding register_memory register_locked
register_twice v buffer size size' t t' es h =
    elim (Option-cases (lookup buffer t.memory_regions)) [
      | inl missing ↦ elim (Option-cases (v.reg_mr buffer size)) [
        | inl refused ↦ ground arith
        | inr (key, made) ↦ ground (arith, lookup-insert_self buffer key t.memory_regions)
      ]
      | inr (key, found) ↦ ground arith
    ]
