-- ===== src/Server/Receiver/Progress.antt =====
-- How long the workers go on, and that they are never stuck.
use gpu_over_ip_capnp.Base.{
  ℕ, suc, ◌+◌, ◌*◌, ◌<◌, ◌≤◌, ◌≡◌, ◌≢◌, refl, subst, Bool, true, false, Option, none, some, List,
  [], ◌∷◌, ◌==◌, length, arith, Bool-cases, inl, inr, All, if◌then◌else◌,
}
use gpu_over_ip_capnp.Numa.{Host}
use gpu_over_ip_capnp.Server.Messages.{process_message}
use gpu_over_ip_capnp.Server.Messages.Panics.{outcome_panics}
use gpu_over_ip_capnp.Server.Ring.{Message, Ring, take}
use gpu_over_ip_capnp.Server.Ring.Fifo.{count, take-some-count}
use gpu_over_ip_capnp.Server.Receiver.Cases.{
  Step, missed, refused, queued, woke, unheard, dozed, began, ended, died, step-Step,
}
use gpu_over_ip_capnp.Server.Receiver.{
  Worker, ready, asleep, busy, Receiver, Move, wake, wake_none, test, finish, Event, failed, woken,
  slept, dropped, accepted, started, finished, crashed, worker_at, none_asleep, step, tested, Run,
  here, next, with_worker, processed, move, test_ring, end_processing, wake_worker,
}
use gpu_over_ip_capnp.Server.Receiver.Wakeups.{
  total, total-set, IsSound, Step-IsSound, signals, awake,
}

-- The events of the workers and of `Signal`.
abbrev pub IsInner : Event → Type 0
IsInner failed = ⊥
IsInner (dropped m) = ⊥
IsInner (accepted m) = ⊥
IsInner woken = Unit
IsInner slept = Unit
IsInner (started m) = Unit
IsInner (finished m) = Unit
IsInner (crashed m) = Unit

-- The steps that a worker makes until it sleeps, if it finds no message.
abbrev pub steps_of : Worker → ℕ
steps_of asleep = 0
steps_of ready = 1
steps_of (busy m) = 2

-- A bound on the moves until all is done: three for each message, two for a signal.
abbrev pub work : Receiver → ℕ
work s = 3 * count s.ring + total steps_of s.workers + 2 * signals s

-- The same, with the end of the program.
abbrev pub left : Receiver → ℕ
left s = work s + (if s.running then 1 else 0)

Step-left :
    {h : Host} {s t : Receiver} {e : Event} → IsSound s → Step h s e t → IsInner e → left t < left s
Step-left v (missed q c) inner = absurd (subst IsInner q inner)
Step-left v (refused m q c) inner = absurd (subst IsInner q inner)
Step-left v (queued m r p q c) inner = absurd (subst IsInner q inner)
Step-left {s} v (woke i on at q c) inner =
    rw c (ground (arith, total-set steps_of s.workers i ready at))
Step-left {s} v (unheard on all q c) inner = rw c (ground arith)
Step-left {s} v (dozed i at p q c) inner =
    rw c (omega (arith, total-set steps_of s.workers i asleep at))
Step-left {s} v (began i m r at p q c) inner =
    rw c (omega (arith, take-some-count v.ring p, total-set steps_of s.workers i (busy m) at))
Step-left {s} v (ended i m at b q c) inner =
    rw c (omega (arith, total-set steps_of s.workers i ready at))
Step-left {s} v (died i m on at b q c) inner = rw c (ground arith)

pub Run-left :
    {h : Host} {s t : Receiver} {es : List Event}
    → IsSound s
    → Run h s es t
    → All IsInner es
    → length es + left t ≤ left s
Run-left v here inner = omega arith
Run-left {s} {t} v (next {t = u} {e = e} {es = es} mv k r) inner = omega (
  arith,
  Step-left v (step-Step _ mv k) inner.0,
  Run-left (Step-IsSound (step-Step _ mv k) v) r inner.1,
)

-- Some worker or `Signal` can make a step.
abbrev pub CanMove : Host → Receiver → Type 0
CanMove h s = (mv : Move) × (t : Receiver) × (e : Event) × (step h mv s ≡ some (t, e)) × IsInner e

sleeper : (ws : List Worker) → none_asleep ws ≡ false → (i : ℕ) × (worker_at ws i ≡ some asleep)
sleeper [] h = cc
sleeper (asleep ∷ ws) h = (0, refl)
sleeper (ready ∷ ws) h = let (i, at) = sleeper ws h in (suc i, at)
sleeper (busy m ∷ ws) h = let (i, at) = sleeper ws h in (suc i, at)

waker :
    (ws : List Worker)
    → total awake ws ≢ 0
    → (i : ℕ) × (w : Worker) × (worker_at ws i ≡ some w) × (awake w ≡ 1)
waker [] h = absurd (omega arith)
waker (asleep ∷ ws) h = let (i, w, at, up) = waker ws (omega arith) in (suc i, w, at, up)
waker (ready ∷ ws) h = (0, ready, refl, refl)
waker (busy m ∷ ws) h = (0, busy m, refl, refl)

none_awake-steps_of : (ws : List Worker) → total awake ws ≡ 0 → total steps_of ws ≡ 0
none_awake-steps_of [] h = refl
none_awake-steps_of (asleep ∷ ws) h = omega (arith, none_awake-steps_of ws)
none_awake-steps_of (ready ∷ ws) h = absurd (omega arith)
none_awake-steps_of (busy m ∷ ws) h = absurd (omega arith)

tested-IsInner : (i : ℕ) (s : Receiver) (r : Option (Message × Ring)) → IsInner (tested i s r).1
unfolding tested
tested-IsInner i s none = tt
tested-IsInner i s (some (m, r)) = tt

processed-IsInner : (i : ℕ) (m : Message) (b : Bool) (s : Receiver) → IsInner (processed i m b s).1
unfolding processed
processed-IsInner i m true s = tt
processed-IsInner i m false s = tt

module _ (h : Host) where
  awake-CanMove :
      (s : Receiver) (i : ℕ) (w : Worker)
      → s.running ≡ true
      → worker_at s.workers i ≡ some w
      → awake w ≡ 1
      → CanMove h s
  unfolding step move test_ring end_processing
  awake-CanMove s i asleep run at up = absurd (omega arith)
  awake-CanMove s i ready run at up =
      let now = tested i s (take s.ring) in
      (test i, now.0, now.1, rw (run, at) refl, tested-IsInner i s (take s.ring))
  awake-CanMove s i (busy m) run at up =
      let b = outcome_panics (process_message h m).0 in
      let now = processed i m b s in
      (finish i, now.0, now.1, rw (run, at) refl, processed-IsInner i m b s)

  signal-CanMove : (s : Receiver) → s.running ≡ true → s.signal ≡ true → CanMove h s
  unfolding step move wake_worker
  signal-CanMove s run on = elim (Bool-cases (none_asleep s.workers)) [
    | inl all ↦ (wake_none, record s { signal = false }, woken, rw (run, on, all) refl, tt)
    | inr some_sleep ↦
        let (i, at) = sleeper s.workers some_sleep in
        (
          wake i,
          with_worker i ready (record s { signal = false }),
          woken,
          rw (run, on, at) refl,
          tt,
        )
  ]

  -- A sound state of the running program that has work left is not stuck.
  pub work-CanMove : {s : Receiver} → IsSound s → s.running ≡ true → work s ≢ 0 → CanMove h s
  work-CanMove {s} v run more = elim (Bool-cases s.signal) [
    | inl on ↦ signal-CanMove s run on
    | inr off ↦ elim (Bool-cases (total awake s.workers == 0)) [
      | inl none_awake ↦ absurd (more (ground (arith, v.attended, none_awake-steps_of s.workers)))
      | inr some_awake ↦
          let (i, w, at, up) = waker s.workers (ground arith) in awake-CanMove s i w run at up
    ]
  ]
