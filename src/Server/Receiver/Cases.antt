-- ===== src/Server/Receiver/Cases.antt =====
-- The moves of `Receiver` as a relation: each case with the tests that lead to it.
use gpu_over_ip_capnp.Base.{
  ℕ, ◌≡◌, refl, Bool, true, false, Option, none, some, ltb, length, arith, Bool-cases, inl, inr,
}
use gpu_over_ip_capnp.Numa.{Host}
use gpu_over_ip_capnp.Server.Messages.{process_message}
use gpu_over_ip_capnp.Server.Messages.Panics.{outcome_panics}
use gpu_over_ip_capnp.Server.Ring.{Message, Ring, put, take}
use gpu_over_ip_capnp.Server.Receiver.{
  Worker, ready, asleep, busy, Receiver, Move, receive, wake, wake_none, test, finish, Event,
  failed, woken, slept, dropped, accepted, started, finished, crashed, receive_round, worker_at,
  none_asleep, wake_worker, test_ring, end_processing, processed, move, step, enqueued, tested,
  with_worker, buffer_room,
}

pub data Step (h : Host) (s : Receiver) (e : Event) (t : Receiver) : Type 0 where
  missed : e ≡ failed → t ≡ s → Step h s e t
  refused : (m : Message) → e ≡ dropped m → t ≡ s → Step h s e t
  queued :
      (m : Message) (r : Ring)
      → put m s.ring ≡ (true, r)
      → e ≡ accepted m
      → t ≡ record s { ring = r; signal = true }
      → Step h s e t
  woke :
      (i : ℕ)
      → s.signal ≡ true
      → worker_at s.workers i ≡ some asleep
      → e ≡ woken
      → t ≡ with_worker i ready (record s { signal = false })
      → Step h s e t
  unheard :
      s.signal ≡ true
      → none_asleep s.workers ≡ true
      → e ≡ woken
      → t ≡ record s { signal = false }
      → Step h s e t
  dozed :
      (i : ℕ)
      → worker_at s.workers i ≡ some ready
      → take s.ring ≡ none
      → e ≡ slept
      → t ≡ with_worker i asleep s
      → Step h s e t
  began :
      (i : ℕ) (m : Message) (r : Ring)
      → worker_at s.workers i ≡ some ready
      → take s.ring ≡ some (m, r)
      → e ≡ started m
      → t ≡ with_worker i (busy m) (record s { ring = r })
      → Step h s e t
  ended :
      (i : ℕ) (m : Message)
      → worker_at s.workers i ≡ some (busy m)
      → outcome_panics (process_message h m).0 ≡ false
      → e ≡ finished m
      → t ≡ with_worker i ready s
      → Step h s e t
  died :
      (i : ℕ) (m : Message)
      → s.running ≡ true
      → worker_at s.workers i ≡ some (busy m)
      → outcome_panics (process_message h m).0 ≡ true
      → e ≡ crashed m
      → t ≡ record s { running = false }
      → Step h s e t

module _ (h : Host) where
  received-Step :
      (m : Message) {s t : Receiver} {e : Event} (p : Bool × Ring)
      → put m s.ring ≡ p
      → enqueued m s p ≡ (t, e)
      → Step h s e t
  received-Step m (true, r) q k = queued m r q (cc) (cc)
  received-Step m (false, r) q k = refused m (cc) (cc)

  receive_round-Step :
      (room : ℕ) (m : Option Message) {s t : Receiver} {e : Event}
      → receive_round room m s ≡ (t, e)
      → Step h s e t
  unfolding receive_round
  receive_round-Step room none k = missed (cc) (cc)
  receive_round-Step room (some m) {s} k = elim (Bool-cases (ltb (buffer_room room) (length m))) [
    | inl large ↦ refused m (ground arith) (ground arith)
    | inr fits ↦ received-Step m (put m s.ring) refl (ground arith)
  ]

  wake_worker-Step :
      (i : ℕ) (w : Option Worker) {s t : Receiver} {e : Event}
      → s.signal ≡ true
      → worker_at s.workers i ≡ w
      → wake_worker i w s ≡ some (t, e)
      → Step h s e t
  unfolding wake_worker
  wake_worker-Step i (some asleep) on at k = woke i on at (cc) (cc)
  wake_worker-Step i (some ready) on at k = cc
  wake_worker-Step i (some (busy m)) on at k = cc
  wake_worker-Step i none on at k = cc

  tested-Step :
      (i : ℕ) {s t : Receiver} {e : Event} (r : Option (Message × Ring))
      → worker_at s.workers i ≡ some ready
      → take s.ring ≡ r
      → tested i s r ≡ (t, e)
      → Step h s e t
  unfolding tested
  tested-Step i none at q k = dozed i at q (cc) (cc)
  tested-Step i (some (m, r)) at q k = began i m r at q (cc) (cc)

  test_ring-Step :
      (i : ℕ) (w : Option Worker) {s t : Receiver} {e : Event}
      → worker_at s.workers i ≡ w
      → test_ring i w s ≡ some (t, e)
      → Step h s e t
  unfolding test_ring
  test_ring-Step i (some ready) {s} at k = tested-Step i (take s.ring) at refl (cc)
  test_ring-Step i (some asleep) at k = cc
  test_ring-Step i (some (busy m)) at k = cc
  test_ring-Step i none at k = cc

  processed-Step :
      (i : ℕ) (m : Message) (b : Bool) {s t : Receiver} {e : Event}
      → s.running ≡ true
      → worker_at s.workers i ≡ some (busy m)
      → outcome_panics (process_message h m).0 ≡ b
      → processed i m b s ≡ (t, e)
      → Step h s e t
  unfolding processed
  processed-Step i m true on at b k = died i m on at b (cc) (cc)
  processed-Step i m false on at b k = ended i m at b (cc) (cc)

  end_processing-Step :
      (i : ℕ) (w : Option Worker) {s t : Receiver} {e : Event}
      → s.running ≡ true
      → worker_at s.workers i ≡ w
      → end_processing h i w s ≡ some (t, e)
      → Step h s e t
  unfolding end_processing
  end_processing-Step i (some (busy m)) on at k =
      processed-Step i m (outcome_panics (process_message h m).0) on at refl (cc)
  end_processing-Step i (some ready) on at k = cc
  end_processing-Step i (some asleep) on at k = cc
  end_processing-Step i none on at k = cc

  move-Step :
      (mv : Move) {s t : Receiver} {e : Event}
      → s.running ≡ true
      → move h mv s ≡ some (t, e)
      → Step h s e t
  unfolding move
  move-Step (receive room m) {s} {t} {e} run k = elim (Bool-cases s.signal) [
    | inl on ↦ absurd (ground arith)
    | inr off ↦ receive_round-Step room m {s = s} {t = t} {e = e} (ground arith)
  ]
  move-Step (wake i) {s} {t} {e} run k = elim (Bool-cases s.signal) [
    | inl on ↦
        wake_worker-Step i (worker_at s.workers i) {s = s} {t = t} {e = e} on refl (ground arith)
    | inr off ↦ absurd (ground arith)
  ]
  move-Step wake_none {s} run k = elim (Bool-cases s.signal) [
    | inl on ↦ elim (Bool-cases (none_asleep s.workers)) [
      | inl all ↦ unheard on all (ground arith) (ground arith)
      | inr some_sleep ↦ absurd (ground arith)
    ]
    | inr off ↦ absurd (ground arith)
  ]
  move-Step (test i) {s} run k = test_ring-Step i (worker_at s.workers i) refl k
  move-Step (finish i) {s} run k = end_processing-Step i (worker_at s.workers i) run refl k

  pub step-Step :
      (mv : Move) {s t : Receiver} {e : Event} → step h mv s ≡ some (t, e) → Step h s e t
  unfolding step
  step-Step mv {s} {t} {e} k = elim (Bool-cases s.running) [
    | inl run ↦ move-Step mv {s = s} {t = t} {e = e} run (ground arith)
    | inr ended_program ↦ absurd (ground arith)
  ]
