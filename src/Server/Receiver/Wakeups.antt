-- ===== src/Server/Receiver/Wakeups.antt =====
-- That no message waits while every worker sleeps, and what is left to do for the workers.
use gpu_over_ip_capnp.Base.{
  ℕ, zero, suc, ◌+◌, ◌*◌, ◌<◌, ◌≤◌, ◌≡◌, refl, sym, ap, subst, Bool, true, some, List, [], ◌∷◌,
  if◌then◌else◌, set, length, length-set, arith,
}
use gpu_over_ip_capnp.Numa.{Host}
use gpu_over_ip_capnp.Server.Ring.{
  Ring, new_ring, IsValid, ring_size, new_ring-IsValid, put-IsValid, take-IsValid,
}
use gpu_over_ip_capnp.Server.Ring.Fifo.{count, take-none-count, take-some-count}
use gpu_over_ip_capnp.Server.Receiver.Cases.{
  Step, missed, refused, queued, woke, unheard, dozed, began, ended, died, step-Step,
}
use gpu_over_ip_capnp.Server.Receiver.{
  Worker, ready, asleep, busy, Receiver, Event, worker_at, none_asleep, started_receiver, Run, here,
  next,
}

-- A measure of the workers, added up.
abbrev pub total : (Worker → ℕ) → List Worker → ℕ
total f [] = 0
total f (w ∷ ws) = f w + total f ws

pub total-set :
    (f : Worker → ℕ) (ws : List Worker) (i : ℕ) (v : Worker) {w : Worker}
    → worker_at ws i ≡ some w
    → total f (set ws i v) + f w ≡ total f ws + f v
total-set f [] i v h = cc
total-set f (w ∷ ws) zero v h = ground arith
total-set f (w ∷ ws) (suc i) v h = omega (arith, total-set f ws i v h)

abbrev pub awake : Worker → ℕ
awake asleep = 0
awake ready = 1
awake (busy m) = 1

none_asleep-awake : (ws : List Worker) → none_asleep ws ≡ true → total awake ws ≡ length ws
none_asleep-awake [] h = refl
none_asleep-awake (asleep ∷ ws) h = cc
none_asleep-awake (ready ∷ ws) h = omega (arith, none_asleep-awake ws h)
none_asleep-awake (busy m ∷ ws) h = omega (arith, none_asleep-awake ws h)

abbrev pub signals : Receiver → ℕ
signals s = if s.signal then 1 else 0

-- Where messages wait, a worker is awake or is about to be signalled.
pub record IsSound (s : Receiver) : Type 0 where
  pub ring : IsValid s.ring
  pub staffed : 0 < length s.workers
  pub attended : count s.ring ≤ ring_size * (total awake s.workers + signals s)

pub started_receiver-IsSound : IsSound started_receiver
unfolding started_receiver new_ring
started_receiver-IsSound = record {
  ring = new_ring-IsValid;
  staffed = omega arith;
  attended = omega arith;
}

-- A worker changes, and with it the ring or the signal.
with_worker-IsSound :
    {s t : Receiver} (i : ℕ) (w : Worker) {w' : Worker}
    → IsSound s
    → worker_at s.workers i ≡ some w'
    → t.workers ≡ set s.workers i w
    → IsValid t.ring
    → count t.ring + ring_size * (awake w' + signals s)
      ≤ count s.ring + ring_size * (awake w + signals t)
    → IsSound t
with_worker-IsSound {s} i w v at ws h more = record {
  ring = h;
  staffed = rw ws (rw (length-set s.workers i w) v.staffed);
  attended = rw ws (omega (arith, total-set awake s.workers i w at, v.attended));
}

module _ {h : Host} where
  pub Step-IsSound : {s t : Receiver} {e : Event} → Step h s e t → IsSound s → IsSound t
  Step-IsSound (missed q c) v = subst IsSound (sym c) v
  Step-IsSound (refused m q c) v = subst IsSound (sym c) v
  Step-IsSound (queued m r p q c) v =
      let room : IsValid r =
        subst IsValid (ap (λ (x : Bool × Ring). x.1) p) (put-IsValid m v.ring) in
      subst IsSound (sym c) (record { ring = room; staffed = v.staffed; attended = omega arith })
  Step-IsSound {t} (woke i on at q c) v =
      with_worker-IsSound {t = t} i ready v at (cc) (rw c v.ring) (rw c (ground arith))
  Step-IsSound {s} (unheard on all q c) v = subst IsSound (sym c) (record {
    ring = v.ring;
    staffed = v.staffed;
    attended = omega (arith, v.staffed, none_asleep-awake s.workers all);
  })
  Step-IsSound {s} (dozed i at p q c) v = subst IsSound (sym c) (record {
    ring = v.ring;
    staffed = rw (length-set s.workers i asleep) v.staffed;
    attended = omega (arith, take-none-count v.ring p);
  })
  Step-IsSound {t} (began i m r at p q c) v =
      with_worker-IsSound {t = t} i (busy m) v at (cc) (rw c (take-IsValid v.ring p))
        (rw c (omega (arith, take-some-count v.ring p)))
  Step-IsSound {t} (ended i m at b q c) v =
      with_worker-IsSound {t = t} i ready v at (cc) (rw c v.ring) (rw c (omega arith))
  Step-IsSound (died i m on at b q c) v =
      subst IsSound (sym c) (record { ring = v.ring; staffed = v.staffed; attended = v.attended })

  pub Run-IsSound : {s t : Receiver} {es : List Event} → Run h s es t → IsSound s → IsSound t
  Run-IsSound here v = v
  Run-IsSound (next mv k r) v = Run-IsSound r (Step-IsSound (step-Step h mv k) v)
