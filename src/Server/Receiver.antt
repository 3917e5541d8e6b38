-- ===== src/Server/Receiver.antt =====
-- The receive loop of `StartZMQReceiver` and its workers, cut where the mutex is released. A run is
-- any interleaving of their moves. `room` is the capacity of the buffer that the pool gave, and
-- `none` a receive that failed. A worker that `Wait` put to sleep goes on when `Signal` chooses it,
-- and `Signal` is a step of its own, after the mutex is unlocked. A panic while a message is
-- processed ends the program: `running` is false then, and no move is left.
pub mod Cases
pub mod Wakeups
pub mod Delivery
pub mod Progress
pub mod Liveness
use gpu_over_ip_capnp.Base.{
  ℕ, zero, suc, ◌+◌, ◌≡◌, Bool, true, false, Option, none, some, List, [], ◌∷◌, if◌then◌else◌, ltb,
  set, replicate, length,
}
use gpu_over_ip_capnp.Numa.{Host}
use gpu_over_ip_capnp.Server.Messages.{process_message}
use gpu_over_ip_capnp.Server.Messages.Panics.{outcome_panics}
use gpu_over_ip_capnp.Server.Ring.{Message, Ring, new_ring, put, take}

-- `ready` is before the test of the ring, `busy` in `processMessage`.
pub data Worker : Type 0 where
  ready asleep : Worker
  busy : Message → Worker

-- `running` is whether the program has not ended; `signal` is set from an unlock of the receive loop to its `Signal`.
pub record Receiver : Type 0 where
  pub ring : Ring
  pub workers : List Worker
  pub signal : Bool
  pub running : Bool

unfoldable pub started_receiver : Receiver
unfolding new_ring
started_receiver = record {
  ring = new_ring;
  workers = replicate 4 ready;
  signal = false;
  running = true;
}

pub data Move : Type 0 where
  receive : ℕ → Option Message → Move
  wake : ℕ → Move
  wake_none : Move
  test finish : ℕ → Move

pub data Event : Type 0 where
  failed woken slept : Event
  dropped accepted started finished crashed : Message → Event

abbrev pub buffer_size : ℕ
buffer_size = 4096

-- The capacity of the buffer of a round.
pub buffer_room : ℕ → ℕ
buffer_room room = if ltb room buffer_size then buffer_size else room

abbrev pub enqueued : Message → Receiver → Bool × Ring → Receiver × Event
enqueued m s (true, r) = (record s { ring = r; signal = true }, accepted m)
enqueued m s (false, r) = (s, dropped m)

-- One round of the receive loop, up to its `Signal`.
pub receive_round : ℕ → Option Message → Receiver → Receiver × Event
receive_round room none s = (s, failed)
receive_round room (some m) s =
    if ltb (buffer_room room) (length m) then (s, dropped m) else enqueued m s (put m s.ring)

abbrev pub worker_at : List Worker → ℕ → Option Worker
worker_at [] i = none
worker_at (w ∷ ws) zero = some w
worker_at (w ∷ ws) (suc i) = worker_at ws i

abbrev pub none_asleep : List Worker → Bool
none_asleep [] = true
none_asleep (asleep ∷ ws) = false
none_asleep (ready ∷ ws) = none_asleep ws
none_asleep (busy m ∷ ws) = none_asleep ws

abbrev pub with_worker : ℕ → Worker → Receiver → Receiver
with_worker i w s = record s { workers = set s.workers i w }

-- `Signal` wakes a worker that waits.
pub wake_worker : ℕ → Option Worker → Receiver → Option (Receiver × Event)
wake_worker i (some asleep) s = some (with_worker i ready (record s { signal = false }), woken)
wake_worker i (some ready) s = none
wake_worker i (some (busy m)) s = none
wake_worker i none s = none

-- The test of the ring, with the take where it holds a message.
pub tested : ℕ → Receiver → Option (Message × Ring) → Receiver × Event
tested i s none = (with_worker i asleep s, slept)
tested i s (some (m, r)) = (with_worker i (busy m) (record s { ring = r }), started m)

pub test_ring : ℕ → Option Worker → Receiver → Option (Receiver × Event)
unfolding tested
test_ring i (some ready) s = some (tested i s (take s.ring))
test_ring i (some asleep) s = none
test_ring i (some (busy m)) s = none
test_ring i none s = none

-- The end of `processMessage`, by whether it panicked.
pub processed : ℕ → Message → Bool → Receiver → Receiver × Event
processed i m true s = (record s { running = false }, crashed m)
processed i m false s = (with_worker i ready s, finished m)

module _ (h : Host) where
  pub end_processing : ℕ → Option Worker → Receiver → Option (Receiver × Event)
  unfolding processed
  end_processing i (some (busy m)) s =
      some (processed i m (outcome_panics (process_message h m).0) s)
  end_processing i (some ready) s = none
  end_processing i (some asleep) s = none
  end_processing i none s = none

  -- A move of the running program, where it is possible.
  pub move : Move → Receiver → Option (Receiver × Event)
  unfolding receive_round buffer_room put take wake_worker test_ring tested end_processing
  move (receive room m) s = if s.signal then none else some (receive_round room m s)
  move (wake i) s = if s.signal then wake_worker i (worker_at s.workers i) s else none
  move wake_none s =
      if s.signal
      then (if none_asleep s.workers then some (record s { signal = false }, woken) else none)
      else none
  move (test i) s = test_ring i (worker_at s.workers i) s
  move (finish i) s = end_processing i (worker_at s.workers i) s

  unfoldable pub step : Move → Receiver → Option (Receiver × Event)
  unfolding move
  step mv s = if s.running then move mv s else none

  pub data Run : Receiver → List Event → Receiver → Type 0 where
    here : {s : Receiver} → Run s [] s
    next :
        {s t u : Receiver} {e : Event} {es : List Event} (mv : Move)
        → step mv s ≡ some (t, e)
        → Run t es u
        → Run s (e ∷ es) u
