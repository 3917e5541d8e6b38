-- ===== src/Server/Tests.antt =====
-- Runs of the server.
use gpu_over_ip_capnp.Base.{
  ℕ, ◌≤◌, ◌≡◌, ◌≢◌, refl, Bool, true, false, ◌&&◌, ◌⊎◌, some, List, [], ◌∷◌, ◌++◌, ltb, leb, length,
  pos, arith,
}
use gpu_over_ip_capnp.Server.Ring.{Message, new_ring, new_ring-IsValid}
use gpu_over_ip_capnp.Server.Ring.Fifo.{
  contents, Op, put_op, take_op, run_ring, run_queue, run_ring_refines,
}
use gpu_over_ip_capnp.Server.Receiver.{
  Receiver, Event, receive, test, finish, wake_none, Run, here, next, step, started_receiver,
  accepted, started, woken, finished,
}
use gpu_over_ip_capnp.Server.Receiver.Delivery.{
  messages, accepted_by, started_by, finished_by, tally, started_in_order,
}
use gpu_over_ip_capnp.Server.Receiver.Liveness.{panicking, served}
use gpu_over_ip_capnp.Server.Receiver.Progress.{left, CanMove}
use gpu_over_ip_capnp.Numa.{Host, route_memory_access}
use gpu_over_ip_capnp.Transport.Zmq.{make_packet}
use gpu_over_ip_capnp.Server.Messages.{header_size, process_message, routed}
use gpu_over_ip_capnp.Server.Messages.Frames.{frame, process-make_packet}
use gpu_over_ip_capnp.Server.Messages.Panics.{
  outcome_panics, metadata_of, is_empty_copy, process_panics,
}

abbrev hello : Message
hello = 1 ∷ 2 ∷ 3 ∷ []

abbrev ops : List Op
ops = put_op hello ∷ take_op ∷ take_op ∷ []

run_ring_refines_example : run_ring ops new_ring ≡ run_queue ops (contents new_ring)
run_ring_refines_example = run_ring_refines ops new_ring-IsValid

abbrev host : Host
host = record {
  affinity = some (true ∷ true ∷ []);
  page_status = λ a. some (pos 0);
  maps = λ offset size. ltb 0 size;
  sends = λ id cmd. true;
}

-- The message is accepted and the first worker starts it before the signal comes.
abbrev early : List Event
early = accepted hello ∷ started hello ∷ []

abbrev received : (t : Receiver) × Run host started_receiver early t
unfolding step started_receiver new_ring
received = (_, next (receive 4096 (some hello)) refl (next (test 0) refl here))

started_in_order_example :
    messages accepted_by early ≡ messages started_by early ++ contents received.0.ring
started_in_order_example = started_in_order received.1

-- The signal finds no worker asleep, and the first worker finishes the message.
abbrev late : List Event
late = woken ∷ finished hello ∷ []

abbrev served_run : (t : Receiver) × Run host received.0 late t
unfolding step started_receiver new_ring process_message
served_run = (_, next wake_none refl (next (finish 0) refl here))

served_example :
    (length late ≤ left received.0)
    × (CanMove host served_run.0
        ⊎ ((p : Message → Bool)
            → tally p (messages accepted_by early) ≡ tally p (messages finished_by (early ++ late)))
        ⊎ ((served_run.0.running ≡ false)
            × (tally (panicking host) (messages accepted_by early) ≢ 0)))
served_example = served received.1 served_run.1 (tt, (tt, tt))

-- A checksum, for the tests.
abbrev checksum : List ℕ → ℕ
checksum bytes = 77

process-make_packet_example :
    process_message host (make_packet checksum (frame 1 4096 (7 ∷ 8 ∷ []))) ≡ (
      let (answer, events) = route_memory_access host 4096 2 1 (7 ∷ 8 ∷ []) in
      (routed answer, events))
process-make_packet_example =
    process-make_packet host checksum 1 4096 (7 ∷ 8 ∷ []) (omega arith) (omega arith)

abbrev empty_copy : Message
empty_copy = frame 1 4096 []

process_panics_example :
    outcome_panics (process_message host empty_copy).0
    ≡ (leb header_size (length empty_copy) && is_empty_copy host (metadata_of empty_copy))
process_panics_example = process_panics host empty_copy
