-- ===== src/Server/Receiver/Delivery.antt =====
-- What becomes of the messages that the receive loop accepted: their order and their number.
use gpu_over_ip_capnp.Base.{
  ℕ, ◌+◌, ◌≡◌, refl, sym, ap, ◌∙◌, Bool, List, [], ◌∷◌, ◌++◌, append_assoc, append-nil,
  if◌then◌else◌, arith,
}
use gpu_over_ip_capnp.Numa.{Host}
use gpu_over_ip_capnp.Server.Ring.{Message, new_ring}
use gpu_over_ip_capnp.Server.Ring.Fifo.{contents, put-true-contents, take-some-contents}
use gpu_over_ip_capnp.Server.Receiver.Cases.{
  Step, missed, refused, queued, woke, unheard, dozed, began, ended, died, step-Step,
}
use gpu_over_ip_capnp.Server.Receiver.{
  Worker, ready, asleep, busy, Receiver, Event, failed, woken, slept, dropped, accepted, started,
  finished, crashed, started_receiver, Run, here, next,
}
use gpu_over_ip_capnp.Server.Receiver.Wakeups.{
  total, total-set, IsSound, Step-IsSound, started_receiver-IsSound,
}

-- The messages of the events of one kind, in order.
abbrev pub accepted_by : Event → List Message
accepted_by (accepted m) = m ∷ []
accepted_by failed = []
accepted_by woken = []
accepted_by slept = []
accepted_by (dropped m) = []
accepted_by (crashed m) = []
accepted_by (started m) = []
accepted_by (finished m) = []

abbrev pub started_by : Event → List Message
started_by (started m) = m ∷ []
started_by failed = []
started_by woken = []
started_by slept = []
started_by (dropped m) = []
started_by (crashed m) = []
started_by (accepted m) = []
started_by (finished m) = []

abbrev pub finished_by : Event → List Message
finished_by (finished m) = m ∷ []
finished_by failed = []
finished_by woken = []
finished_by slept = []
finished_by (dropped m) = []
finished_by (crashed m) = []
finished_by (accepted m) = []
finished_by (started m) = []

abbrev pub messages : (Event → List Message) → List Event → List Message
messages f [] = []
messages f (e ∷ es) = f e ++ messages f es

Step-order :
    {h : Host} {s t : Receiver} {e : Event}
    → IsSound s
    → Step h s e t
    → contents s.ring ++ accepted_by e ≡ started_by e ++ contents t.ring
Step-order v (missed q c) = rw (q, c) (append-nil _)
Step-order v (refused m q c) = rw (q, c) (append-nil _)
Step-order v (queued m r p q c) = rw (q, c) (sym (put-true-contents m v.ring p))
Step-order v (woke i on at q c) = rw (q, c) (append-nil _)
Step-order v (unheard on all q c) = rw (q, c) (append-nil _)
Step-order v (dozed i at p q c) = rw (q, c) (append-nil _)
Step-order v (began i m r at p q c) = rw (q, c) (append-nil _ ∙ take-some-contents v.ring p)
Step-order v (ended i m at b q c) = rw (q, c) (append-nil _)
Step-order v (died i m on at b q c) = rw (q, c) (append-nil _)

-- In any run, the messages that the workers start are those that waited and then those that the
-- receive loop accepted, in that order, up to those that still wait.
Run-order :
    {h : Host} {s t : Receiver} {es : List Event}
    → IsSound s
    → Run h s es t
    → contents s.ring ++ messages accepted_by es ≡ messages started_by es ++ contents t.ring
Run-order v here = append-nil _
Run-order {s} {t} v (next {t = u} {e = e} {es = es} mv k r) =
    sym (append_assoc (contents s.ring) (accepted_by e) (messages accepted_by es))
    ∙ ap (λ q. q ++ messages accepted_by es) (Step-order v (step-Step _ mv k))
    ∙ append_assoc (started_by e) (contents u.ring) (messages accepted_by es)
    ∙ ap (λ q. started_by e ++ q) (Run-order (Step-IsSound (step-Step _ mv k) v) r)
    ∙ sym (append_assoc (started_by e) (messages started_by es) (contents t.ring))

-- How many of the messages have a property.
abbrev pub tally : (Message → Bool) → List Message → ℕ
tally p [] = 0
tally p (m ∷ ms) = (if p m then 1 else 0) + tally p ms

abbrev pub held : (Message → Bool) → Worker → ℕ
held p ready = 0
held p asleep = 0
held p (busy m) = if p m then 1 else 0

pub tally-append :
    (p : Message → Bool) (ms ns : List Message) → tally p (ms ++ ns) ≡ tally p ms + tally p ns
tally-append p [] ns = omega arith
tally-append p (m ∷ ms) ns = omega (arith, tally-append p ms ns)

Step-tally :
    {h : Host} (p : Message → Bool) {s t : Receiver} {e : Event}
    → Step h s e t
    → total (held p) s.workers + tally p (started_by e)
      ≡ tally p (finished_by e) + total (held p) t.workers
Step-tally p (missed q c) = rw (q, c) (omega arith)
Step-tally p (refused m q c) = rw (q, c) (omega arith)
Step-tally p (queued m r _ q c) = rw (q, c) (omega arith)
Step-tally p {s} (woke i on at q c) =
    rw (q, c) (omega (arith, total-set (held p) s.workers i ready at))
Step-tally p (unheard on all q c) = rw (q, c) (omega arith)
Step-tally p {s} (dozed i at _ q c) =
    rw (q, c) (omega (arith, total-set (held p) s.workers i asleep at))
Step-tally p {s} (began i m r at _ q c) =
    rw (q, c) (omega (arith, total-set (held p) s.workers i (busy m) at))
Step-tally p {s} (ended i m at b q c) =
    rw (q, c) (omega (arith, total-set (held p) s.workers i ready at))
Step-tally p (died i m on at b q c) = rw (q, c) (omega arith)

-- In any run, the messages that were started or already held are those that were finished or are
-- still held, each as often.
pub Run-tally :
    {h : Host} (p : Message → Bool) {s t : Receiver} {es : List Event}
    → Run h s es t
    → total (held p) s.workers + tally p (messages started_by es)
      ≡ tally p (messages finished_by es) + total (held p) t.workers
Run-tally p here = omega arith
Run-tally p (next {e} {es} mv k r) = omega (
  arith,
  Step-tally p (step-Step _ mv k),
  Run-tally p r,
  tally-append p (started_by e) (messages started_by es),
  tally-append p (finished_by e) (messages finished_by es),
)

started_receiver-contents : contents started_receiver.ring ≡ []
unfolding started_receiver new_ring contents
started_receiver-contents = refl

-- However the receive loop and the workers interleaved from the start, the messages that the
-- workers started are the first of those that were accepted, in their order, and the others wait
-- in the ring.
pub started_in_order :
    {h : Host} {t : Receiver} {es : List Event}
    → Run h started_receiver es t
    → messages accepted_by es ≡ messages started_by es ++ contents t.ring
started_in_order {es = es} r =
    ap (λ q. q ++ messages accepted_by es) (sym started_receiver-contents)
    ∙ Run-order started_receiver-IsSound r
