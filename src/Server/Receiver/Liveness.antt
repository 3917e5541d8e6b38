-- ===== src/Server/Receiver/Liveness.antt =====
-- That the workers finish what the receive loop accepted, unless a message ends the program.
use gpu_over_ip_capnp.Base.{
  ℕ, zero, suc, ◌<◌, ◌≤◌, ◌≡◌, ◌≢◌, refl, sym, ap, subst, ◌∙◌, Bool, true, false, some, List, [],
  ◌∷◌, ◌++◌, append_assoc, append-nil, ◌==◌, length, arith, Bool-cases, ◌⊎◌, inl, inr, All,
}
use gpu_over_ip_capnp.Numa.{Host}
use gpu_over_ip_capnp.Server.Messages.{process_message}
use gpu_over_ip_capnp.Server.Messages.Panics.{outcome_panics}
use gpu_over_ip_capnp.Server.Ring.{Message}
use gpu_over_ip_capnp.Server.Ring.Fifo.{contents, count, length-contents}
use gpu_over_ip_capnp.Server.Receiver.Cases.{
  Step, missed, refused, queued, woke, unheard, dozed, began, ended, died, step-Step,
}
use gpu_over_ip_capnp.Server.Receiver.{
  Worker, ready, asleep, busy, Receiver, Event, failed, woken, slept, dropped, accepted, started,
  finished, crashed, worker_at, step, started_receiver, Run, here, next,
}
use gpu_over_ip_capnp.Server.Receiver.Wakeups.{total, Run-IsSound, started_receiver-IsSound}
use gpu_over_ip_capnp.Server.Receiver.Delivery.{
  accepted_by, started_by, finished_by, messages, tally, held, started_in_order, Run-tally,
  tally-append,
}
use gpu_over_ip_capnp.Server.Receiver.Progress.{
  IsInner, steps_of, work, left, Run-left, CanMove, work-CanMove,
}

held-none : (p : Message → Bool) (ws : List Worker) → total steps_of ws ≡ 0 → total (held p) ws ≡ 0
held-none p [] e = refl
held-none p (asleep ∷ ws) e = omega (arith, held-none p ws)
held-none p (ready ∷ ws) e = absurd (omega arith)
held-none p (busy m ∷ ws) e = absurd (omega arith)

held-some :
    (p : Message → Bool) (ws : List Worker) (i : ℕ) {m : Message}
    → worker_at ws i ≡ some (busy m)
    → p m ≡ true
    → 0 < total (held p) ws
held-some p [] i at b = cc
held-some p (w ∷ ws) zero at b = ground arith
held-some p (w ∷ ws) (suc i) at b = omega (arith, held-some p ws i at b)

contents-none : (s : Receiver) → count s.ring ≡ 0 → contents s.ring ≡ []
contents-none s e = empty (contents s.ring) (length-contents s.ring ∙ e)
  where
    empty : (q : List Message) → length q ≡ 0 → q ≡ []
    empty [] e = refl
    empty (m ∷ q) e = absurd (omega arith)

started-held : (p : Message → Bool) → total (held p) started_receiver.workers ≡ 0
unfolding started_receiver
started-held p = omega arith

started-running : started_receiver.running ≡ true
unfolding started_receiver
started-running = refl

-- The message panics where it is processed.
abbrev pub panicking : Host → Message → Bool
panicking h m = outcome_panics (process_message h m).0

messages-append :
    (f : Event → List Message) (es fs : List Event)
    → messages f (es ++ fs) ≡ messages f es ++ messages f fs
messages-append f [] fs = refl
messages-append f (e ∷ es) fs =
    ap (λ q. f e ++ q) (messages-append f es fs)
    ∙ sym (append_assoc (f e) (messages f es) (messages f fs))

inner-accepted : (es : List Event) → All IsInner es → messages accepted_by es ≡ []
inner-accepted [] i = refl
inner-accepted (failed ∷ es) i = absurd i.0
inner-accepted (dropped m ∷ es) i = absurd i.0
inner-accepted (accepted m ∷ es) i = absurd i.0
inner-accepted (woken ∷ es) i = inner-accepted es i.1
inner-accepted (slept ∷ es) i = inner-accepted es i.1
inner-accepted (started m ∷ es) i = inner-accepted es i.1
inner-accepted (finished m ∷ es) i = inner-accepted es i.1
inner-accepted (crashed m ∷ es) i = inner-accepted es i.1

append-accepted :
    (es fs : List Event)
    → All IsInner fs
    → messages accepted_by es ≡ messages accepted_by (es ++ fs)
append-accepted es fs inner =
    sym (append-nil (messages accepted_by es))
    ∙ ap (λ ms. messages accepted_by es ++ ms) (sym (inner-accepted fs inner))
    ∙ sym (messages-append accepted_by es fs)

module _ {h : Host} where
  Run-append :
      {s t u : Receiver} {es fs : List Event} → Run h s es t → Run h t fs u → Run h s (es ++ fs) u
  Run-append here q = q
  Run-append (next mv k r) q = next mv k (Run-append r q)

  -- Where no work is left, all that was accepted since the start is finished.
  done-tally :
      (p : Message → Bool) {t : Receiver} {es : List Event}
      → Run h started_receiver es t
      → work t ≡ 0
      → tally p (messages accepted_by es) ≡ tally p (messages finished_by es)
  done-tally p {t} {es} r none_left =
      let order : messages accepted_by es ≡ messages started_by es =
        started_in_order r
        ∙ ap (λ q. messages started_by es ++ q) (contents-none t (omega arith))
        ∙ append-nil (messages started_by es) in
      rw order (omega (arith, Run-tally p r, started-held p, held-none p t.workers (omega arith)))

  -- The program that has ended makes no step.
  ended-Run : {s t : Receiver} {es : List Event} → s.running ≡ false → Run h s es t → t ≡ s
  unfolding step
  ended-Run off here = refl
  ended-Run off (next mv k r) = absurd (ground arith)

  Step-crashes :
      {s t : Receiver} {e : Event}
      → Step h s e t
      → s.running ≡ true
      → t.running ≡ false
      → 0 < total (held (panicking h)) t.workers
  Step-crashes (missed q c) on off = cc
  Step-crashes (refused m q c) on off = cc
  Step-crashes (queued m r p q c) on off = cc
  Step-crashes (woke i sig at q c) on off = cc
  Step-crashes (unheard sig all q c) on off = cc
  Step-crashes (dozed i at p q c) on off = cc
  Step-crashes (began i m r at p q c) on off = cc
  Step-crashes (ended i m at b q c) on off = cc
  Step-crashes {s} (died i m run at b q c) on off = rw c (held-some (panicking h) s.workers i at b)

  -- Where a run ends the program, a worker is left with a message that panics.
  Run-crashes :
      {s t : Receiver} {es : List Event}
      → Run h s es t
      → s.running ≡ true
      → t.running ≡ false
      → 0 < total (held (panicking h)) t.workers
  Run-crashes here on off = cc
  Run-crashes (next {t = u} mv k r) on off = elim (Bool-cases u.running) [
    | inl still ↦ Run-crashes r still off
    | inr over ↦
        subst (λ v. 0 < total (held (panicking h)) v.workers) (sym (ended-Run over r))
          (Step-crashes (step-Step h mv k) on over)
  ]

  -- The program ends only on an accepted message that panics.
  ended-accepted :
      {t : Receiver} {es : List Event}
      → Run h started_receiver es t
      → t.running ≡ false
      → tally (panicking h) (messages accepted_by es) ≢ 0
  ended-accepted {t} {es} r off = rw (started_in_order r) (λ e. absurd (
      omega (
        arith,
        e,
        tally-append (panicking h) (messages started_by es) (contents t.ring),
        Run-tally (panicking h) r,
        started-held (panicking h),
        Run-crashes r started-running off,
      )))

  -- However the receive loop and the workers interleaved from the start, moves of the workers and
  -- of `Signal` alone go on for no more than `left` steps. Where none of them can be made any more,
  -- either every message that was accepted has been finished as often as it was accepted, or the
  -- program has ended and one of the messages that were accepted panics where it is processed.
  pub served :
      {s t : Receiver} {es fs : List Event}
      → Run h started_receiver es s
      → Run h s fs t
      → All IsInner fs
      → (length fs ≤ left s)
        × (CanMove h t
            ⊎ ((p : Message → Bool)
                → tally p (messages accepted_by es) ≡ tally p (messages finished_by (es ++ fs)))
            ⊎ ((t.running ≡ false) × (tally (panicking h) (messages accepted_by es) ≢ 0)))
  served {s} {t} {es} {fs} r q inner = (
    omega (arith, Run-left (Run-IsSound r started_receiver-IsSound) q inner),
    elim (Bool-cases t.running) [
      | inl on ↦ elim (Bool-cases (work t == 0)) [
        | inl done ↦ inr (
            inl λ p.
              ap (tally p) (append-accepted es fs inner)
              ∙ done-tally p (Run-append r q) (ground arith))
        | inr more ↦ inl (
            work-CanMove h (Run-IsSound q (Run-IsSound r started_receiver-IsSound)) on
              (ground arith))
      ]
      | inr off ↦
          inr (inr (off, rw (append-accepted es fs inner) (ended-accepted (Run-append r q) off)))
    ],
  )
