-- ===== src/Cooling/Steps.antt =====
-- The histories of a cooling service: calls of its methods and passes of its worker, in any order.
use gpu_over_ip_capnp.Base.{ℕ, ◌≡◌, refl, true, false, Option, none, some, ℤ, arith, Map, []}
use gpu_over_ip_capnp.Float.{Float}
use gpu_over_ip_capnp.Cooling.{
  AccessRecord, CoolingService, new_service, record_access, pass, start, stop, drain,
}

module _ (f : Float) (numa_of : ℕ → ℤ) where
  pub data Step : CoolingService f → CoolingService f → Type 0 where
    accessed : (now ptr : ℕ) (s : CoolingService f) → Step s (record_access f numa_of now ptr s)
    passed : (now : ℕ) (s : CoolingService f) → s.joinable ≡ true → Step s (pass f now s)
    started : {s t : CoolingService f} → start f s ≡ some t → Step s t
    stopped : (last : Option ℕ) (s : CoolingService f) → Step s (stop f last s)

  -- What a service that was just constructed can become.
  pub data Reached : CoolingService f → Type 0 where
    fresh : Reached (new_service f)
    next : {s t : CoolingService f} → Reached s → Step s t → Reached t

  -- The worker exists exactly while the flag is set.
  pub Step-joinable :
      {s t : CoolingService f} → Step s t → s.joinable ≡ s.running → t.joinable ≡ t.running
  unfolding record_access pass start stop drain
  Step-joinable (accessed now ptr s) h = h
  Step-joinable (passed now s j) h = h
  Step-joinable (started e) h = ground arith
  Step-joinable (stopped none s) h = ground arith
  Step-joinable (stopped (some now) s) h = ground arith

  pub Reached-joinable : {s : CoolingService f} → Reached s → s.joinable ≡ s.running
  Reached-joinable fresh = refl
  Reached-joinable (next r st) = Step-joinable st (Reached-joinable r)

  stop_halts :
      (last : Option ℕ) (s : CoolingService f)
      → s.joinable ≡ s.running
      → ((stop f last s).running ≡ false) × ((stop f last s).joinable ≡ false)
  unfolding stop drain pass
  stop_halts none s h = ground arith
  stop_halts (some now) s h = ground arith

  -- In every state that a service reaches, `Start` succeeds and leaves a running worker, and after
  -- `Stop` neither the flag nor the worker is left.
  pub start-stop_safe :
      {s : CoolingService f}
      → Reached s
      → (last : Option ℕ)
      → ((t : CoolingService f) × (start f s ≡ some t)
          × (t.running ≡ true)
          × (t.joinable ≡ true)
          × (t.access_records ≡ s.access_records))
        × ((stop f last s).running ≡ false)
        × ((stop f last s).joinable ≡ false)
  unfolding start
  start-stop_safe {s} r last =
      let flags = Reached-joinable r in
      let halted = stop_halts last s flags in
      (
        (record s { running = true; joinable = true }, ground arith, refl, refl, refl),
        halted.0,
        halted.1,
      )

-- A property of the table that an access and a pass keep holds in every state.
module _ {ℓ} (f : Float) (numa_of : ℕ → ℤ) (P : Map (AccessRecord f) → Type ℓ)
    (access_keeps : (now ptr : ℕ) (s : CoolingService f)
      → P s.access_records
      → P (record_access f numa_of now ptr s).access_records)
    (pass_keeps : (now : ℕ) (s : CoolingService f)
      → P s.access_records
      → P (pass f now s).access_records) where
  start_keeps :
      (s : CoolingService f) {t : CoolingService f}
      → start f s ≡ some t
      → P s.access_records
      → P t.access_records
  unfolding start
  start_keeps s {t} e h = let same : t.access_records ≡ s.access_records = ground arith in rw same h

  drain_keeps :
      (last : Option ℕ) (s : CoolingService f)
      → P s.access_records
      → P (drain f last s).access_records
  unfolding drain
  drain_keeps none s h = h
  drain_keeps (some now) s h = pass_keeps now s h

  stop_keeps :
      (last : Option ℕ) (s : CoolingService f)
      → P s.access_records
      → P (stop f last s).access_records
  unfolding stop
  stop_keeps last s h = ground (arith, drain_keeps last (record s { running = false }) h)

  pub Step_keeps :
      {s t : CoolingService f} → Step f numa_of s t → P s.access_records → P t.access_records
  Step_keeps (accessed now ptr s) h = access_keeps now ptr s h
  Step_keeps (passed now s j) h = pass_keeps now s h
  Step_keeps (started {s} e) h = start_keeps s e h
  Step_keeps (stopped last s) h = stop_keeps last s h

  pub Reached_keeps : P [] → {s : CoolingService f} → Reached f numa_of s → P s.access_records
  Reached_keeps none_yet fresh = none_yet
  Reached_keeps none_yet (next r st) = Step_keeps st (Reached_keeps none_yet r)
