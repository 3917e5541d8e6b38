-- ===== src/Cooling/Eviction.antt =====
-- How long an entry of the cooling service stays in the table once it is no longer accessed.
use gpu_over_ip_capnp.Base.{
  ℕ, ◌-◌, ◌<◌, ◌≡◌, refl, ◌∙◌, true, Option, none, some, List, [], ◌∷◌, ℤ, pos, arith, Map, lookup,
  if◌then◌else◌, ltb_ℤ, ltb, Bool-cases, inl, inr, All, IsDistinct, insert-IsDistinct, length,
}
use gpu_over_ip_capnp.Float.{Float}
use gpu_over_ip_capnp.Cooling.{
  AccessRecord, CoolingService, seconds, refresh, cool, cool_all, record_access, pass,
}
use gpu_over_ip_capnp.Cooling.Steps.{Reached, Reached_keeps}

module _ (f : Float) where
  lookup-cool_all-none :
      (s : CoolingService f) (now ptr : ℕ) (m : Map (AccessRecord f))
      → lookup ptr m ≡ none
      → lookup ptr (cool_all f s now m) ≡ none
  unfolding cool_all
  lookup-cool_all-none s now ptr [] e = refl
  lookup-cool_all-none s now ptr ((j, r) ∷ m) e = ground (arith, lookup-cool_all-none s now ptr m)

  cool_all-IsDistinct :
      (s : CoolingService f) (now : ℕ) (m : Map (AccessRecord f))
      → IsDistinct m
      → IsDistinct (cool_all f s now m)
  unfolding cool_all
  cool_all-IsDistinct s now [] d = tt
  cool_all-IsDistinct s now ((j, r) ∷ m) d =
      ground (arith, cool_all-IsDistinct s now m d.1, lookup-cool_all-none s now j m d.0)

  abbrev pub then_cool : CoolingService f → ℕ → Option (AccessRecord f) → Option (AccessRecord f)
  then_cool s now none = none
  then_cool s now (some r) = cool f s now r

  -- A pass treats each entry alone, by the rule for one record.
  pub lookup-cool_all :
      (s : CoolingService f) (now ptr : ℕ) (m : Map (AccessRecord f))
      → IsDistinct m
      → lookup ptr (cool_all f s now m) ≡ then_cool s now (lookup ptr m)
  unfolding cool_all
  lookup-cool_all s now ptr [] d = refl
  lookup-cool_all s now ptr ((j, r) ∷ m) d =
      ground (arith, lookup-cool_all s now ptr m d.1, lookup-cool_all-none s now j m d.0)

  access-IsDistinct :
      (numa_of : ℕ → ℤ) (now ptr : ℕ) (s : CoolingService f)
      → IsDistinct s.access_records
      → IsDistinct (record_access f numa_of now ptr s).access_records
  unfolding record_access
  access-IsDistinct numa_of now ptr s d = insert-IsDistinct ptr _ s.access_records d

  pass-IsDistinct :
      (now : ℕ) (s : CoolingService f)
      → IsDistinct s.access_records
      → IsDistinct (pass f now s).access_records
  unfolding pass
  pass-IsDistinct now s d = cool_all-IsDistinct s now s.access_records d

  pub Reached-IsDistinct :
      {numa_of : ℕ → ℤ} {s : CoolingService f} → Reached f numa_of s → IsDistinct s.access_records
  Reached-IsDistinct {numa_of} r =
      Reached_keeps f numa_of IsDistinct (access-IsDistinct numa_of) pass-IsDistinct tt r

  -- Passes at the given times, with no access between them.
  pub passes : List ℕ → CoolingService f → CoolingService f
  passes [] s = s
  passes (now ∷ nows) s = passes nows (pass f now s)

  abbrev pub count_of : Option (AccessRecord f) → Option ℕ
  count_of none = none
  count_of (some r) = some r.access_count

  -- At the time `now` the record was last accessed longer ago than the window.
  abbrev pub IsStale : CoolingService f → AccessRecord f → ℕ → Type 0
  IsStale s r now = ltb_ℤ (pos s.access_window) (seconds now r.last_access) ≡ true

  cool_stale :
      (s : CoolingService f) (now : ℕ) (r : AccessRecord f)
      → IsStale s r now
      → s.decay_amount ≡ 1
      → cool f s now r ≡ (
          if ltb 1 r.access_count
          then some (refresh f now (record r { access_count = r.access_count - 1 }))
          else none)
  unfolding cool
  cool_stale s now r stale one = rw (stale, one) refl

  lookup-pass :
      (now ptr : ℕ) (s : CoolingService f)
      → IsDistinct s.access_records
      → lookup ptr (pass f now s).access_records ≡ then_cool s now (lookup ptr s.access_records)
  unfolding pass
  lookup-pass now ptr s d = lookup-cool_all s now ptr s.access_records d

  passes_gone :
      (nows : List ℕ) (ptr : ℕ) (s : CoolingService f)
      → IsDistinct s.access_records
      → lookup ptr s.access_records ≡ none
      → lookup ptr (passes nows s).access_records ≡ none
  unfolding passes
  passes_gone [] ptr s d e = e
  passes_gone (now ∷ nows) ptr s d e =
      passes_gone nows ptr (pass f now s) (pass-IsDistinct now s d)
        (rw (lookup-pass now ptr s d, e) refl)

  -- An address that is not accessed any more loses one access at each pass once the window is over,
  -- and the entry goes at the pass that finds a count of 1: it survives `length nows` passes exactly
  -- when its count is larger.
  pub passes_count :
      (nows : List ℕ) (ptr : ℕ) (s : CoolingService f) (r : AccessRecord f)
      → IsDistinct s.access_records
      → lookup ptr s.access_records ≡ some r
      → s.decay_amount ≡ 1
      → 0 < r.access_count
      → All (IsStale s r) nows
      → count_of (lookup ptr (passes nows s).access_records)
        ≡ (if ltb (length nows) r.access_count then some (r.access_count - length nows) else none)
  unfolding passes pass refresh
  passes_count [] ptr s r d e one some_left stale = rw e (ground arith)
  passes_count (now ∷ nows) ptr s r d e one some_left stale =
      elim (Bool-cases (ltb 1 r.access_count)) [
        | inl more ↦
            let left =
              passes_count nows ptr (pass f now s)
                (refresh f now (record r { access_count = r.access_count - 1 }))
                (pass-IsDistinct now s d) (after_pass ∙ rw more refl) one (ground arith) stale.1 in
            left ∙ ground arith
        | inr last ↦
            let gone =
              passes_gone nows ptr (pass f now s) (pass-IsDistinct now s d)
                (after_pass ∙ rw last refl) in
            rw gone (ground arith)
      ]
    where
      after_pass : lookup ptr (pass f now s).access_records ≡ (
          if ltb 1 r.access_count
          then some (refresh f now (record r { access_count = r.access_count - 1 }))
          else none)
      after_pass = lookup-pass now ptr s d ∙ rw e (cool_stale s now r stale.0 one)
