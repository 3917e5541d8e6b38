-- ===== src/Cooling/Bounds.antt =====
-- Bounds on the measures that the dispatcher reads, over every history of a cooling service.
use gpu_over_ip_capnp.Base.{
  ℕ, ◌-◌, ◌≡◌, refl, true, false, some, [], ◌∷◌, ℤ, pos, negsuc, arith, Map, lookup, ltb_ℤ,
  Bool-cases, Option-cases, ◌⊎◌, inl, inr, neg_ℤ, AllValues, insert-AllValues, lookup-AllValues,
  subst, sym, lookup-insert_self,
}
use gpu_over_ip_capnp.Float.{
  Float, Laws, AtMost, fl_zero, fl_one, fl_half, fl_min, fl_min-le-left, fl_min_nonneg, AtMost-refl,
}
use gpu_over_ip_capnp.Cooling.{
  AccessRecord, CoolingService, new_record, touch, entry, milliseconds, seconds, stability, cooled,
  refresh, cool, cool_all, record_access, pass, get_mobility, get_stability, get_temperature,
  is_hot_data,
}
use gpu_over_ip_capnp.Cooling.Steps.{Reached, Reached_keeps}

module _ (f : Float) (l : Laws f) where
  pub stability-le-half :
      (count : ℕ) (duration : ℤ) → AtMost f (stability f count duration) (fl_half f)
  unfolding stability
  stability-le-half count duration =
      l.at_most_trans _ _ _ (l.times_mono _ _ _ product_nonneg time_le) (rw l.times_one product_le)
    where
      frequency : f.Real
      frequency = fl_min f (fl_one f) (f.div (f.from_int (pos count)) (f.lit 100 1))

      frequency_nonneg : AtMost f (fl_zero f) frequency
      frequency_nonneg =
          fl_min_nonneg f l _ _ (l.lit_nonneg 1 1)
            (l.div_nonneg _ _ (l.from_int_nonneg count) l.hundred_pos)

      product_nonneg : AtMost f (fl_zero f) (f.times frequency (fl_half f))
      product_nonneg = l.times_nonneg _ _ frequency_nonneg (l.lit_nonneg 1 2)

      product_le : AtMost f (f.times frequency (fl_half f)) (fl_half f)
      product_le =
          let scaled : AtMost f (f.times frequency (fl_half f)) (f.times (fl_one f) (fl_half f)) =
            l.times_mono_left _ _ _ (l.lit_nonneg 1 2) (fl_min-le-left f l _ _) in
          rw l.one_times at scaled

      time_le :
          AtMost f
            (f.minus (fl_one f) (f.exp (f.div (f.from_int (neg_ℤ duration)) (f.lit 3600 1))))
            (fl_one f)
      time_le = l.one_minus _ (l.exp_nonneg _)

  abbrev pub InUnit : f.Real → Type 0
  InUnit a = AtMost f (fl_zero f) a × AtMost f a (fl_one f)

  pub cooled-InUnit : (ms : ℤ) (t : f.Real) → InUnit t → InUnit (cooled f ms t)
  unfolding cooled
  cooled-InUnit (negsuc n) t h = ground arith
  cooled-InUnit (pos n) t h = elim (Bool-cases (ltb_ℤ (pos 0) (pos n))) [
    | inl later ↦ rw later (kept n t h)
    | inr now ↦ rw now h
  ]
    where
      factor : ℕ → f.Real
      factor n = f.exp (f.times (f.neg (f.lit 1 1000)) (f.from_int (pos n)))

      factor_le : (n : ℕ) → AtMost f (factor n) (fl_one f)
      factor_le n = l.exp_le_one _ (l.neg_times _ _ (l.lit_nonneg 1 1000) (l.from_int_nonneg n))

      kept : (n : ℕ) (t : f.Real) → InUnit t → InUnit (f.narrow (f.times t (factor n)))
      kept n t h = (
        l.narrow_nonneg _ (l.times_nonneg _ _ h.0 (l.exp_nonneg _)),
        l.narrow_le_one _
            (l.at_most_trans _ _ _ (l.times_mono _ _ _ h.0 (factor_le n)) (rw l.times_one h.1)),
      )

  -- What holds of each record.
  pub record IsBounded (r : AccessRecord f) : Type 0 where
    pub unmoved : r.mobility_count ≡ 0
    pub unstable : AtMost f r.stability_score (fl_half f)
    pub warm : InUnit r.temperature

  new_record-IsBounded : IsBounded (new_record f)
  new_record-IsBounded = record {
    unmoved = refl;
    unstable = l.lit_nonneg 1 2;
    warm = (AtMost-refl f l _, l.lit_nonneg 1 1);
  }

  elapsed_zero : (now : ℕ) → ltb_ℤ (pos 0) (milliseconds now now) ≡ false
  elapsed_zero now = ground arith

  pub touch-temperature :
      (numa : ℤ) (now : ℕ) (r : AccessRecord f) → (touch f numa now r).temperature ≡ fl_one f
  unfolding touch
  touch-temperature numa now r = rw (elapsed_zero now) refl

  touch-IsBounded :
      (numa : ℤ) (now : ℕ) (r : AccessRecord f) → IsBounded r → IsBounded (touch f numa now r)
  touch-IsBounded numa now r b = record {
    unmoved = unfold touch in b.unmoved;
    unstable = unfold touch in b.unstable;
    warm = rw touch-temperature (l.lit_nonneg 1 1, AtMost-refl f l _);
  }

  refresh-IsBounded : (now : ℕ) (r : AccessRecord f) → IsBounded r → IsBounded (refresh f now r)
  unfolding refresh
  refresh-IsBounded now r b = record {
    unmoved = b.unmoved;
    unstable = stability-le-half r.access_count (seconds now r.last_access);
    warm = cooled-InUnit (milliseconds now r.last_access) r.temperature b.warm;
  }

  abbrev pub AllBounded : CoolingService f → Type 0
  AllBounded s = AllValues IsBounded s.access_records

  entry-IsBounded :
      (ptr : ℕ) (m : Map (AccessRecord f)) → AllValues IsBounded m → IsBounded (entry f ptr m)
  entry-IsBounded ptr m b = elim (Option-cases (lookup ptr m)) [
    | inl e ↦ rw (e, entry) new_record-IsBounded
    | inr (r, e) ↦ rw (e, entry) (lookup-AllValues IsBounded ptr m r b e)
  ]

  -- A record that stays was refreshed, with its count lowered or not.
  cool_cases :
      (s : CoolingService f) (now : ℕ) (r r' : AccessRecord f)
      → cool f s now r ≡ some r'
      → (r' ≡ refresh f now (record r { access_count = r.access_count - s.decay_amount }))
        ⊎ (r' ≡ refresh f now r)
  unfolding cool
  cool_cases s now r r' e = ground arith

  cool-IsBounded :
      (s : CoolingService f) (now : ℕ) (r r' : AccessRecord f)
      → IsBounded r
      → cool f s now r ≡ some r'
      → IsBounded r'
  cool-IsBounded s now r r' b e = elim (cool_cases s now r r' e) [
    | inl aged ↦ subst IsBounded (sym aged) (refresh-IsBounded now _ (lowered b))
    | inr (fresh_record) ↦ subst IsBounded (sym fresh_record) (refresh-IsBounded now r b)
  ]
    where
      lowered : {k : ℕ} → IsBounded r → IsBounded (record r { access_count = k })
      lowered b = record { unmoved = b.unmoved; unstable = b.unstable; warm = b.warm }

  cool_all-AllValues :
      (s : CoolingService f) (now : ℕ) (m : Map (AccessRecord f))
      → AllValues IsBounded m
      → AllValues IsBounded (cool_all f s now m)
  unfolding cool_all
  cool_all-AllValues s now [] b = tt
  cool_all-AllValues s now ((ptr, r) ∷ m) b = elim (Option-cases (cool f s now r)) [
    | inl e ↦ rw (e, cool_all) (cool_all-AllValues s now m b.1)
    | inr (r', e) ↦
        rw (e, cool_all) (cool-IsBounded s now r r' b.0 e, cool_all-AllValues s now m b.1)
  ]

  access-AllBounded :
      (numa_of : ℕ → ℤ) (now ptr : ℕ) (s : CoolingService f)
      → AllBounded s
      → AllBounded (record_access f numa_of now ptr s)
  unfolding record_access
  access-AllBounded numa_of now ptr s b =
      insert-AllValues IsBounded ptr _ s.access_records
        (touch-IsBounded (numa_of ptr) now _ (entry-IsBounded ptr s.access_records b)) b

  pass-AllBounded : (now : ℕ) (s : CoolingService f) → AllBounded s → AllBounded (pass f now s)
  unfolding pass
  pass-AllBounded now s b = cool_all-AllValues s now s.access_records b

  pub Reached-AllBounded :
      {numa_of : ℕ → ℤ} {s : CoolingService f} → Reached f numa_of s → AllBounded s
  Reached-AllBounded {numa_of} r =
      Reached_keeps f numa_of (AllValues IsBounded) (access-AllBounded numa_of) pass-AllBounded tt r

  -- Whatever the history of a service, no address has a mobility above 0, a stability score above
  -- 0.5 or a temperature outside 0 to 1.
  pub measures_bounded :
      {numa_of : ℕ → ℤ} {s : CoolingService f}
      → Reached f numa_of s
      → (ptr : ℕ)
      → (get_mobility f s ptr ≡ 0)
        × AtMost f (get_stability f s ptr) (fl_half f)
        × AtMost f (fl_zero f) (get_temperature f s ptr)
        × AtMost f (get_temperature f s ptr) (fl_one f)
  unfolding get_mobility get_stability get_temperature
  measures_bounded {s} reached ptr = elim (Option-cases (lookup ptr s.access_records)) [
    | inl e ↦ ground (arith, l.lit_nonneg 1 2, l.lit_nonneg 1 1, l.less_irrefl (fl_zero f))
    | inr (r, e) ↦
        ground
          (arith, lookup-AllValues IsBounded ptr s.access_records r (Reached-AllBounded reached) e)
  ]

  -- Right after an access the address is hot, whatever its last access was: the temperature that
  -- an access stores is 1.
  pub hot_after_access :
      (numa_of : ℕ → ℤ) (now ptr : ℕ) (s : CoolingService f)
      → (get_temperature f (record_access f numa_of now ptr s) ptr ≡ fl_one f)
        × (is_hot_data f (record_access f numa_of now ptr s) ptr ≡ true)
  unfolding get_temperature is_hot_data record_access
  hot_after_access numa_of now ptr s =
      let found =
        lookup-insert_self ptr (touch f (numa_of ptr) now (entry f ptr s.access_records))
          s.access_records in
      (
        rw (found, get_temperature) (touch-temperature _ _ _),
        rw (found, is_hot_data, touch-temperature) l.four_fifths_lt_one,
      )
