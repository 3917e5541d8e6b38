-- ===== src/Cooling/Tests.antt =====
-- Runs of the cooling service, with the numbers of the module `Float.Fixed`.
use gpu_over_ip_capnp.Base.{ℕ, ◌≡◌, refl, some, [], ◌∷◌, ℤ, pos, lookup, arith}
use gpu_over_ip_capnp.Float.{AtMost, fl_zero, fl_one, fl_half}
use gpu_over_ip_capnp.Float.Fixed.{fixed, fixed-Laws}
use gpu_over_ip_capnp.Cooling.{
  AccessRecord, CoolingService, new_service, record_access, get_mobility, get_stability,
  get_temperature,
}
use gpu_over_ip_capnp.Cooling.Steps.{Reached, fresh, next, accessed}
use gpu_over_ip_capnp.Cooling.Bounds.{measures_bounded}
use gpu_over_ip_capnp.Cooling.Eviction.{passes, count_of, passes_count}

abbrev numa_of : ℕ → ℤ
numa_of ptr = pos 0

abbrev second : ℕ
second = 1_000_000_000

-- A pointer that was accessed twice, a second apart.
abbrev used : CoolingService fixed
used = record_access fixed numa_of second 7 (record_access fixed numa_of 0 7 (new_service fixed))

used-Reached : Reached fixed numa_of used
used-Reached = next (next fresh (accessed 0 7 (new_service fixed))) (accessed second 7 _)

measures_bounded_example :
    (get_mobility fixed used 7 ≡ 0)
    × AtMost fixed (get_stability fixed used 7) (fl_half fixed)
    × AtMost fixed (fl_zero fixed) (get_temperature fixed used 7)
    × AtMost fixed (get_temperature fixed used 7) (fl_one fixed)
measures_bounded_example = measures_bounded fixed fixed-Laws used-Reached 7

-- A record with three accesses, the last at time 0.
abbrev cold : AccessRecord fixed
cold = record {
  access_count = 3;
  last_access = 0;
  mobility_count = 0;
  stability_score = fl_zero fixed;
  numa_id = pos 0;
  temperature = fl_one fixed;
}

abbrev holding : CoolingService fixed
holding = record (new_service fixed) { access_records = (7, cold) ∷ [] }

-- After ten and after twenty seconds it has lost two accesses.
passes_count_example :
    count_of fixed
      (lookup 7 (passes fixed (10_000_000_000 ∷ 20_000_000_000 ∷ []) holding).access_records)
    ≡ some 1
passes_count_example =
    passes_count fixed (10_000_000_000 ∷ 20_000_000_000 ∷ []) 7 holding cold (refl, tt) refl refl
      (ground arith) (refl, (refl, tt))
