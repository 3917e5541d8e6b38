-- ===== src/Cooling.antt =====
-- The cooling service: client/launcher/services/cooling_service.h and cooling_service.cpp. A time
-- point is a number of nanoseconds of the steady clock. `GlobalMemory::GetNumaNodeForPtr` is not in
-- the repository and is the parameter `numa_of`. Of the thread handle, `joinable` is kept.
pub mod Steps
pub mod Bounds
pub mod Eviction
pub mod Tests
use gpu_over_ip_capnp.Base.{
  ℕ, suc, ◌+◌, ◌-◌, ◌%◌, ◌≡◌, Bool, true, false, Option, none, some, List, [], ◌∷◌, ℤ, pos, negsuc,
  sub_ℕ, neg_ℤ, quot_ℤ, ltb_ℤ, ltb, if◌then◌else◌, u64_mod, Map, lookup, insert,
}
use gpu_over_ip_capnp.Float.{Float, fl_zero, fl_one, fl_half, fl_min}

-- The signed difference of two time points, in units of `per` nanoseconds (`duration_cast`).
abbrev pub elapsed : ℕ → ℕ → ℕ → ℤ
elapsed per now last = quot_ℤ (sub_ℕ now last) per

abbrev pub seconds : ℕ → ℕ → ℤ
seconds = elapsed 1_000_000_000

abbrev pub milliseconds : ℕ → ℕ → ℤ
milliseconds = elapsed 1_000_000

module _ (f : Float) where
  pub record AccessRecord : Type 0 where
    pub access_count : ℕ
    pub last_access : ℕ
    pub mobility_count : ℕ
    pub stability_score : f.Real
    pub numa_id : ℤ
    pub temperature : f.Real

  pub record CoolingService : Type 0 where
    pub running : Bool
    pub joinable : Bool
    pub access_records : Map AccessRecord
    -- in seconds, as `access_window`
    pub cooling_interval : ℕ
    pub decay_amount : ℕ
    pub access_threshold : ℕ
    pub access_window : ℕ

  -- The initial values of the members.
  abbrev pub new_record : AccessRecord
  new_record = record {
    access_count = 0;
    last_access = 0;
    mobility_count = 0;
    stability_score = fl_zero f;
    numa_id = negsuc 0;
    temperature = fl_zero f;
  }

  -- The constructor.
  abbrev pub new_service : CoolingService
  new_service = record {
    running = false;
    joinable = false;
    access_records = [];
    cooling_interval = 10;
    decay_amount = 1;
    access_threshold = 4;
    access_window = 5;
  }

  -- `access_records_[ptr]`, which makes an entry where there is none.
  abbrev pub entry : ℕ → Map AccessRecord → AccessRecord
  entry ptr m = elim (lookup ptr m) [ none ↦ new_record | some r ↦ r ]

  -- The new value of a record on an access: the time of this access is stored before the
  -- temperature is computed from it.
  pub touch : ℤ → ℕ → AccessRecord → AccessRecord
  touch numa now r =
      let counted = record r {
        access_count = (r.access_count + 1) % u64_mod;
        last_access = now;
        numa_id = numa;
      } in
      let time_since_last = milliseconds now counted.last_access in
      record counted {
        temperature =
            if ltb_ℤ (pos 0) time_since_last
            then f.div (fl_one f) (f.from_int time_since_last)
            else fl_one f;
      }

  pub record_access : (numa_of : ℕ → ℤ) → ℕ → ℕ → CoolingService → CoolingService
  record_access numa_of now ptr s = record s {
    access_records =
        insert ptr (touch (numa_of ptr) now (entry ptr s.access_records)) s.access_records;
  }

  pub is_hot_data : CoolingService → ℕ → Bool
  is_hot_data s ptr = elim (lookup ptr s.access_records) [
    | none ↦ false
    | some r ↦ f.less (f.lit 8 10) r.temperature
  ]

  pub get_mobility : CoolingService → ℕ → ℕ
  get_mobility s ptr = elim (lookup ptr s.access_records) [ none ↦ 0 | some r ↦ r.mobility_count ]

  pub get_stability : CoolingService → ℕ → f.Real
  get_stability s ptr = elim (lookup ptr s.access_records) [
    | none ↦ fl_zero f
    | some r ↦ r.stability_score
  ]

  pub get_numa_id : CoolingService → ℕ → ℤ
  get_numa_id s ptr = elim (lookup ptr s.access_records) [ none ↦ negsuc 0 | some r ↦ r.numa_id ]

  pub get_temperature : CoolingService → ℕ → f.Real
  get_temperature s ptr = elim (lookup ptr s.access_records) [
    | none ↦ fl_zero f
    | some r ↦ r.temperature
  ]

  -- Step 2 of a pass: the frequency factor times the pattern factor times the time factor.
  pub stability : ℕ → ℤ → f.Real
  stability count duration =
      let frequency_factor = fl_min f (fl_one f) (f.div (f.from_int (pos count)) (f.lit 100 1)) in
      let time_factor =
        f.minus (fl_one f) (f.exp (f.div (f.from_int (neg_ℤ duration)) (f.lit 3600 1))) in
      let pattern_factor = fl_half f in
      f.times (f.times frequency_factor pattern_factor) time_factor

  -- Step 3 of a pass.
  pub cooled : ℤ → f.Real → f.Real
  cooled time_since_last temperature =
      if ltb_ℤ (pos 0) time_since_last
      then f.narrow (
          f.times temperature (f.exp (f.times (f.neg (f.lit 1 1000)) (f.from_int time_since_last))))
      else temperature

  -- Steps 2 and 3 of a pass.
  pub refresh : ℕ → AccessRecord → AccessRecord
  refresh now r = record r {
    stability_score = stability r.access_count (seconds now r.last_access);
    temperature = cooled (milliseconds now r.last_access) r.temperature;
  }

  -- One round of the loop of a pass; `none` is the erased entry.
  pub cool : CoolingService → ℕ → AccessRecord → Option AccessRecord
  cool s now r =
      if ltb_ℤ (pos s.access_window) (seconds now r.last_access)
      then if ltb s.decay_amount r.access_count
        then some (refresh now (record r { access_count = r.access_count - s.decay_amount }))
        else none
      else some (refresh now r)

  -- The loop over the table.
  pub cool_all : CoolingService → ℕ → Map AccessRecord → Map AccessRecord
  cool_all s now [] = []
  cool_all s now ((ptr, r) ∷ m) =
      let rest = cool_all s now m in
      elim (cool s now r) [ none ↦ rest | some r' ↦ (ptr, r') ∷ rest ]

  -- The body of the loop of `Run`, after the sleep.
  pub pass : ℕ → CoolingService → CoolingService
  pass now s = record s { access_records = cool_all s now s.access_records }

  -- `none` is `std::terminate`, on the assignment to a thread that can still be joined.
  pub start : CoolingService → Option CoolingService
  start s =
      if s.running
      then some s
      else if s.joinable
      then none
      else some (record s { running = true; joinable = true })

  -- The passes that the worker makes before it sees the flag, at most one in `Run`.
  pub drain : Option ℕ → CoolingService → CoolingService
  drain none s = s
  drain (some now) s = pass now s

  pub stop : Option ℕ → CoolingService → CoolingService
  stop last s =
      if s.running
      then if s.joinable
        then record (drain last (record s { running = false })) { joinable = false }
        else record s { running = false }
      else s
