-- ===== src/GlobalMemory/Counting.antt =====
-- The table of `GlobalMemoryService` against the history of its calls.
use gpu_over_ip_capnp.Base.{
  ℕ, ◌+◌, ◌%◌, ◌^◌, ◌≡◌, refl, ap, ◌∙◌, Option, none, some, List, [], ◌∷◌, lookup, lookup-insert,
  lookup-erase, length, if◌then◌else◌, ◌==◌, arith, Bool-cases, Option-cases, inl, inr,
}
use gpu_over_ip_capnp.GlobalMemory.{
  RemoteAllocInfo, GlobalMemoryService, add_mapping, counted, get_mapping, remove_mapping,
}

-- The calls, with their times.
pub data Call : Type 0 where
  adds : ℕ → ℕ → RemoteAllocInfo → Call
  gets : ℕ → ℕ → Call
  removes : ℕ → Call

abbrev pub step : Call → GlobalMemoryService → GlobalMemoryService
step (adds now dptr info) s = add_mapping now dptr info s
step (gets now dptr) s = (get_mapping now dptr s).1
step (removes dptr) s = remove_mapping dptr s

pub run : List Call → GlobalMemoryService → GlobalMemoryService
run [] s = s
run (c ∷ cs) s = run cs (step c s)

-- The specification: a pointer stands for an allocation that was added, with the number of its
-- look-ups since, which has no bound, and the time of the last call that named it.
pub record Mapped : Type 0 where
  pub info : RemoteAllocInfo
  pub lookups : ℕ
  pub last : ℕ

abbrev pub spec_step : ℕ → Call → Option Mapped → Option Mapped
spec_step p (adds now dptr info) o =
    if p == dptr then some (record { info = info; lookups = 0; last = now }) else o
spec_step p (gets now dptr) none = none
spec_step p (gets now dptr) (some e) =
    if p == dptr then some (record e { lookups = e.lookups + 1; last = now }) else some e
spec_step p (removes dptr) o = if p == dptr then none else o

abbrev pub spec : ℕ → List Call → Option Mapped → Option Mapped
spec p [] o = o
spec p (c ∷ cs) o = spec p cs (spec_step p c o)

-- The entry of the table, whose count has 32 bits.
abbrev pub entry_of : Option Mapped → Option RemoteAllocInfo
entry_of none = none
entry_of (some e) = some (record e.info { access_count = e.lookups % 2 ^ 32; last_access = e.last })

counted_entry :
    (now : ℕ) (e : Mapped)
    → some (counted now (record e.info { access_count = e.lookups % 2 ^ 32; last_access = e.last }))
      ≡ entry_of (some (record e { lookups = e.lookups + 1; last = now }))
unfolding counted
counted_entry now e =
    ap (λ (n : ℕ). some (record e.info { access_count = n; last_access = now })) (omega arith)

abbrev after_get : ℕ → Option RemoteAllocInfo → Option RemoteAllocInfo
after_get now none = none
after_get now (some info) = some (counted now info)

-- What a look-up leaves of a pointer.
get_mapping-lookup :
    (p now dptr : ℕ) (s : GlobalMemoryService)
    → lookup p (get_mapping now dptr s).1.ptr_table
      ≡ (if p == dptr then after_get now (lookup p s.ptr_table) else lookup p s.ptr_table)
unfolding get_mapping
get_mapping-lookup p now dptr s = elim (Bool-cases (p == dptr)) [
  | inl same ↦ let e : p ≡ dptr = ground arith in rw (same, e) (self_step dptr)
  | inr other ↦ elim (Option-cases (lookup dptr s.ptr_table)) [
    | inl missing ↦ ground arith
    | inr (info, found) ↦ ground (arith, lookup-insert p dptr (counted now info) s.ptr_table)
  ]
]
  where
    self_step :
        (q : ℕ) → lookup q (get_mapping now q s).1.ptr_table ≡ after_get now (lookup q s.ptr_table)
    self_step q = elim (Option-cases (lookup q s.ptr_table)) [
      | inl missing ↦ ground arith
      | inr (info, found) ↦ ground (arith, lookup-insert q q (counted now info) s.ptr_table)
    ]

-- A look-up answers what the table holds for the pointer after it.
get_mapping_lem :
    (now dptr : ℕ) (s : GlobalMemoryService)
    → (get_mapping now dptr s).0 ≡ lookup dptr (get_mapping now dptr s).1.ptr_table
unfolding get_mapping
get_mapping_lem now dptr s = elim (Option-cases (lookup dptr s.ptr_table)) [
  | inl missing ↦ ground arith
  | inr (info, found) ↦ ground (arith, lookup-insert dptr dptr (counted now info) s.ptr_table)
]

counted_or_none :
    (p now dptr : ℕ) (a : Option Mapped)
    → (if p == dptr then after_get now (entry_of a) else entry_of a)
      ≡ entry_of (spec_step p (gets now dptr) a)
counted_or_none p now dptr none = ground arith
counted_or_none p now dptr (some e) = elim (Bool-cases (p == dptr)) [
  | inl same ↦ rw same (counted_entry now e)
  | inr other ↦ rw other refl
]

step_refines :
    (p : ℕ) (c : Call) (s : GlobalMemoryService) (a : Option Mapped)
    → lookup p s.ptr_table ≡ entry_of a
    → lookup p (step c s).ptr_table ≡ entry_of (spec_step p c a)
unfolding add_mapping remove_mapping
step_refines p (adds now dptr info) s a h =
    lookup-insert p dptr _ s.ptr_table
    ∙ elim (Bool-cases (p == dptr)) [ inl same ↦ rw same refl | inr other ↦ rw other h ]
step_refines p (gets now dptr) s a h =
    get_mapping-lookup p now dptr s ∙ rw h (counted_or_none p now dptr a)
step_refines p (removes dptr) s a h =
    lookup-erase p dptr s.ptr_table
    ∙ elim (Bool-cases (p == dptr)) [ inl same ↦ rw same refl | inr other ↦ rw other h ]

run-entry_of :
    (p : ℕ) (cs : List Call) (s : GlobalMemoryService) (a : Option Mapped)
    → lookup p s.ptr_table ≡ entry_of a
    → lookup p (run cs s).ptr_table ≡ entry_of (spec p cs a)
unfolding run
run-entry_of p [] s a h = h
run-entry_of p (c ∷ cs) s a h =
    run-entry_of p cs (step c s) (spec_step p c a) (step_refines p c s a h)

-- After any calls, from a table that holds of a pointer what the specification has of it, the table
-- holds what the specification makes of the calls for that pointer alone, and a look-up of it answers
-- that, the look-up itself counted. The specification counts the look-ups since the pointer was added
-- without a bound, and the table modulo 2 ^ 32.
pub run_refines :
    (p now : ℕ) (cs : List Call) (s : GlobalMemoryService) (a : Option Mapped)
    → lookup p s.ptr_table ≡ entry_of a
    → (lookup p (run cs s).ptr_table ≡ entry_of (spec p cs a))
      × ((get_mapping now p (run cs s)).0 ≡ entry_of (spec_step p (gets now p) (spec p cs a)))
run_refines p now cs s a h =
    let after = run-entry_of p cs s a h in
    (
      after,
      get_mapping_lem now p (run cs s) ∙ step_refines p (gets now p) (run cs s) (spec p cs a) after,
    )

-- The look-ups at the given times, each of one pointer.
abbrev pub all_gets : ℕ → List ℕ → List Call
all_gets p [] = []
all_gets p (now ∷ nows) = gets now p ∷ all_gets p nows

abbrev pub lookups_of : Option Mapped → ℕ
lookups_of none = 0
lookups_of (some e) = e.lookups

gets_self :
    (p now : ℕ) (e : Mapped)
    → spec_step p (gets now p) (some e) ≡ some (record e { lookups = e.lookups + 1; last = now })
gets_self p now e = ground arith

spec_counts :
    (p : ℕ) (nows : List ℕ) (e : Mapped)
    → lookups_of (spec p (all_gets p nows) (some e)) ≡ e.lookups + length nows
spec_counts p [] e = omega arith
spec_counts p (now ∷ nows) e =
    ap (λ o. lookups_of (spec p (all_gets p nows) o)) (gets_self p now e)
    ∙ spec_counts p nows (record e { lookups = e.lookups + 1; last = now })
    ∙ omega arith
