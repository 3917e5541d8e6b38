-- ===== src/Adapter/Convert.antt =====
-- The conversions of `ProtocolAdapter`.
use gpu_over_ip_capnp.Base.{
  ℕ, zero, suc, ◌+◌, ◌-◌, ◌<◌, ◌≤◌, ◌≡◌, ◌≢◌, refl, ap, ◌∙◌, ◌&&◌, not, some, List, [], ◌∷◌, ◌==◌,
  ltb, le_value, arith, Bool-cases, inl, inr, ◌⊎◌,
}
use native.Mathlib.Decide.{ℕ_discrete}
use gpu_over_ip_capnp.Adapter.{
  RemoteAllocInfo, MemoryHandle, convert_to_memory_handle, convert_to_remote_alloc_info, pointer,
  scalar, Location, KernelParam, count_params,
}

-- The two conversions of an allocation are inverse to each other.
pub handle_round_trip :
    (info : RemoteAllocInfo) (handle : MemoryHandle)
    → (convert_to_remote_alloc_info (convert_to_memory_handle info) ≡ info)
      × (convert_to_memory_handle (convert_to_remote_alloc_info handle) ≡ handle)
unfolding convert_to_memory_handle convert_to_remote_alloc_info
handle_round_trip info handle = (refl, refl)

module _ (max_params : ℕ) (kernel_params : ℕ → ℕ) where
  -- What the count says of the array.
  pub record IsCount (start n : ℕ) : Type 0 where
    pub from : start ≤ n
    pub bounded : n ≤ max_params
    pub all_set : (i : ℕ) → start ≤ i → i < n → kernel_params i ≢ 0
    pub stops : (n ≡ max_params) ⊎ (kernel_params n ≡ 0)

  IsCount-from :
      (fuel start : ℕ)
      → start ≤ max_params
      → max_params - start < fuel
      → IsCount start (count_params max_params kernel_params fuel start).0
  unfolding count_params
  IsCount-from zero start low room = absurd (omega arith)
  IsCount-from (suc fuel) start low room =
      elim (Bool-cases (not (kernel_params start == 0) && ltb start max_params)) [
        | inl more ↦
            let set : kernel_params start ≢ 0 = ground arith in
            let rest = IsCount-from fuel (start + 1) (ground arith) (ground arith) in
            rw more (extend _ set rest)
        | inr done ↦ rw done (record {
          from = omega arith;
          bounded = low;
          all_set = λ i h k. absurd (omega arith);
          stops = ground arith;
        })
      ]
    where
      extend : (n : ℕ) → kernel_params start ≢ 0 → IsCount (start + 1) n → IsCount start n
      extend n set c = record {
        from = omega (arith, c.from);
        bounded = c.bounded;
        all_set = λ i h k. elim (ℕ_discrete i start) [
          | yes here ↦ rw here set
          | no later ↦ c.all_set i (omega arith) k
        ];
        stops = c.stops;
      }

  -- The indices from `i` on, as many as given.
  abbrev pub up_from : ℕ → ℕ → List ℕ
  up_from zero i = []
  up_from (suc k) i = i ∷ up_from k (i + 1)

  count_reads :
      (fuel start : ℕ)
      → start ≤ max_params
      → max_params - start < fuel
      → (k : ℕ) × ((count_params max_params kernel_params fuel start).0 ≡ start + k)
        × ((count_params max_params kernel_params fuel start).1 ≡ up_from (suc k) start)
  unfolding count_params
  count_reads zero start low room = absurd (omega arith)
  count_reads (suc fuel) start low room =
      elim (Bool-cases (not (kernel_params start == 0) && ltb start max_params)) [
        | inl more ↦
            let (k, count, read) = count_reads fuel (start + 1) (ground arith) (ground arith) in
            (suc k, rw more (omega (arith, count)), rw more (ap (λ is. start ∷ is) read))
        | inr done ↦ (0, rw done (omega arith), rw done refl)
      ]

  -- The count of the kernel parameters is the index of the first null pointer, or the limit if there
  -- is none below it; and to find it the loop reads the entries 0 up to the count itself, the one at
  -- the limit included.
  pub count_params_lem :
      (n : ℕ)
      → n ≡ (count_params max_params kernel_params (max_params + 1) 0).0
      → IsCount 0 n
        × ((count_params max_params kernel_params (max_params + 1) 0).1 ≡ up_from (n + 1) 0)
  count_params_lem n e =
      let (k, count, read) = count_reads (max_params + 1) 0 (omega arith) (omega arith) in
      let last : suc k ≡ n + 1 = omega (arith, count) in
      (
        rw e (IsCount-from (max_params + 1) 0 (omega arith) (omega arith)),
        read ∙ ap (λ (j : ℕ). up_from j 0) last,
      )

module _ (get_memory_location : ℕ → Location) (memory : ℕ → List ℕ) (kernel_params : ℕ → ℕ) where
  -- What a converted parameter is of its entry.
  abbrev pub Carries : ℕ → KernelParam → Type 0
  Carries entry k =
      ((k.type ≡ pointer)
        × (k.location ≡ some (get_memory_location entry))
        × (le_value k.value ≡ entry))
      ⊎ ((k.type ≡ scalar)
          × ((get_memory_location entry).node_id ≡ 0xFFFFFFFF)
          × (k.value ≡ memory entry))

  -- The parameters are those of the entries from `i` on.
  abbrev pub CarryFrom : ℕ → List KernelParam → Type 0
  CarryFrom i [] = Unit
  CarryFrom i (k ∷ ks) = Carries (kernel_params i) k × CarryFrom (i + 1) ks
