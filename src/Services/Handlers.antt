-- ===== src/Services/Handlers.antt =====
-- The handlers of the transport and the advise service on every branch, errors included.
use gpu_over_ip_capnp.Base.{
  ℕ, ◌≡◌, ◌≢◌, refl, true, false, some, [], ◌∷◌, String, ◌⊎◌, inl, inr, arith,
}
use native.Mathlib.Decide.{ℕ_discrete}
use gpu_over_ip_capnp.Services.{
  Thrown, value, thrown, TransferType, Transfer, ManagerType, manager_type, execute_transfer,
  transferred, Advice, preferred_location, accessed_by, advice_of, advised, handle_mem_advise,
  success, invalid_value, transfer_failed, advise_set_preferred_location, advise_set_accessed_by,
}

settled :
    (r : Thrown (Unit {0}))
    → (((transferred r).ok ≡ true) × (r ≡ value tt))
      ⊎ (((transferred r).ok ≡ false)
          × ((transferred r).code ≡ some transfer_failed)
          × (r ≡ thrown (transferred r).msg))
settled (value tt) = inl (refl, refl)
settled (thrown what) = inr (refl, refl, refl)

abbrev transfer_of : ℕ → ℕ → ℕ → ManagerType → Transfer
transfer_of src dst size t = record { src = src; dst = dst; size = size; transfer_type = t }

-- A transfer is acknowledged exactly when its type is one of the three and the manager does not
-- throw. The manager is asked once for a known type, with the request's own ends and size, and never
-- for another type; every failure has the code of a failed transfer.
execute_transfer_lem :
    (run : Transfer → Thrown (Unit {0})) (src dst size : ℕ) (type : TransferType)
    → let (ack, asked) = execute_transfer run src dst size type in
      ((t : Transfer) × (manager_type type ≡ value t.transfer_type)
        × (asked ≡ t ∷ [])
        × (t.src ≡ src)
        × (t.dst ≡ dst)
        × (t.size ≡ size)
        × (((ack.ok ≡ true) × (run t ≡ value tt))
            ⊎ ((ack.ok ≡ false) × (ack.code ≡ some transfer_failed) × (run t ≡ thrown ack.msg))))
      ⊎ ((n : ℕ) × (type ≡ TransferType.other n)
          × (asked ≡ [])
          × (ack.ok ≡ false)
          × (ack.code ≡ some transfer_failed))
unfolding execute_transfer manager_type
execute_transfer_lem run src dst size TransferType.host_to_device =
    let t = transfer_of src dst size ManagerType.host_to_device in
    inl (t, refl, refl, refl, refl, refl, settled (run t))
execute_transfer_lem run src dst size TransferType.device_to_host =
    let t = transfer_of src dst size ManagerType.device_to_host in
    inl (t, refl, refl, refl, refl, refl, settled (run t))
execute_transfer_lem run src dst size TransferType.device_to_device =
    let t = transfer_of src dst size ManagerType.device_to_device in
    inl (t, refl, refl, refl, refl, refl, settled (run t))
execute_transfer_lem run src dst size (TransferType.other n) = inr (n, refl, refl, refl, refl)

advised_cases :
    (r : Thrown (Unit {0}))
    → ((advised r ≡ success) × (r ≡ value tt))
      ⊎ ((advised r ≡ invalid_value) × ((what : String) × (r ≡ thrown what)))
advised_cases (value tt) = inl (refl, refl)
advised_cases (thrown what) = inr (refl, (what, refl))

-- An advice is handled with success when it is none of the two that the service knows, and then no
-- call is made; one that it knows makes its one call, and is an invalid value exactly when that
-- call throws.
handle_mem_advise_lem :
    (run : Advice → Thrown (Unit {0})) (ptr size advice : ℕ)
    → let (code, calls) = handle_mem_advise run ptr size advice in
      ((advice ≢ advise_set_preferred_location)
        × (advice ≢ advise_set_accessed_by)
        × (code ≡ success)
        × (calls ≡ []))
      ⊎ ((a : Advice) × (((advice ≡ advise_set_preferred_location)
              × (a ≡ preferred_location ptr size))
            ⊎ ((advice ≡ advise_set_accessed_by) × (a ≡ accessed_by ptr size)))
          × (calls ≡ a ∷ [])
          × (((code ≡ success) × (run a ≡ value tt))
              ⊎ ((code ≡ invalid_value) × ((what : String) × (run a ≡ thrown what)))))
unfolding handle_mem_advise advice_of
handle_mem_advise_lem run ptr size advice = elim (ℕ_discrete advice 3) [
  | yes first ↦
      rw first (inr (preferred_location ptr size, inl (refl, refl), refl, advised_cases (run _)))
  | no other ↦ elim (ℕ_discrete advice 5) [
    | yes second ↦
        rw second (inr (accessed_by ptr size, inr (refl, refl), refl, advised_cases (run _)))
    | no neither ↦ inl (other, neither, ground arith, ground arith)
  ]
]
