-- ===== src/LauncherClient/Connecting.antt =====
-- Where the requests of a `LauncherClient` go.
use gpu_over_ip_capnp.Base.{ℕ, ◌≡◌, refl, List, [], ◌∷◌, ◌++◌, String, All}
use gpu_over_ip_capnp.LauncherClient.{
  LauncherClient, allocation, free, memcpy_htod, memcpy_dtoh, Answers, sent, Made,
  constructor_throws, made, reconnect, connect, answered, ask, request_allocation, request_free,
  plan_memcpy_htod, plan_memcpy_dtoh,
}

-- Calls of `Connect`, in order, whatever they answer.
pub connects : List (String × Made) → LauncherClient → LauncherClient
connects [] c = c
connects ((address, m) ∷ rest) c = connects rest (connect address m c).1

-- Each call fails in the constructor.
abbrev pub AllThrow : List (String × Made) → Type 0
AllThrow = All (λ k. k.1 ≡ constructor_throws)

-- The address that the object shows: the one of the last call.
abbrev pub shown : String → List (String × Made) → String
shown last [] = last
shown last ((address, m) ∷ rest) = shown address rest

connects_append :
    (xs ys : List (String × Made)) (c : LauncherClient)
    → connects (xs ++ ys) c ≡ connects ys (connects xs c)
unfolding connects
connects_append [] ys c = refl
connects_append (k ∷ xs) ys c = connects_append xs ys (connect k.0 k.1 c).1

connects_throw :
    (ks : List (String × Made)) (c : LauncherClient)
    → AllThrow ks
    → connects ks c ≡ record c { address = shown c.address ks }
unfolding connects connect reconnect
connects_throw [] c h = refl
connects_throw ((address, m) ∷ ks) c h =
    rw h.0 (connects_throw ks (record c { address = address }) h.1)

-- After any calls of `Connect`, of which one succeeds and all later ones fail to make a client, a
-- request is sent to the address of the one that succeeded, once, and answered by what that launcher
-- answers, although the object shows the address of the last call.
pub request_after_connects :
    (a : Answers) (before after : List (String × Made)) (address : String) (p size : ℕ)
    (c : LauncherClient)
    → AllThrow after
    → let d = connects (before ++ (address, made) ∷ after) c in
      (d.address ≡ shown address after)
      × (request_allocation a size d ≡ (
        answered (a.allocation address (allocation size)),
        sent address (allocation size) ∷ [],
      ))
      × (request_free a p d ≡ (answered (a.ack address (free p)), sent address (free p) ∷ []))
      × (plan_memcpy_htod a p size d ≡ (
        answered (a.plan address (memcpy_htod p size)),
        sent address (memcpy_htod p size) ∷ [],
      ))
      × (plan_memcpy_dtoh a p size d ≡ (
        answered (a.plan address (memcpy_dtoh p size)),
        sent address (memcpy_dtoh p size) ∷ [],
      ))
unfolding connects connect reconnect request_allocation request_free plan_memcpy_htod
    plan_memcpy_dtoh ask
request_after_connects a before after address p size c h =
    rw connects_append (rw (connects_throw after _ h) (refl, refl, refl, refl, refl))
