-- ===== src/LauncherClient/Tests.antt =====
-- A client that loses its second connection.
use gpu_over_ip_capnp.Base.{◌≡◌, refl, none, some, [], ◌∷◌, ◌++◌}
use gpu_over_ip_capnp.Hook.Client.{ok}
use gpu_over_ip_capnp.LauncherClient.{
  new_client, allocation, free, memcpy_htod, memcpy_dtoh, Answers, sent, made, constructor_throws,
  answered, request_allocation, request_free, plan_memcpy_htod, plan_memcpy_dtoh,
}
use gpu_over_ip_capnp.LauncherClient.Connecting.{connects, shown, request_after_connects}

abbrev answers : Answers
answers = record {
  allocation = λ address r. some (record { fake_ptr = 7; error = ok });
  ack = λ address r. some ok;
  plan = λ address r. none;
}

request_after_connects_example :
    let d = connects ([] ++ ("a:1", made) ∷ ("b:2", constructor_throws) ∷ []) (new_client "a:1") in
    (d.address ≡ shown "a:1" (("b:2", constructor_throws) ∷ []))
    × (request_allocation answers 64 d
        ≡ (answered (answers.allocation "a:1" (allocation 64)), sent "a:1" (allocation 64) ∷ []))
    × (request_free answers 7 d ≡ (answered (answers.ack "a:1" (free 7)), sent "a:1" (free 7) ∷ []))
    × (plan_memcpy_htod answers 7 64 d
        ≡ (answered (answers.plan "a:1" (memcpy_htod 7 64)), sent "a:1" (memcpy_htod 7 64) ∷ []))
    × (plan_memcpy_dtoh answers 7 64 d
        ≡ (answered (answers.plan "a:1" (memcpy_dtoh 7 64)), sent "a:1" (memcpy_dtoh 7 64) ∷ []))
request_after_connects_example =
    request_after_connects answers [] (("b:2", constructor_throws) ∷ []) "a:1" 7 64
      (new_client "a:1") (refl, tt)
