-- ===== src/Transport/Zmq/Tests.antt =====
-- Runs of `ZmqTransport`.
use gpu_over_ip_capnp.Base.{ℕ, ◌≡◌, true, ◌&&◌, ◌||◌, List, [], ◌∷◌, IsReleased, ltb, codes}
use gpu_over_ip_capnp.Transport.Zmq.{Answers, use_of, ZmqTransport, transfer}
use gpu_over_ip_capnp.Transport.Zmq.Retry.{sends, transfer_lem}

-- A checksum, for the test.
abbrev sum : List ℕ → ℕ
sum bytes = 77

-- Only the third round succeeds.
abbrev flaky : Answers
flaky = record { socket = true; connect = true; msg_init_data = λ i. true; msg_send = λ i. ltb 1 i }

abbrev open_transport : ZmqTransport
open_transport = record { context = true }

transfer_lem_example :
    IsReleased use_of (transfer flaky sum open_transport (codes "10.0.0.1") 5555 (1 ∷ 2 ∷ [])).1
    × ((transfer flaky sum open_transport (codes "10.0.0.1") 5555 (1 ∷ 2 ∷ [])).0 ≡ (
        open_transport.context
        && (flaky.socket
            && (flaky.connect && (sends flaky 0 || (sends flaky 1 || sends flaky 2))))))
transfer_lem_example = transfer_lem flaky sum open_transport (codes "10.0.0.1") 5555 (1 ∷ 2 ∷ [])
