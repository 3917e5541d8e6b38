-- ===== src/DataTransfer/Release.antt =====
-- The paths of `SendData` and `ReceiveData`: what each answers, and the handles that it takes.
use gpu_over_ip_capnp.Base.{
  ℕ, ◌≡◌, ◌&&◌, List, if◌then◌else◌, ◌==◌, Text, length, arith, IsReleased, if◌then◌else◌,
}
use gpu_over_ip_capnp.DataTransfer.{Zmq, use_of, send_data, receive_data}

-- Whatever libzmq answers, `SendData` gives back the context, the socket and the message that it
-- took, each once and the last first, and answers true exactly when all five calls succeed.
pub send_data_lem :
    (z : Zmq) (ip : Text) (port : ℕ) (buffer : List ℕ)
    → IsReleased use_of (send_data z ip port buffer).1
      × ((send_data z ip port buffer).0
          ≡ (z.ctx_new && (z.socket && (z.connect && (z.msg_init_data && z.msg_send)))))
unfolding send_data
send_data_lem z ip port buffer = ground arith

-- The same of `ReceiveData`; it answers true exactly when all calls succeed and the message has the
-- size that was asked for. The buffer is the message then, and unchanged otherwise.
pub receive_data_lem :
    (z : Zmq) (ip : Text) (port : ℕ) (buffer : List ℕ) (size : ℕ)
    → let ok =
        z.ctx_new
        && (z.socket && (z.bind && (z.msg_init && (z.msg_recv && length z.message == size)))) in
      IsReleased use_of (receive_data z ip port buffer size).1
      × ((receive_data z ip port buffer size).0 ≡ (ok, (if ok then z.message else buffer)))
unfolding receive_data
receive_data_lem z ip port buffer size = ground arith
