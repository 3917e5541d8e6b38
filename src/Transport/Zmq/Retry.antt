-- ===== src/Transport/Zmq/Retry.antt =====
-- The retry loop and `Transfer` on every path.
use gpu_over_ip_capnp.Base.{ℕ, ◌≡◌, Bool, ◌&&◌, ◌||◌, List, arith, Text, IsReleased}
use gpu_over_ip_capnp.Transport.Zmq.{Answers, use_of, ZmqTransport, send_loop, transfer}

-- The round sends the packet.
abbrev pub sends : Answers → ℕ → Bool
sends z i = z.msg_init_data i && z.msg_send i

-- Whatever libzmq answers, the call gives back the socket and every message that it took, and it
-- answers true exactly when there is a context, the socket opens and connects, and one of the three
-- rounds makes the message and sends it.
pub transfer_lem :
    (z : Answers) (crc32 : List ℕ → ℕ) (t : ZmqTransport) (ip : Text) (port : ℕ) (buffer : List ℕ)
    → IsReleased use_of (transfer z crc32 t ip port buffer).1
      × ((transfer z crc32 t ip port buffer).0
          ≡ (t.context && (z.socket && (z.connect && (sends z 0 || (sends z 1 || sends z 2))))))
unfolding transfer send_loop
transfer_lem z crc32 t ip port buffer = ground arith
