-- ===== src/Transport/Zmq.antt =====
-- `ZmqTransport`: client/launcher/transport/zmq_transport.h and zmq_transport.cpp. libzmq and the
-- `crc32` of zlib are not in the repository: `crc32` is a parameter, and `Answers` is what the calls
-- answer, for the i-th round of the retry loop where a call is made in it. Of the context pointer,
-- it is kept whether it is null. The packet vector has `bufferSize + 4` bytes.
pub mod Packet
pub mod Retry
pub mod Tests
use gpu_over_ip_capnp.Base.{
  ℕ, zero, suc, ◌+◌, ◌-◌, ◌≡◌, Bool, true, false, ◌&&◌, not, Option, none, some, List, [], ◌∷◌,
  ◌++◌, if◌then◌else◌, ltb, Text, codes, decimal, length, Io, pure, call, attempt, ◌>>◌, Use, opens,
  closes, plain, use_handle, le_bytes,
}
use gpu_over_ip_capnp.DataTransfer.{endpoint}

pub record Answers : Type 0 where
  pub socket : Bool
  pub connect : Bool
  pub msg_init_data : ℕ → Bool
  pub msg_send : ℕ → Bool

pub data Event : Type 0 where
  ctx_new socket : Bool → Event
  connect : Text → Bool → Event
  msg_init_data : List ℕ → Bool → Event
  msg_send : Bool → Event
  msg_close sleep socket_close ctx_destroy : Event

-- Sockets and messages; a send that succeeds takes the message over.
abbrev pub use_of : Event → Use
use_of (Event.ctx_new ok) = if ok then opens 0 else plain
use_of (Event.socket ok) = if ok then opens 1 else plain
use_of (Event.connect text ok) = plain
use_of (Event.msg_init_data bytes ok) = if ok then opens 2 else plain
use_of (Event.msg_send ok) = if ok then closes 2 else plain
use_of Event.msg_close = closes 2
use_of Event.sleep = plain
use_of Event.socket_close = closes 1
use_of Event.ctx_destroy = closes 0

-- `m_context` is not null.
pub record ZmqTransport : Type 0 where
  pub context : Bool

pub initialize : Bool → ZmqTransport → Io Event (Bool × ZmqTransport)
initialize made t = call (Event.ctx_new made) >> pure (made, record t { context = made })

-- The destructor.
pub destroy : ZmqTransport → Io Event (Unit {0})
destroy t = if t.context then call Event.ctx_destroy else pure tt

abbrev pub max_retries : ℕ
max_retries = 3

-- The data with its checksum behind it.
unfoldable pub make_packet : (List ℕ → ℕ) → List ℕ → List ℕ
make_packet crc32 buffer = buffer ++ le_bytes 4 (crc32 buffer)

-- The sleep at the end of a round that failed to send; `retries` is the new number.
abbrev pub pause : ℕ → Io Event (Unit {0})
pause retries = if ltb retries max_retries then call Event.sleep else pure tt

-- The retry loop at `retries`, on fuel.
pub send_loop : Answers → List ℕ → ℕ → ℕ → Io Event Bool
send_loop z packet zero retries = pure false
send_loop z packet (suc fuel) retries =
    let again = send_loop z packet fuel (retries + 1) in
    if ltb retries max_retries
    then attempt (Event.msg_init_data packet (z.msg_init_data retries)) (z.msg_init_data retries)
        again
        (attempt (Event.msg_send (z.msg_send retries)) (z.msg_send retries)
          (call Event.msg_close >> (pause (retries + 1) >> again)) (pure true))
    else pure false

-- `Transfer`. Three rounds are the most that the loop makes; the fuel leaves one for its last test.
pub transfer : Answers → (List ℕ → ℕ) → ZmqTransport → Text → ℕ → List ℕ → Io Event Bool
transfer z crc32 t target_ip target_port buffer =
    if t.context
    then attempt (Event.socket z.socket) z.socket (pure false) (
        attempt (Event.connect (endpoint target_ip target_port) z.connect) z.connect
          (call Event.socket_close >> pure false)
          (let sent = send_loop z (make_packet crc32 buffer) 4 0 in
            (sent.0, sent.1 ++ Event.socket_close ∷ [])))
    else pure false
