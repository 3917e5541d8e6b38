-- ===== src/DataTransfer.antt =====
-- The data transfer module of the hook: client/data_transfer/src/zmq_manager.cpp, with the
-- interface of client/data_transfer/include/data_transfer.h. libzmq is not in the repository: what
-- each of its calls answers is the record `Zmq`, and the calls that are made are the list of events.
pub mod Release
use gpu_over_ip_capnp.Base.{
  ℕ, ◌≡◌, Bool, true, false, ◌&&◌, not, Option, none, some, List, [], ◌∷◌, ◌++◌, if◌then◌else◌,
  ◌==◌, Text, codes, decimal, length, Io, pure, call, attempt, ◌>>◌, Use, opens, closes, plain,
  use_handle,
}

-- The answers of the library; a pointer is true if it is not null, and a code if it is 0.
pub record Zmq : Type 0 where
  pub ctx_new : Bool
  pub socket : Bool
  pub connect : Bool
  pub bind : Bool
  pub msg_init_data : Bool
  pub msg_init : Bool
  -- `zmq_msg_send` and `zmq_msg_recv` do not answer -1
  pub msg_send : Bool
  pub msg_recv : Bool
  -- the message that arrives
  pub message : List ℕ

pub data Event : Type 0 where
  ctx_new socket msg_init msg_recv : Bool → Event
  connect bind : Text → Bool → Event
  msg_init_data : List ℕ → Bool → Event
  msg_send : Bool → Event
  msg_close socket_close ctx_destroy : Event

-- The handles of the library: contexts, sockets and messages.
abbrev pub use_of : Event → Use
use_of (Event.ctx_new ok) = if ok then opens 0 else plain
use_of (Event.socket ok) = if ok then opens 1 else plain
use_of (Event.msg_init_data bytes ok) = if ok then opens 2 else plain
use_of (Event.msg_init ok) = if ok then opens 2 else plain
use_of Event.msg_close = closes 2
use_of Event.socket_close = closes 1
use_of Event.ctx_destroy = closes 0
use_of (Event.msg_send ok) = plain
use_of (Event.msg_recv ok) = plain
use_of (Event.connect text ok) = plain
use_of (Event.bind text ok) = plain

-- "udp://" + ip + ":" + port
pub endpoint : Text → ℕ → Text
endpoint ip port = codes "udp://" ++ (ip ++ (codes ":" ++ decimal port))

-- The two calls that end every path with a socket.
abbrev pub close_socket : {A : Type 0} → A → Io Event A
close_socket a = call Event.socket_close >> (call Event.ctx_destroy >> pure a)

abbrev pub close_message : {A : Type 0} → A → Io Event A
close_message a = call Event.msg_close >> close_socket a

pub send_data : Zmq → Text → ℕ → List ℕ → Io Event Bool
send_data z ip port buffer = attempt (Event.ctx_new z.ctx_new) z.ctx_new (pure false) (
    attempt (Event.socket z.socket) z.socket (call Event.ctx_destroy >> pure false) (
      attempt (Event.connect (endpoint ip port) z.connect) z.connect (close_socket false) (
        attempt (Event.msg_init_data buffer z.msg_init_data) z.msg_init_data (close_socket false)
          (call (Event.msg_send z.msg_send) >> close_message z.msg_send))))

-- The result, with the buffer after the call: it is written on success only.
pub receive_data : Zmq → Text → ℕ → List ℕ → ℕ → Io Event (Bool × List ℕ)
receive_data z ip port buffer size =
    attempt (Event.ctx_new z.ctx_new) z.ctx_new (pure (false, buffer)) (
      attempt (Event.socket z.socket) z.socket (call Event.ctx_destroy >> pure (false, buffer)) (
        attempt (Event.bind (endpoint ip port) z.bind) z.bind (close_socket (false, buffer)) (
          attempt (Event.msg_init z.msg_init) z.msg_init (close_socket (false, buffer)) (
            attempt (Event.msg_recv z.msg_recv) z.msg_recv (close_message (false, buffer)) (
              if length z.message == size
              then close_message (true, z.message)
              else close_message (false, buffer))))))
