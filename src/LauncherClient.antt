-- ===== src/LauncherClient.antt =====
-- The client of a launcher in the launcher: client/launcher/launcher_client.h and launcher_client.cpp.
-- The RPC library is not in the repository: `Answers` is what a launcher at an address answers, where
-- `none` is an exception, and `Made` is what comes of a connection. The capability is the address of
-- its connection; one whose connection was replaced counts as none, since each call of it throws.
pub mod Connecting
pub mod Tests
use gpu_over_ip_capnp.Base.{
  ℕ, zero, suc, ◌+◌, ◌≡◌, Bool, true, false, Option, none, some, List, [], ◌∷◌, String, Io, call,
  pure, ◌>>◌, ◌>>=◌,
}
use gpu_over_ip_capnp.Hook.Client.{ErrorCode, MemcpyPlan, read_bytes}

pub record LauncherClient : Type 0 where
  pub address : String
  -- `m_rpcClient`, by the address that it was made for
  pub rpc_client : Option String
  pub client : Option String

pub record LaunchRequest : Type 0 where
  pub func : String
  pub grid_dim : ℕ
  pub block_dim : ℕ
  pub shared_mem : ℕ
  pub params : List ℕ

pub data Request : Type 0 where
  allocation free : ℕ → Request
  memcpy_htod memcpy_dtoh : ℕ → ℕ → Request
  launch : LaunchRequest → Request

pub record AllocationResult : Type 0 where
  pub fake_ptr : ℕ
  pub error : ErrorCode

pub record Answers : Type 0 where
  pub allocation : String → Request → Option AllocationResult
  pub ack : String → Request → Option ErrorCode
  pub plan : String → Request → Option MemcpyPlan

-- A request that was sent to an address.
pub data Event : Type 0 where
  sent : String → Request → Event

-- `null_call` is the use of the client before there is one.
pub data Outcome (A : Type 0) : Type 0 where
  done : A → Outcome A
  thrown : Outcome A
  null_call : Outcome A

-- The constructor of the client throws, or the request for its main interface does, or neither.
pub data Made : Type 0 where
  constructor_throws main_throws made : Made

-- The constructor.
pub new_client : String → LauncherClient
new_client address = record { address = address; rpc_client = none; client = none }

-- `connect`
pub reconnect : Made → LauncherClient → Bool × LauncherClient
reconnect constructor_throws c = (false, c)
reconnect main_throws c = (false, record c { rpc_client = some c.address; client = none })
reconnect made c = (true, record c { rpc_client = some c.address; client = some c.address })

-- `Connect`
pub connect : String → Made → LauncherClient → Bool × LauncherClient
connect address m c = reconnect m (record c { address = address })

abbrev pub answered : {A : Type 0} → Option A → Outcome A
answered none = thrown
answered (some a) = done a

-- What every method does: send a request through the capability and wait in the client's scope.
pub ask :
    {A : Type 0} → (String → Request → Option A) → Request → LauncherClient → Io Event (Outcome A)
ask answer r c = elim c.rpc_client [
  | none ↦ pure null_call
  | some _ ↦ elim c.client [
    | none ↦ pure thrown
    | some server ↦ call (sent server r) >> pure (answered (answer server r))
  ]
]

pub request_allocation : Answers → ℕ → LauncherClient → Io Event (Outcome AllocationResult)
request_allocation a size = ask a.allocation (allocation size)

pub request_free : Answers → ℕ → LauncherClient → Io Event (Outcome ErrorCode)
request_free a fake_ptr = ask a.ack (free fake_ptr)

pub plan_memcpy_htod : Answers → ℕ → ℕ → LauncherClient → Io Event (Outcome MemcpyPlan)
plan_memcpy_htod a dst_fake_ptr size = ask a.plan (memcpy_htod dst_fake_ptr size)

pub plan_memcpy_dtoh : Answers → ℕ → ℕ → LauncherClient → Io Event (Outcome MemcpyPlan)
plan_memcpy_dtoh a src_fake_ptr size = ask a.plan (memcpy_dtoh src_fake_ptr size)

-- `params` is an address; the request carries 512 bytes from it on.
pub launch_kernel :
    Answers → (ℕ → ℕ) → String → ℕ → ℕ → ℕ → ℕ → LauncherClient → Io Event (Outcome ErrorCode)
launch_kernel a memory func grid block shared params = ask a.ack (
    launch (record {
      func = func;
      grid_dim = grid;
      block_dim = block;
      shared_mem = shared;
      params = read_bytes memory 512 params;
    }))
