-- ===== src/Root/Forwarding.antt =====
-- The handlers of the root service that hand the request on to one of its services.
use gpu_over_ip_capnp.Base.{ℕ, Option, List}
use gpu_over_ip_capnp.Services
use gpu_over_ip_capnp.Services.{
  Allocation, Thrown, AllocateResults, Ack, Transfer, TransferType, ErrorCode, Advice,
}

-- What the managers behind the services answer.
pub record Managers : Type 0 where
  pub allocate : ℕ → ℕ → Thrown Allocation
  pub free : ℕ → Thrown (Unit {0})
  pub transfer : Transfer → Thrown (Unit {0})
  pub advise : Advice → Thrown (Unit {0})

pub allocate_memory : Managers → ℕ → ℕ → AllocateResults
allocate_memory m = Services.allocate_memory m.allocate

pub free_memory : Managers → ℕ → Option Ack
free_memory m = Services.free_memory m.free

pub execute_transfer : Managers → ℕ → ℕ → ℕ → TransferType → Ack × List Transfer
execute_transfer m = Services.execute_transfer m.transfer

pub handle_mem_advise : Managers → ℕ → ℕ → ℕ → ErrorCode × List Advice
handle_mem_advise m = Services.handle_mem_advise m.advise
