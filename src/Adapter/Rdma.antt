-- ===== src/Adapter/Rdma.antt =====
-- `rdmaMemcpy` of client/launcher/protocol_adapter.cpp. The verbs library is not in the repository:
-- `Answers` says which of its calls answer a pointer that is not null.
use gpu_over_ip_capnp.Base.{
  ℕ, Bool, if◌then◌else◌, arith, Io, attempt, call, pure, ◌>>◌, Use, opens, closes, plain,
  IsReleased,
}

pub record Answers : Type 0 where
  pub open_device : Bool
  pub alloc_pd : Bool
  pub reg_src : Bool
  pub reg_dst : Bool
  pub create_cq : Bool
  pub create_qp : Bool

pub data Event : Type 0 where
  open_device alloc_pd create_cq create_qp : Bool → Event
  reg_src reg_dst : ℕ → ℕ → Bool → Event
  destroy_qp destroy_cq dereg_dst dereg_src dealloc_pd close_device : Event

abbrev pub use_of : Event → Use
use_of (Event.open_device ok) = if ok then opens 0 else plain
use_of Event.close_device = closes 0
use_of (Event.alloc_pd ok) = if ok then opens 1 else plain
use_of Event.dealloc_pd = closes 1
use_of (Event.reg_src p n ok) = if ok then opens 2 else plain
use_of Event.dereg_src = closes 2
use_of (Event.reg_dst p n ok) = if ok then opens 3 else plain
use_of Event.dereg_dst = closes 3
use_of (Event.create_cq ok) = if ok then opens 4 else plain
use_of Event.destroy_cq = closes 4
use_of (Event.create_qp ok) = if ok then opens 5 else plain
use_of Event.destroy_qp = closes 5

-- The calls that end a path, from the device up.
abbrev pub leave_device : Io Event (Unit {0})
leave_device = call Event.close_device >> pure tt

abbrev pub leave_pd : Io Event (Unit {0})
leave_pd = call Event.dealloc_pd >> leave_device

abbrev pub leave_src : Io Event (Unit {0})
leave_src = call Event.dereg_src >> leave_pd

abbrev pub leave_dst : Io Event (Unit {0})
leave_dst = call Event.dereg_dst >> leave_src

abbrev pub leave_cq : Io Event (Unit {0})
leave_cq = call Event.destroy_cq >> leave_dst

pub rdma_memcpy : Answers → ℕ → ℕ → ℕ → Io Event (Unit {0})
rdma_memcpy a dst src count = attempt (Event.open_device a.open_device) a.open_device (pure tt) (
    attempt (Event.alloc_pd a.alloc_pd) a.alloc_pd leave_device (
      attempt (Event.reg_src src count a.reg_src) a.reg_src leave_pd (
        attempt (Event.reg_dst dst count a.reg_dst) a.reg_dst leave_src (
          attempt (Event.create_cq a.create_cq) a.create_cq leave_dst (
            attempt (Event.create_qp a.create_qp) a.create_qp leave_cq
              (call Event.destroy_qp >> leave_cq))))))

-- Whichever calls fail, every handle that was taken is given back, each once and the last first.
rdma_memcpy_releases :
    (a : Answers) (dst src count : ℕ) → IsReleased use_of (rdma_memcpy a dst src count).1
unfolding rdma_memcpy
rdma_memcpy_releases a dst src count = ground arith
