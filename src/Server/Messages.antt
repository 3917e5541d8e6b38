-- ===== src/Server/Messages.antt =====
-- `processMessage`: the header of 32 bytes, which `binary.Read` takes apart field by field, the lowest
-- byte first, and the access that a message asks for. A read of exactly the bytes of the structure
-- does not fail.
pub mod Frames
pub mod Panics
use gpu_over_ip_capnp.Base.{
  ℕ, ◌+◌, ◌≡◌, Bool, List, ◌++◌, if◌then◌else◌, ltb, length, split_at, le_value, Io, pure,
}
use gpu_over_ip_capnp.Numa
use gpu_over_ip_capnp.Numa.{Host, Access, route_memory_access}
use gpu_over_ip_capnp.Server.Ring.{Message}

abbrev pub header_size : ℕ
header_size = 32

pub record Metadata : Type 0 where
  pub operation : ℕ
  pub dst_device : ℕ
  pub data_size : ℕ
  pub reserved : List ℕ

pub read_metadata : List ℕ → Metadata
read_metadata header =
    let (operation, more) = split_at 1 header in
    let (dst_device, rest) = split_at 8 more in
    let (data_size, reserved) = split_at 4 rest in
    record {
      operation = le_value operation;
      dst_device = le_value dst_device;
      data_size = le_value data_size;
      reserved = reserved;
    }

-- What became of a message.
pub data Outcome : Type 0 where
  too_short mismatch : Outcome
  routed : Access → Outcome

-- The access that a header asks for, with the payload behind it.
pub access : Host → Metadata → Message → Io Numa.Event Outcome
access h meta msg =
    if ltb (length msg) (header_size + meta.data_size)
    then pure mismatch
    else let payload = (split_at meta.data_size (split_at header_size msg).1).0 in
      let (answer, events) =
        route_memory_access h meta.dst_device meta.data_size meta.operation payload in
      (routed answer, events)

unfoldable pub process_message : Host → Message → Io Numa.Event Outcome
unfolding read_metadata access
process_message h msg =
    if ltb (length msg) header_size
    then pure too_short
    else access h (read_metadata (split_at header_size msg).0) msg
