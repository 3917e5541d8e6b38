-- ===== src/Numa/OpenCapi.antt =====
-- The OpenCAPI devices and their memory: pkg/numa/opencapi.go. The driver is a parameter, `Driver`:
-- whether its directory is there, its entries, `none` where it cannot be read; whether a device
-- opens; of the ioctl the 64 bytes that it writes, `none` where it fails; the two files of a device
-- by its name; of `mmap` the address, `none` where it fails; and whether `munmap` succeeds.
pub mod Released
use gpu_over_ip_capnp.Base.{
  ℕ, zero, ◌^◌, ◌≡◌, Bool, true, false, Option, none, some, List, [], ◌∷◌, ◌++◌, if◌then◌else◌,
  ◌==◌, ltb, Text, codes, ℤ, pos, Io, pure, call, ◌>>=◌, ◌>>◌, Use, opens, closes, plain,
}
use mathlib.Core.List.{reverse}
use gpu_over_ip_capnp.Go.{atoi, trim_space, Parsed, syntax_error, out_of_range, value, parse_uint}

pub record Driver : Type 0 where
  pub dir_exists : Bool
  pub entries : Option (List (Text × Bool))
  pub open_ok : Text → Bool
  pub afu_name : Text → Option (List ℕ)
  pub numa_node : Text → Option Text
  pub mmio_size : Text → Option Text
  pub map_at : Text → ℕ → ℕ → Option ℕ
  pub munmap_ok : ℕ → ℕ → Bool

pub record OpenCapiDevice : Type 0 where
  pub name : Text
  pub device : Text
  pub afu_name : Text
  pub node_id : ℤ
  pub memory : ℕ

pub data Event : Type 0 where
  opened : Text → Bool → Event
  closed ioctl : Event
  mmap : ℕ → ℕ → Bool → Event
  munmap : ℕ → ℕ → Bool → Event

-- What a call does to the descriptors.
abbrev pub fd_use : Event → Use
fd_use (opened path ok) = if ok then opens 0 else plain
fd_use closed = closes 0
fd_use ioctl = plain
fd_use (mmap offset size ok) = plain
fd_use (munmap addr size ok) = plain

-- What a call does to the mappings.
abbrev pub map_use : Event → Use
map_use (opened path ok) = plain
map_use closed = plain
map_use ioctl = plain
map_use (mmap offset size ok) = if ok then opens 0 else plain
map_use (munmap addr size ok) = if ok then closes 0 else plain

abbrev pub trim_nul_left : List ℕ → List ℕ
trim_nul_left [] = []
trim_nul_left (c ∷ t) = let rest = trim_nul_left t in if c == 0 then rest else c ∷ t

-- `strings.Trim(name, "\x00")`
abbrev pub trim_nul : List ℕ → List ℕ
trim_nul t = reverse (trim_nul_left (reverse (trim_nul_left t)))

-- A number that cannot be read leaves 0.
pub node_number : Option Text → ℤ
node_number none = pos 0
node_number (some content) = elim (atoi (trim_space content)) [ none ↦ pos 0 | some n ↦ n ]

abbrev pub value_or_zero : Parsed → ℕ
value_or_zero syntax_error = 0
value_or_zero out_of_range = 0
value_or_zero (value n) = n

pub memory_size : Option Text → ℕ
memory_size none = 0
memory_size (some content) = value_or_zero (parse_uint (trim_space content))

abbrev pub dev_path : Text → Text
dev_path name = codes "/dev/ocxl/" ++ name

-- The largest slice that the address is taken for.
abbrev pub slice_limit : ℕ
slice_limit = 2 ^ 30

-- `mapped` by address and size; a larger slice panics.
pub data Mapping : Type 0 where
  mapped : ℕ → ℕ → Mapping
  open_failed mmap_failed panicked : Mapping

module _ (d : Driver) where
  abbrev pub with_name : Text → Option (List ℕ) → Option OpenCapiDevice
  with_name name none = none
  with_name name (some buf) = some (record {
    name = name;
    device = dev_path name;
    afu_name = trim_nul buf;
    node_id = node_number (d.numa_node name);
    memory = memory_size (d.mmio_size name);
  })

  -- The device is closed on each return.
  pub get_device_info : Text → Io Event (Option OpenCapiDevice)
  unfolding node_number memory_size
  get_device_info name =
      let path = dev_path name in
      call (opened path (d.open_ok path))
      >> (if d.open_ok path
          then call ioctl >> (call closed >> pure (with_name name (d.afu_name path)))
          else pure none)

  abbrev pub put_first : Option OpenCapiDevice → List OpenCapiDevice → List OpenCapiDevice
  put_first none ds = ds
  put_first (some dev) ds = dev ∷ ds

  pub device_loop : List (Text × Bool) → Io Event (List OpenCapiDevice)
  unfolding get_device_info
  device_loop [] = pure []
  device_loop ((name, is_dir) ∷ es) =
      let rest = device_loop es in
      let info = get_device_info name in
      if is_dir then rest else (put_first info.0 rest.0, info.1 ++ rest.1)

  -- `none` where the directory is not there or cannot be read.
  pub discover_devices : Io Event (Option (List OpenCapiDevice))
  unfolding device_loop
  discover_devices =
      if d.dir_exists
      then (elim d.entries [
        | none ↦ pure none
        | some es ↦ (some (device_loop es).0, (device_loop es).1)
      ])
      else pure none

  -- What `mmap` gives, as a slice.
  abbrev pub as_slice : ℕ → Option ℕ → Mapping
  as_slice size none = mmap_failed
  as_slice size (some addr) = if ltb slice_limit size then panicked else mapped addr size

  abbrev pub is_mapped : Option ℕ → Bool
  is_mapped none = false
  is_mapped (some addr) = true

  -- The device is closed on each return and on the panic.
  unfoldable pub map_memory : Text → ℕ → ℕ → Io Event Mapping
  map_memory path offset size =
      call (opened path (d.open_ok path))
      >> (if d.open_ok path
          then call (mmap offset size (is_mapped (d.map_at path offset size)))
            >> (call closed >> pure (as_slice size (d.map_at path offset size)))
          else pure open_failed)

  -- Whether no error is given, for a slice by address and size.
  pub unmap_memory : ℕ → ℕ → Io Event Bool
  unmap_memory addr size =
      if size == 0
      then pure true
      else call (munmap addr size (d.munmap_ok addr size)) >> pure (d.munmap_ok addr size)
