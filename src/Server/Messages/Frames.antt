-- ===== src/Server/Messages/Frames.antt =====
-- Messages that carry a header, and packets of the client, which carry none.
use gpu_over_ip_capnp.Base.{
  ℕ, zero, ◌+◌, ◌<◌, ◌^◌, ◌≡◌, refl, sym, ap, ◌∙◌, true, false, List, [], ◌∷◌, ◌++◌, append_assoc,
  ltb, length, length-append, split_at-append, replicate, le_bytes, length-le_bytes,
  le_value-le_bytes, le_value-byte, arith,
}
use gpu_over_ip_capnp.Numa.{Host, route_memory_access}
use gpu_over_ip_capnp.Server.Ring.{Message}
use gpu_over_ip_capnp.Server.Messages.{
  header_size, Metadata, read_metadata, too_short, routed, access, process_message,
}
use gpu_over_ip_capnp.Transport.Zmq.{make_packet}

-- The header of an access to `dst` with `size` bytes of payload.
abbrev pub header : ℕ → ℕ → ℕ → List ℕ
header op dst size = op ∷ (le_bytes 8 dst ++ (le_bytes 4 size ++ replicate 19 0))

abbrev pub frame : ℕ → ℕ → List ℕ → Message
frame op dst payload = header op dst (length payload) ++ payload

length-header : (op dst size : ℕ) → length (header op dst size) ≡ header_size
length-header op dst size = omega (
  arith,
  length-append (le_bytes 8 dst) (le_bytes 4 size ++ replicate 19 0),
  length-append (le_bytes 4 size) (replicate 19 (zero)),
  length-le_bytes 8 dst,
  length-le_bytes 4 size,
)

read_metadata-header :
    (op dst size : ℕ)
    → dst < 2 ^ 64
    → size < 2 ^ 32
    → read_metadata (header op dst size)
      ≡ record { operation = op; dst_device = dst; data_size = size; reserved = replicate 19 0 }
unfolding read_metadata
read_metadata-header op dst size hd hs =
    rw
      (split_at-append (le_bytes 8 dst) (le_bytes 4 size ++ replicate 19 0) 8
        (sym (length-le_bytes 8 dst)))
      (rw (split_at-append (le_bytes 4 size) (replicate 19 0) 4 (sym (length-le_bytes 4 size)))
        (rw (le_value-byte, le_value-le_bytes 8 dst hd, le_value-le_bytes 4 size hs) refl))

-- The access that a header asks for, whatever stands behind its payload.
process-header :
    (h : Host) (top payload rest : List ℕ)
    → length top ≡ header_size
    → (read_metadata top).data_size ≡ length payload
    → process_message h (top ++ (payload ++ rest)) ≡ (
        let meta = read_metadata top in
        let (answer, events) =
          route_memory_access h meta.dst_device (length payload) meta.operation payload in
        (routed answer, events))
unfolding process_message access
process-header h top payload rest l n =
    let size = length-append top (payload ++ rest) in
    let body = length-append payload rest in
    let long : ltb (length (top ++ (payload ++ rest))) header_size ≡ false = ground (arith, size) in
    let whole : ltb (length (top ++ (payload ++ rest))) (header_size + length payload) ≡ false =
      ground (arith, size, body) in
    rw long (
      rw (split_at-append top (payload ++ rest) header_size (sym l))
        (rw n (rw whole (rw (split_at-append payload rest (length payload) refl) refl))))

-- A message of a header, its payload and anything behind it is the access that the header says.
process-frame :
    (h : Host) (op dst : ℕ) (payload rest : List ℕ)
    → dst < 2 ^ 64
    → length payload < 2 ^ 32
    → process_message h (frame op dst payload ++ rest) ≡ (
        let (answer, events) = route_memory_access h dst (length payload) op payload in
        (routed answer, events))
process-frame h op dst payload rest hd hs =
    let meta = read_metadata-header op dst (length payload) hd hs in
    ap (process_message h) (append_assoc (header op dst (length payload)) payload rest)
    ∙ process-header h (header op dst (length payload)) payload rest
        (length-header op dst (length payload)) (ap (λ (m : Metadata). m.data_size) meta)
    ∙ ap
        (λ (m : Metadata).
          let (answer, events) =
            route_memory_access h m.dst_device (length payload) m.operation payload in
          (routed answer, events))
        meta

-- The packet that the client makes of such a message is the same access, whatever the checksum
-- behind it is: the server does not look at it.
pub process-make_packet :
    (h : Host) (crc32 : List ℕ → ℕ) (op dst : ℕ) (payload : List ℕ)
    → dst < 2 ^ 64
    → length payload < 2 ^ 32
    → process_message h (make_packet crc32 (frame op dst payload)) ≡ (
        let (answer, events) = route_memory_access h dst (length payload) op payload in
        (routed answer, events))
unfolding make_packet
process-make_packet h crc32 op dst payload hd hs =
    process-frame h op dst payload (le_bytes 4 (crc32 (frame op dst payload))) hd hs

-- A packet of the client with fewer than 28 bytes of data is dropped as too short, whatever the
-- data is.
short_packet :
    (h : Host) (crc32 : List ℕ → ℕ) (buffer : List ℕ)
    → length buffer < 28
    → process_message h (make_packet crc32 buffer) ≡ (too_short, [])
unfolding process_message make_packet
short_packet h crc32 buffer few =
    let size = length-append buffer (le_bytes 4 (crc32 buffer)) in
    let short : ltb (length (buffer ++ le_bytes 4 (crc32 buffer))) header_size ≡ true =
      ground (arith, size, length-le_bytes 4 (crc32 buffer)) in
    rw short refl
