-- ===== src/Transport/Zmq/Packet.antt =====
-- The packet of `ZmqTransport::Transfer`, and what a receiver makes of it.
use gpu_over_ip_capnp.Base.{
  ℕ, ◌+◌, ◌-◌, ◌<◌, ◌^◌, ◌≡◌, ap, ◌∙◌, Option, none, some, List, ◌++◌, length, length-append,
  split_at, split_at-append, arith, le_bytes, le_value, length-le_bytes, le_value-le_bytes,
  if◌then◌else◌, ◌==◌,
}
use gpu_over_ip_capnp.Transport.Zmq.{make_packet}

-- What a receiver of the packet does with it: the data, if the last four bytes are its checksum.
abbrev pub check_packet : (List ℕ → ℕ) → List ℕ → Option (List ℕ)
check_packet crc32 packet =
    let (body, tail) = split_at (length packet - 4) packet in
    if le_value tail == crc32 body then some body else none

-- For any checksum of 32 bits, a packet is four bytes longer than its data, and a receiver that
-- checks it against the same checksum accepts it and gets back the data.
check-make_packet :
    (crc32 : List ℕ → ℕ) (buffer : List ℕ)
    → crc32 buffer < 2 ^ 32
    → (length (make_packet crc32 buffer) ≡ length buffer + 4)
      × (check_packet crc32 (make_packet crc32 buffer) ≡ some buffer)
unfolding make_packet
check-make_packet crc32 buffer h =
    let size : length (buffer ++ le_bytes 4 (crc32 buffer)) ≡ length buffer + 4 =
      length-append buffer _ ∙ ap (λ n. length buffer + n) (length-le_bytes 4 (crc32 buffer)) in
    (
      size,
      rw
          (split_at-append buffer (le_bytes 4 (crc32 buffer))
            (length (buffer ++ le_bytes 4 (crc32 buffer)) - 4) (omega (arith, size)))
          (rw (le_value-le_bytes 4 (crc32 buffer) h) (ground arith)),
    )
