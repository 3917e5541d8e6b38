-- ===== src/Server/Ring.antt =====
-- The ring of `StartZMQReceiver`: the variables `ringBuffer`, `head` and `tail`, as the receive
-- loop and the workers use them with the mutex held. A message is the list of its bytes.
pub mod Fifo
use gpu_over_ip_capnp.Base.{
  ℕ, ◌+◌, ◌%◌, ◌<◌, ◌≡◌, Bool, true, false, Option, none, some, List, [], if◌then◌else◌, ◌==◌, ltb,
  get_or, set, replicate, length, length-set, length-replicate, arith,
}

abbrev pub Message : Type 0
Message = List ℕ

pub record Ring : Type 0 where
  pub buffer : List Message
  pub head : ℕ
  pub tail : ℕ

abbrev pub ring_size : ℕ
ring_size = 1024

unfoldable pub new_ring : Ring
new_ring = record { buffer = replicate ring_size []; head = 0; tail = 0 }

-- What the receive loop makes of a message that it copied: it is put in, or dropped where the ring
-- is full.
unfoldable pub put : Message → Ring → Bool × Ring
put m r =
    let next = (r.head + 1) % ring_size in
    if next == r.tail
    then (false, r)
    else (true, record r { buffer = set r.buffer r.head m; head = next })

-- What a worker does with the mutex held: it waits where the ring is empty.
unfoldable pub take : Ring → Option (Message × Ring)
take r =
    if r.head == r.tail
    then none
    else some (get_or r.buffer r.tail [], record r { tail = (r.tail + 1) % ring_size })

-- No index leaves the buffer.
pub record IsValid (r : Ring) : Type 0 where
  pub slots : length r.buffer ≡ ring_size
  pub head_in : r.head < ring_size
  pub tail_in : r.tail < ring_size

pub new_ring-IsValid : IsValid new_ring
unfolding new_ring
new_ring-IsValid = ground (arith, length-replicate ring_size (the_empty))
  where
    the_empty : Message
    the_empty = []

pub put-IsValid : (m : Message) {r : Ring} → IsValid r → IsValid (put m r).1
unfolding put
put-IsValid m {r} v = ground (arith, length-set r.buffer r.head m)

pub take-IsValid : {r s : Ring} {m : Message} → IsValid r → take r ≡ some (m, s) → IsValid s
unfolding take
take-IsValid v e = ground arith
