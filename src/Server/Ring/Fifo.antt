-- ===== src/Server/Ring/Fifo.antt =====
-- The ring against a bounded queue.
use gpu_over_ip_capnp.Base.{
  ℕ, zero, suc, ◌+◌, ◌-◌, ◌%◌, ◌<◌, ◌≡◌, ◌≢◌, refl, sym, ap, ◌∙◌, Bool, true, false, Option, none,
  some, List, [], ◌∷◌, ◌++◌, if◌then◌else◌, ◌==◌, ltb, Bool-cases, inl, inr, get_or, set, length,
  get_or-set_self, get_or-set_ne, arith,
}
use gpu_over_ip_capnp.Server.Ring.{
  Message, Ring, ring_size, put, take, IsValid, put-IsValid, take-IsValid,
}

-- The number of messages in the ring, and those messages from the oldest on.
abbrev pub count : Ring → ℕ
count r = (r.head + ring_size - r.tail) % ring_size

abbrev pub from : List Message → ℕ → ℕ → List Message
from buffer t zero = []
from buffer t (suc n) = get_or buffer t [] ∷ from buffer ((t + 1) % ring_size) n

unfoldable pub contents : Ring → List Message
contents r = from r.buffer r.tail (count r)

-- A queue that holds fewer messages than the ring has slots.
pub put_queue : Message → List Message → Bool × List Message
put_queue m q = if ltb (length q + 1) ring_size then (true, q ++ m ∷ []) else (false, q)

pub take_queue : List Message → Option (Message × List Message)
take_queue [] = none
take_queue (m ∷ q) = some (m, q)

length-from : (buffer : List Message) (t n : ℕ) → length (from buffer t n) ≡ n
length-from buffer t zero = refl
length-from buffer t (suc n) = ap suc (length-from buffer ((t + 1) % ring_size) n)

pub length-contents : (r : Ring) → length (contents r) ≡ count r
unfolding contents
length-contents r = length-from r.buffer r.tail (count r)

-- A write behind the last of `n` messages appends it.
from-set :
    (buffer : List Message) (m : Message) (t n i : ℕ)
    → length buffer ≡ ring_size
    → t < ring_size
    → n + 1 < ring_size
    → i ≡ (t + n) % ring_size
    → from (set buffer i m) t (suc n) ≡ from buffer t n ++ m ∷ []
from-set buffer m t zero i l ht hn e =
    let at : i ≡ t = omega arith in rw (at, get_or-set_self buffer t m [] (omega arith)) refl
from-set buffer m t (suc n) i l ht hn e =
    let apart : i ≢ t = λ same. omega arith in
    let rest =
      from-set buffer m ((t + 1) % ring_size) n i l (omega arith) (omega arith) (omega arith) in
    rw (get_or-set_ne buffer i t m [] apart) (ap (λ q. get_or buffer t [] ∷ q) rest)

from_pos :
    (buffer : List Message) (t n k : ℕ)
    → n ≡ suc k
    → from buffer t n ≡ get_or buffer t [] ∷ from buffer ((t + 1) % ring_size) k
from_pos buffer t n k e = rw e refl

-- A put into the ring is a put into the queue of its messages: it appends the message, or drops it
-- where ring_size - 1 messages wait.
put_refines :
    (m : Message) {r : Ring}
    → IsValid r
    → ((put m r).0, contents (put m r).1) ≡ put_queue m (contents r)
unfolding put put_queue contents
put_refines m {r} v = elim (Bool-cases ((r.head + 1) % ring_size == r.tail)) [
  | inl full ↦
      let n : count r ≡ ring_size - 1 = ground arith in
      rw full (rw (length-from r.buffer r.tail (count r)) (rw n refl))
  | inr room ↦
      let small : count r + 1 < ring_size = ground arith in
      let grown : ((r.head + 1) % ring_size + ring_size - r.tail) % ring_size ≡ suc (count r) =
        ground arith in
      let tail =
        from-set r.buffer m r.tail (count r) r.head v.slots v.tail_in small (omega arith) in
      rw (room, grown, tail) (ground (arith, length-from r.buffer r.tail (count r)))
]

-- The messages of the ring behind what a take gives.
abbrev pub view : Option (Message × Ring) → Option (Message × List Message)
view none = none
view (some (m, s)) = some (m, contents s)

-- A take from the ring is a take from the queue of its messages: the oldest one, if there is one.
take_refines : {r : Ring} → IsValid r → view (take r) ≡ take_queue (contents r)
unfolding take take_queue contents
take_refines {r} v = elim (Bool-cases (r.head == r.tail)) [
  | inl empty ↦ let n : count r ≡ 0 = ground arith in rw (empty, n) refl
  | inr more ↦
      let less = (r.head + ring_size - (r.tail + 1) % ring_size) % ring_size in
      let n : count r ≡ suc less = ground arith in
      rw (more, from_pos r.buffer r.tail (count r) less n) refl
]

-- What the receive loop and the workers ask of the ring, and what they get.
pub data Op : Type 0 where
  put_op : Message → Op
  take_op : Op

pub data Answer : Type 0 where
  put_answer : Bool → Answer
  take_answer : Option Message → Answer

abbrev pub taken : {S : Type 0} → S → Option (Message × S) → Answer × S
taken s none = (take_answer none, s)
taken s (some (m, t)) = (take_answer (some m), t)

pub run_ring : List Op → Ring → List Answer
run_ring [] r = []
run_ring (put_op m ∷ ops) r = put_answer (put m r).0 ∷ run_ring ops (put m r).1
run_ring (take_op ∷ ops) r = (taken r (take r)).0 ∷ run_ring ops (taken r (take r)).1

pub run_queue : List Op → List Message → List Answer
run_queue [] q = []
run_queue (put_op m ∷ ops) q = put_answer (put_queue m q).0 ∷ run_queue ops (put_queue m q).1
run_queue (take_op ∷ ops) q = (taken q (take_queue q)).0 ∷ run_queue ops (taken q (take_queue q)).1

taken-view :
    {r : Ring} (o : Option (Message × Ring))
    → take r ≡ o
    → IsValid r
    → IsValid (taken r o).1
      × (((taken r o).0, contents (taken r o).1) ≡ taken (contents r) (view o))
taken-view none e v = (v, refl)
taken-view (some (m, s)) e v = (take-IsValid v e, refl)

-- Whatever is put into a ring and taken from it, in any order, the answers are those of the queue
-- of the messages that it holds, which has room for ring_size - 1 of them.
pub run_ring_refines :
    (ops : List Op) {r : Ring} → IsValid r → run_ring ops r ≡ run_queue ops (contents r)
unfolding run_ring run_queue
run_ring_refines [] v = refl
run_ring_refines (put_op m ∷ ops) {r} v =
    rw (run_ring_refines ops (put-IsValid m v), ← put_refines m v) refl
run_ring_refines (take_op ∷ ops) {r} v =
    let (next, same) = taken-view (take r) refl v in
    rw (run_ring_refines ops next, ← take_refines v, ← same) refl

pub take-none-count : {r : Ring} → IsValid r → take r ≡ none → count r ≡ 0
unfolding take
take-none-count v e = ground arith

pub take-some-count :
    {r s : Ring} {m : Message} → IsValid r → take r ≡ some (m, s) → count r ≡ count s + 1
unfolding take
take-some-count v e = ground arith

-- The same, for one answer.
pub put-true-contents :
    (m : Message) {r s : Ring} → IsValid r → put m r ≡ (true, s) → contents s ≡ contents r ++ m ∷ []
unfolding put_queue
put-true-contents m {r} {s} v e =
    let both : (true, contents s) ≡ put_queue m (contents r) =
      ap (λ (p : Bool × Ring). (p.0, contents p.1)) (sym e) ∙ put_refines m v in
    ground arith

pub take-some-contents :
    {r s : Ring} {m : Message} → IsValid r → take r ≡ some (m, s) → contents r ≡ m ∷ contents s
unfolding take_queue
take-some-contents {r} v e = take_queue-eq_some (contents r) (sym (take_refines v) ∙ ap view e)
  where
    take_queue-eq_some :
        {m : Message} {q' : List Message} (q : List Message)
        → take_queue q ≡ some (m, q')
        → q ≡ m ∷ q'
    take_queue-eq_some [] h = cc
    take_queue-eq_some (x ∷ q) h = cc
