-- ===== src/Server/Messages/Panics.antt =====
-- The messages at which `processMessage` panics.
use gpu_over_ip_capnp.Base.{
  ℕ, zero, suc, ◌+◌, ◌≤◌, ◌≡◌, refl, ap, ◌∙◌, Bool, true, false, ◌&&◌, List, [], ◌∷◌, ltb, ltb→le,
  leb, ◌==◌, length, split_at, arith, Bool-cases, inl, inr,
}
use gpu_over_ip_capnp.Numa.{Host, memcpy_operation}
use gpu_over_ip_capnp.Numa.Routing.{panics, is_local, route_panics}
use gpu_over_ip_capnp.Server.Ring.{Message}
use gpu_over_ip_capnp.Server.Messages.{
  header_size, Metadata, read_metadata, Outcome, too_short, mismatch, routed, access,
  process_message,
}

abbrev pub outcome_panics : Outcome → Bool
outcome_panics too_short = false
outcome_panics mismatch = false
outcome_panics (routed a) = panics a

pub metadata_of : Message → Metadata
metadata_of msg = read_metadata (split_at header_size msg).0

-- A copy of no bytes to an address of the current node.
abbrev pub is_empty_copy : Host → Metadata → Bool
is_empty_copy h m = is_local h m.dst_device && (m.operation == memcpy_operation && m.data_size == 0)

length-split_at : (n : ℕ) (xs : List ℕ) → n ≤ length xs → length (split_at n xs).0 ≡ n
length-split_at zero xs h = refl
length-split_at (suc n) [] h = absurd (omega arith)
length-split_at (suc n) (x ∷ xs) h = ap suc (length-split_at n xs (omega arith))

length-split_at_rest :
    (n : ℕ) (xs : List ℕ) → n ≤ length xs → length (split_at n xs).1 + n ≡ length xs
length-split_at_rest zero xs h = omega arith
length-split_at_rest (suc n) [] h = absurd (omega arith)
length-split_at_rest (suc n) (x ∷ xs) h = omega (arith, length-split_at_rest n xs (omega arith))

&&-false : (a b : Bool) → false ≡ (a && (b && false))
&&-false false b = refl
&&-false true false = refl
&&-false true true = refl

&&-same : (a b c : Bool) → (a && (b && (c && c))) ≡ (a && (b && c))
&&-same a b false = refl
&&-same a b true = refl

access_panics :
    (h : Host) (m : Metadata) (msg : Message)
    → header_size ≤ length msg
    → outcome_panics (access h m msg).0 ≡ is_empty_copy h m
unfolding access
access_panics h m msg long = elim (Bool-cases (ltb (length msg) (header_size + m.data_size))) [
  | inl lacks ↦
      let some_data : (m.data_size == 0) ≡ false = ground arith in
      rw (lacks, some_data) (&&-false (is_local h m.dst_device) (m.operation == memcpy_operation))
  | inr whole ↦
      let body = (split_at header_size msg).1 in
      let payload = (split_at m.data_size body).0 in
      let size : length payload ≡ m.data_size =
        length-split_at m.data_size body
          (omega (arith, length-split_at_rest header_size msg long, ltb→le _ _ whole)) in
      rw whole (
        route_panics h m.dst_device m.data_size m.operation payload
        ∙ rw size (
            &&-same (is_local h m.dst_device) (m.operation == memcpy_operation) (m.data_size == 0)))
]

-- A message panics exactly when it has a header that asks for a copy of no bytes to an address of
-- the current node.
pub process_panics :
    (h : Host) (msg : Message)
    → outcome_panics (process_message h msg).0
      ≡ (leb header_size (length msg) && is_empty_copy h (metadata_of msg))
unfolding process_message metadata_of
process_panics h msg = elim (Bool-cases (ltb (length msg) header_size)) [
  | inl short ↦
      let low : leb header_size (length msg) ≡ false = ground arith in rw (short, low) refl
  | inr long ↦
      let high : leb header_size (length msg) ≡ true = ground arith in
      rw (long, high)
        (access_panics h (read_metadata (split_at header_size msg).0) msg (ltb→le _ _ long))
]
