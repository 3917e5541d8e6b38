-- ===== src/Base/Dict.antt =====
-- The hash and tree maps of the C++ sources, as association lists keyed by numbers. The order of
-- the entries stands for an iteration order that the program does not rely on.
use Prim.Native.Nat.{ℕ}
use mathlib.Core.Path.{◌≡◌, refl}
use mathlib.Core.Option.{Option, none, some}
use mathlib.Core.List.{List, [], ◌∷◌, map}
use native.Mathlib.Omega.{arith}
use mathlib.Core.Path.{subst, ap}
use mathlib.Core.Logic.{inl, inr}
use gpu_over_ip_capnp.Base.Tests.{◌==◌, if◌then◌else◌, Bool-cases}
use gpu_over_ip_capnp.Base.Lists.{All}

abbrev pub Map {ℓ} : Type ℓ → Type ℓ
Map V = List (ℕ × V)

module _ {ℓ} {V : Type ℓ} where
  -- `m.find(k)`
  abbrev pub lookup : ℕ → Map V → Option V
  lookup k [] = none
  lookup k ((j, v) ∷ m) = if k == j then some v else lookup k m

  -- `m[k] = v`
  unfoldable pub insert : ℕ → V → Map V → Map V
  insert k v [] = (k, v) ∷ []
  insert k v ((j, w) ∷ m) = if k == j then (k, v) ∷ m else (j, w) ∷ insert k v m

  -- `m.erase(k)`; every entry of the key goes, a map has one at most.
  pub erase : ℕ → Map V → Map V
  erase k [] = []
  erase k ((j, v) ∷ m) = let rest = erase k m in if k == j then rest else (j, v) ∷ rest

  pub lookup-insert :
      (j k : ℕ) (v : V) (m : Map V)
      → lookup j (insert k v m) ≡ (if j == k then some v else lookup j m)
  unfolding insert
  lookup-insert j k v [] = refl
  lookup-insert j k v ((i, w) ∷ m) = ground (arith, lookup-insert j k v m)

  pub lookup-insert_self : (k : ℕ) (v : V) (m : Map V) → lookup k (insert k v m) ≡ some v
  lookup-insert_self k v m = ground (arith, lookup-insert k k v m)

  -- No key has two entries.
  abbrev pub IsDistinct : Map V → Type ℓ
  IsDistinct [] = Unit
  IsDistinct ((k, v) ∷ m) = (lookup k m ≡ none) × IsDistinct m

  pub insert-IsDistinct : (k : ℕ) (v : V) (m : Map V) → IsDistinct m → IsDistinct (insert k v m)
  unfolding insert
  insert-IsDistinct k v [] d = (refl, tt)
  insert-IsDistinct k v ((j, w) ∷ m) d =
      ground (arith, lookup-insert j k v m, insert-IsDistinct k v m d.1)

  pub lookup-erase :
      (j k : ℕ) (m : Map V) → lookup j (erase k m) ≡ (if j == k then none else lookup j m)
  unfolding erase
  lookup-erase j k [] = ground arith
  lookup-erase j k ((i, w) ∷ m) = ground (arith, lookup-erase j k m)

  -- The keys in iteration order.
  abbrev pub keys : Map V → List ℕ
  keys = map λ e. e.0

module _ {ℓ κ} {V : Type ℓ} (P : V → Type κ) where
  abbrev pub AllValues : Map V → Type κ
  AllValues = All λ (e : ℕ × V). P e.1

  pub lookup-AllValues : (k : ℕ) (m : Map V) (v : V) → AllValues m → lookup k m ≡ some v → P v
  lookup-AllValues k [] v b e = cc
  lookup-AllValues k ((j, w) ∷ m) v b e = elim (Bool-cases (k == j)) [
    | inl hit ↦ subst P (ground arith) b.0
    | inr miss ↦ lookup-AllValues k m v b.1 (ground arith)
  ]

  pub insert-AllValues : (k : ℕ) (v : V) (m : Map V) → P v → AllValues m → AllValues (insert k v m)
  unfolding insert
  insert-AllValues k v [] h b = (h, tt)
  insert-AllValues k v ((j, w) ∷ m) h b = elim (Bool-cases (k == j)) [
    | inl hit ↦ rw hit (h, b.1)
    | inr miss ↦ rw miss (b.0, insert-AllValues k v m h b.1)
  ]

-- A new key adds one entry.
pub map-insert_const {ℓ κ} :
    {V : Type ℓ} {B : Type κ} (b : B) (k : ℕ) (v : V) (m : Map V)
    → lookup k m ≡ none
    → map (λ (e : ℕ × V). b) (insert k v m) ≡ b ∷ map (λ (e : ℕ × V). b) m
unfolding insert
map-insert_const b k v [] h = refl
map-insert_const b k v ((j, w) ∷ m) h = elim (Bool-cases (k == j)) [
  | inl hit ↦ absurd (ground arith)
  | inr miss ↦ rw miss (ap (λ bs. b ∷ bs) (map-insert_const b k v m (ground arith)))
]
