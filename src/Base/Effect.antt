-- ===== src/Base/Effect.antt =====
-- Calls of foreign libraries. A function that makes some returns its result and the calls that it
-- made, in order; what each call answers is a parameter of the model.
use Prim.Native.Nat.{ℕ}
use mathlib.Core.Path.{◌≡◌, refl}
use mathlib.Core.Bool.{Bool}
use mathlib.Core.Option.{Option, none, some}
use mathlib.Core.List.{List, [], ◌∷◌, ◌++◌}
use gpu_over_ip_capnp.Base.Tests.{◌==◌, if◌then◌else◌}

abbrev pub Io : Type 0 → Type 0 → Type 0
Io E A = A × List E

abbrev pub pure : {E A : Type 0} → A → Io E A
pure a = (a, [])

abbrev pub call : {E : Type 0} → E → Io E (Unit {0})
call e = (tt, e ∷ [])

infixl 5 ◌>>=◌ ◌>>◌
abbrev pub ◌>>=◌ : {E A B : Type 0} → Io E A → (A → Io E B) → Io E B
◌>>=◌ m f = ((f m.0).0, m.1 ++ (f m.0).1)

abbrev pub ◌>>◌ : {E B : Type 0} → Io E (Unit {0}) → Io E B → Io E B
◌>>◌ m k = (k.0, m.1 ++ k.1)

-- `if (!call()) { failed } next`
abbrev pub attempt : {E A : Type 0} → E → Bool → Io E A → Io E A → Io E A
attempt e ok failed next = call e >> (if ok then next else failed)

-- What a call does to the handles of its library: it gives out one of a kind, takes back one, or
-- neither.
pub data Use : Type 0 where
  opens closes : ℕ → Use
  plain : Use

abbrev take_back : ℕ → List ℕ → Option (List ℕ)
take_back k [] = none
take_back k (h ∷ hs) = if k == h then some hs else none

-- The handles that are open after a call, the last one first; `none` is a handle that is closed
-- before one opened after it, or closed when it is not open.
abbrev pub use_handle : Use → List ℕ → Option (List ℕ)
use_handle (opens k) hs = some (k ∷ hs)
use_handle (closes k) hs = take_back k hs
use_handle plain hs = some hs

abbrev pub continue : (List ℕ → Option (List ℕ)) → Option (List ℕ) → Option (List ℕ)
continue k none = none
continue k (some hs) = k hs

-- The handles that are open after a list of calls.
abbrev pub handles : {E : Type 0} → (E → Use) → List E → List ℕ → Option (List ℕ)
handles use_of [] hs = some hs
handles use_of (e ∷ es) hs = continue (handles use_of es) (use_handle (use_of e) hs)

-- Every handle that was given out was given back, each before those that are older.
abbrev pub IsReleased : {E : Type 0} → (E → Use) → List E → Type 0
IsReleased use_of es = handles use_of es [] ≡ some []

pub handles-append :
    {E : Type 0} (use_of : E → Use) (es fs : List E) (hs : List ℕ)
    → handles use_of (es ++ fs) hs ≡ continue (handles use_of fs) (handles use_of es hs)
handles-append use_of [] fs hs = refl
handles-append use_of (e ∷ es) fs hs = go (use_handle (use_of e) hs) (handles-append use_of es fs)
  where
    go :
        (r : Option (List ℕ))
        → ((ks : List ℕ)
            → handles use_of (es ++ fs) ks ≡ continue (handles use_of fs) (handles use_of es ks))
        → continue (handles use_of (es ++ fs)) r
          ≡ continue (handles use_of fs) (continue (handles use_of es) r)
    go none ih = refl
    go (some ks) ih = ih ks
