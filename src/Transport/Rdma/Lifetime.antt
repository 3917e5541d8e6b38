-- ===== src/Transport/Rdma/Lifetime.antt =====
-- The handles that an `RdmaTransport` holds from `Initialize` to `Cleanup`.
use gpu_over_ip_capnp.Base.{
  ℕ, ◌≡◌, refl, ◌∙◌, Bool, false, Option, none, some, List, [], ◌∷◌, ◌++◌, map, arith, handles,
  IsReleased, handles-append, returned, Map, lookup, Option-cases, inl, inr, map-insert_const,
}
use gpu_over_ip_capnp.Transport.Rdma.{
  Verbs, Event, use_of, RdmaTransport, open_first, use_device, create_protection_domain, initialize,
  search_devices, register_locked, register_memory, cleanup, if_some,
}

abbrev pub new_transport : RdmaTransport
new_transport = record {
  context = none;
  protection_domain = none;
  memory_regions = [];
  locked = false;
}

-- The calls of an object: `Initialize` first, then any number of `RegisterMemory`, with the events so
-- far.
pub data Lived (v : Verbs) : RdmaTransport → List Event → Type 0 where
  initialized :
      {t : RdmaTransport} {ok : Bool} {es : List Event}
      → initialize v new_transport ≡ ((ok, t), es)
      → Lived v t es
  registered :
      {s t : RdmaTransport} {ok : Bool} {es fs all : List Event} (ptr size : ℕ)
      → Lived v s es
      → register_memory v ptr size s ≡ returned ((ok, t), fs)
      → all ≡ es ++ fs
      → Lived v t all

abbrev kind_if : ℕ → Option ℕ → List ℕ
kind_if k none = []
kind_if k (some p) = k ∷ []

-- The handles that a state stands for.
abbrev pub held : RdmaTransport → List ℕ
held t = map (λ e. 3) t.memory_regions ++ (kind_if 2 t.protection_domain ++ kind_if 1 t.context)

open_first_holds :
    (v : Verbs) (ds : List ℕ)
    → handles use_of (open_first v ds none).1 [] ≡ some (kind_if 1 (open_first v ds none).0)
unfolding open_first
open_first_holds v [] = refl
open_first_holds v (d ∷ ds) = ground (arith, open_first_holds v ds)

use_device_holds :
    (v : Verbs) (found : Option ℕ)
    → let r = use_device v new_transport found in
      handles use_of r.1 (kind_if 1 found) ≡ some (held r.0.1)
unfolding use_device create_protection_domain
use_device_holds v none = refl
use_device_holds v (some d) = ground arith

search_holds :
    (v : Verbs) (ds : Option (List ℕ))
    → let r = search_devices v new_transport ds in handles use_of r.1 [] ≡ some (held r.0.1)
unfolding search_devices
search_holds v none = refl
search_holds v (some ds) =
    handles-append use_of (open_first v ds none).1 _ []
    ∙ rw (open_first_holds v ds) (use_device_holds v (open_first v ds none).0)

initialize_holds :
    (v : Verbs) → let r = initialize v new_transport in handles use_of r.1 [] ≡ some (held r.0.1)
unfolding initialize
initialize_holds v = search_holds v v.device_list

register_holds :
    (v : Verbs) (ptr size : ℕ) (t : RdmaTransport)
    → let r = register_locked v ptr size t in handles use_of r.1 (held t) ≡ some (held r.0.1)
unfolding register_locked
register_holds v ptr size t = elim (Option-cases (lookup ptr t.memory_regions)) [
  | inl missing ↦ elim (Option-cases (v.reg_mr ptr size)) [
    | inl refused ↦ ground arith
    | inr (key, made) ↦ ground (arith, map-insert_const {B = ℕ} 3 ptr key t.memory_regions missing)
  ]
  | inr (key, found) ↦ ground arith
]

register_memory_holds :
    (v : Verbs) (ptr size : ℕ) (s t : RdmaTransport) (ok : Bool) (fs : List Event)
    → register_memory v ptr size s ≡ returned ((ok, t), fs)
    → handles use_of fs (held s) ≡ some (held t)
unfolding register_memory
register_memory_holds v ptr size s t ok fs e = ground (arith, register_holds v ptr size s)

Lived-held :
    (v : Verbs) {t : RdmaTransport} {es : List Event}
    → Lived v t es
    → handles use_of es [] ≡ some (held t)
Lived-held v (initialized {t} {ok} {es} e) = ground (arith, initialize_holds v)
Lived-held v (registered {s} {t} {ok} {es} {fs} {all} ptr size l e joined) = rw joined (
    handles-append use_of es fs []
    ∙ rw (Lived-held v l) (register_memory_holds v ptr size s t ok fs e))

dereg_all :
    (m : Map ℕ) (hs : List ℕ)
    → handles use_of (map (λ e. Event.dereg_mr e.0) m) (map (λ e. 3) m ++ hs) ≡ some hs
dereg_all [] hs = refl
dereg_all (e ∷ m) hs = dereg_all m hs

cleanup_frees : (t : RdmaTransport) → handles use_of (cleanup t).1 (held t) ≡ some []
unfolding cleanup
cleanup_frees t =
    handles-append use_of (map (λ e. Event.dereg_mr e.0) t.memory_regions) _ _
    ∙ rw dereg_all (close_all t.protection_domain t.context)
  where
    close_all :
        (pd context : Option ℕ)
        → handles use_of
            (if_some Event.dealloc_pd pd ++ if_some Event.close_device context)
            (kind_if 2 pd ++ kind_if 1 context)
          ≡ some []
    close_all none none = refl
    close_all none (some c) = refl
    close_all (some p) none = refl
    close_all (some p) (some c) = refl

-- After `Initialize` and any registrations, in whatever way each of them ended, `Cleanup` gives back
-- every region, protection domain and device that the calls took, the last first.
pub cleanup_releases :
    (v : Verbs) {t : RdmaTransport} {es : List Event}
    → Lived v t es
    → IsReleased use_of (es ++ (cleanup t).1)
cleanup_releases v {t} {es} l =
    handles-append use_of es (cleanup t).1 [] ∙ rw (Lived-held v l) (cleanup_frees t)
