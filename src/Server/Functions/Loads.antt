-- ===== src/Server/Functions/Loads.antt =====
-- How often the module is loaded.
use gpu_over_ip_capnp.Base.{
  ℕ, ◌+◌, ◌≡◌, ◌≢◌, refl, ◌∙◌, Option, none, some, List, [], ◌∷◌, ◌==◌, lookup, length,
  lookup-insert, arith, Bool-cases, inl, inr, All, map,
}
use gpu_over_ip_capnp.Server.Functions.{
  Cache, Loader, Request, Waiting, waiting, keep, loaded, resolve, new_cache,
}
use gpu_over_ip_capnp.Server.Functions.Cached.{run_all}

-- The handles of waiting requests are different from one another and from `hs`.
abbrev pub Fresh : List ℕ → List Waiting → Type 0
Fresh hs [] = Unit
Fresh hs (w ∷ ws) = All (λ h. w.request.handle ≢ h) hs × Fresh (w.request.handle ∷ hs) ws

-- The functions of handles other than `hs` are not cached.
abbrev Covers : List ℕ → Cache → Type 0
Covers hs c = (h : ℕ) → All (λ k. h ≢ k) hs → lookup h c.functions ≡ none

keep-loads : (c : Cache) (w : Waiting) (o : Option ℕ) → (keep c w o).1.loads ≡ c.loads
keep-loads c w none = refl
keep-loads c w (some f) = refl

keep-Covers :
    (hs : List ℕ) (c : Cache) (w : Waiting) (o : Option ℕ)
    → Covers hs c
    → Covers (w.request.handle ∷ hs) (keep c w o).1
keep-Covers hs c w none v h apart = v h apart.1
keep-Covers hs c w (some f) v h apart = elim (Bool-cases (h == w.request.handle)) [
  | inl same ↦ absurd (apart.0 (ground arith))
  | inr other ↦ rw (lookup-insert h w.request.handle f c.functions, other) (v h apart.1)
]

loaded-loads :
    (d : Loader) (w : Waiting) (c : Cache) (o : Option ℕ) → (loaded d w c o).1.loads ≡ c.loads + 1
loaded-loads d w c none = refl
loaded-loads d w c (some m) =
    keep-loads (record c { default_module = some m; loads = c.loads + 1 }) w (d.find m w.func_name)

loaded-Covers :
    (hs : List ℕ) (d : Loader) (w : Waiting) (c : Cache) (o : Option ℕ)
    → Covers hs c
    → Covers (w.request.handle ∷ hs) (loaded d w c o).1
loaded-Covers hs d w c none v h apart = v h apart.1
loaded-Covers hs d w c (some m) v h apart =
    keep-Covers hs (record c { default_module = some m; loads = c.loads + 1 }) w
      (d.find m w.func_name) v h apart

-- A request for a new handle that saw no module loads it.
resolve_new :
    (d : Loader) (w : Waiting) (c : Cache)
    → w.module_seen ≡ none
    → lookup w.request.handle c.functions ≡ none
    → resolve d w c ≡ loaded d w c (d.load c.loads)
unfolding resolve
resolve_new d w c unseen new = rw (new, unseen) refl

run_all-loads :
    (hs : List ℕ) (d : Loader) (ws : List Waiting) (c : Cache)
    → All (λ (w : Waiting). w.module_seen ≡ none) ws
    → Fresh hs ws
    → Covers hs c
    → (run_all d ws c).loads ≡ c.loads + length ws
run_all-loads hs d [] c unseen fresh v = omega arith
run_all-loads hs d (w ∷ ws) c unseen fresh v =
    let one = resolve_new d w c unseen.0 (v w.request.handle fresh.0) in
    let next = (resolve d w c).1 in
    let v' : Covers (w.request.handle ∷ hs) next =
      rw one (loaded-Covers hs d w c (d.load c.loads) v) in
    let more : next.loads ≡ c.loads + 1 = rw one (loaded-loads d w c (d.load c.loads)) in
    omega (arith, run_all-loads (w.request.handle ∷ hs) d ws next unseen.1 fresh.1 v', more)

-- The requests that wait after each has looked at the empty cache.
abbrev pub first_looks : List Request → List Waiting
first_looks = map (waiting new_cache)

first_looks_unseen :
    (rs : List Request) → All (λ (w : Waiting). w.module_seen ≡ none) (first_looks rs)
unfolding new_cache
first_looks_unseen [] = tt
first_looks_unseen (r ∷ rs) = (refl, first_looks_unseen rs)

-- Requests for different handles that all look at the empty cache before the first of them has the
-- write lock load the module once each, whatever the driver answers.
loads_race :
    (d : Loader) (rs : List Request)
    → Fresh [] (first_looks rs)
    → (run_all d (first_looks rs) new_cache).loads ≡ length (first_looks rs)
unfolding new_cache
loads_race d rs fresh =
    run_all-loads [] d (first_looks rs) new_cache (first_looks_unseen rs) fresh (λ h apart. refl)
    ∙ omega arith
