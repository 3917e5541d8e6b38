-- ===== src/Server/Functions/Cached.antt =====
-- That the cache answers by the handle, whatever requests come between.
use gpu_over_ip_capnp.Base.{
  ℕ, ◌+◌, ◌≡◌, refl, ◌∙◌, Option, none, some, List, [], ◌∷◌, ◌==◌, ==_iff, Text, lookup,
  lookup-insert, lookup-insert_self, Bool-cases, inl, inr, Option-cases,
}
use gpu_over_ip_capnp.Server.Functions.{
  Cache, Loader, found, Waiting, look_up, keep, loaded, with_module, resolved, resolve,
  get_cuda_function,
}

-- A move of a request: a look, which changes no cache, or the section under the write lock, of a
-- request that looked at an earlier cache.
abbrev pub run_all : Loader → List Waiting → Cache → Cache
run_all d [] c = c
run_all d (w ∷ ws) c = run_all d ws (resolve d w c).1

keep-lookup :
    (c : Cache) (w : Waiting) (o : Option ℕ) (h f : ℕ)
    → lookup w.request.handle c.functions ≡ none
    → lookup h c.functions ≡ some f
    → lookup h (keep c w o).1.functions ≡ some f
keep-lookup c w none h f new old = old
keep-lookup c w (some g) h f new old = elim (Bool-cases (h == w.request.handle)) [
  | inl same ↦ let at : h ≡ w.request.handle = (==_iff _ _).0 same in cc
  | inr other ↦ rw (lookup-insert h w.request.handle g c.functions, other) old
]

with_module-lookup :
    (d : Loader) (c : Cache) (w : Waiting) (o : Option ℕ) (h f : ℕ)
    → lookup w.request.handle c.functions ≡ none
    → lookup h c.functions ≡ some f
    → lookup h (with_module d w c o).1.functions ≡ some f
with_module-lookup d c w (some m) h f new old = keep-lookup c w (d.find m w.func_name) h f new old
with_module-lookup d c w none h f new old = elim (Option-cases (d.load c.loads)) [
  | inl none_loaded ↦ rw none_loaded old
  | inr (m, e) ↦ rw e (
      keep-lookup (record c { default_module = some m; loads = c.loads + 1 }) w
        (d.find m w.func_name) h f new old)
]

-- A cached function stays cached.
resolve-lookup :
    (d : Loader) (w : Waiting) (c : Cache) (h f : ℕ)
    → lookup h c.functions ≡ some f
    → lookup h (resolve d w c).1.functions ≡ some f
unfolding resolve
resolve-lookup d w c h f old = elim (Option-cases (lookup w.request.handle c.functions)) [
  | inl new ↦ rw new (with_module-lookup d c w w.module_seen h f new old)
  | inr (g, e) ↦ rw e old
]

run_all-lookup :
    (d : Loader) (ws : List Waiting) (c : Cache) (h f : ℕ)
    → lookup h c.functions ≡ some f
    → lookup h (run_all d ws c).functions ≡ some f
run_all-lookup d [] c h f old = old
run_all-lookup d (w ∷ ws) c h f old =
    run_all-lookup d ws (resolve d w c).1 h f (resolve-lookup d w c h f old)

keep-found :
    (c : Cache) (w : Waiting) (o : Option ℕ) (f : ℕ)
    → (keep c w o).0 ≡ found f
    → lookup w.request.handle (keep c w o).1.functions ≡ some f
keep-found c w none f e = cc
keep-found c w (some g) f e = lookup-insert_self w.request.handle g c.functions ∙ cc

loaded-found :
    (d : Loader) (c : Cache) (w : Waiting) (o : Option ℕ) (f : ℕ)
    → (loaded d w c o).0 ≡ found f
    → lookup w.request.handle (loaded d w c o).1.functions ≡ some f
loaded-found d c w none f e = cc
loaded-found d c w (some m) f e =
    keep-found (record c { default_module = some m; loads = c.loads + 1 }) w (d.find m w.func_name)
      f e

resolved-found :
    (d : Loader) (w : Waiting) (c : Cache) (o : Option ℕ) (f : ℕ)
    → lookup w.request.handle c.functions ≡ o
    → (resolved d w c o).0 ≡ found f
    → lookup w.request.handle (resolved d w c o).1.functions ≡ some f
resolved-found d w c (some g) f at e = at ∙ cc
resolved-found d w c none f at e = go w.module_seen e
  where
    go :
        (o : Option ℕ)
        → (with_module d w c o).0 ≡ found f
        → lookup w.request.handle (with_module d w c o).1.functions ≡ some f
    go none e = loaded-found d c w (d.load c.loads) f e
    go (some m) e = keep-found c w (d.find m w.func_name) f e

resolve-found :
    (d : Loader) (w : Waiting) (c : Cache) (f : ℕ)
    → (resolve d w c).0 ≡ found f
    → lookup w.request.handle (resolve d w c).1.functions ≡ some f
unfolding resolve
resolve-found d w c f e = resolved-found d w c (lookup w.request.handle c.functions) f refl e

-- Once a waiting request for a handle has found its function, and whatever other requests end after
-- it, a request for that handle finds the same function, under any name, and changes no cache.
pub found_stays :
    (d : Loader) (w : Waiting) (c : Cache) (f : ℕ) (others : List Waiting) (name : Text)
    → (resolve d w c).0 ≡ found f
    → let after = run_all d others (resolve d w c).1 in
      get_cuda_function d (record { handle = w.request.handle; name = name }) after
      ≡ (found f, after)
unfolding get_cuda_function look_up
found_stays d w c f others name e =
    rw (run_all-lookup d others (resolve d w c).1 w.request.handle f (resolve-found d w c f e)) refl
