-- ===== src/Server/Functions.antt =====
-- `getCudaFunction`: its two looks at the caches under the read lock, with which a request comes to
-- wait for the write lock, and its section under the write lock. Requests interleave between them.
-- `Loader` is what the driver answers: `load` a module for the n-th load since the start, and
-- `find` a function of a module by its name. Of the modules, the cache holds the one of the key
-- "default".
pub mod Cached
pub mod Loads
use gpu_over_ip_capnp.Base.{
  ℕ, zero, suc, ◌+◌, ◌≡◌, Bool, true, false, Option, none, some, List, [], ◌∷◌, ◌++◌, if◌then◌else◌,
  Text, Map, lookup, insert, Io, pure, call, ◌>>◌,
}

pub record Cache : Type 0 where
  pub functions : Map ℕ
  pub default_module : Option ℕ
  pub names : Map Text
  pub loads : ℕ

pub record Loader : Type 0 where
  pub load : ℕ → Option ℕ
  pub find : ℕ → Text → Option ℕ

-- A request of a kernel, by its handle and its name.
pub record Request : Type 0 where
  pub handle : ℕ
  pub name : Text

pub data Answer : Type 0 where
  found : ℕ → Answer
  no_module no_function : Answer

-- What a request holds when it waits for the write lock: whether the module was cached, and the
-- name that it will look for.
pub record Waiting : Type 0 where
  pub request : Request
  pub module_seen : Option ℕ
  pub func_name : Text

pub data Looked : Type 0 where
  hit : ℕ → Looked
  miss : Waiting → Looked

abbrev pub name_or : Text → Option Text → Text
name_or name none = name
name_or name (some known) = known

-- The second look, for the name of a handle.
abbrev pub name_of : Cache → Request → Text
name_of c r = name_or r.name (lookup r.handle c.names)

abbrev pub waiting : Cache → Request → Waiting
waiting c r = record { request = r; module_seen = c.default_module; func_name = name_of c r }

abbrev pub looked : Cache → Request → Option ℕ → Looked
looked c r (some f) = hit f
looked c r none = miss (waiting c r)

-- Both looks under the read lock, where no other request comes between them; otherwise the name
-- is that of a later cache than the rest of `Waiting`.
pub look_up : Cache → Request → Looked
look_up c r = looked c r (lookup r.handle c.functions)

abbrev pub keep : Cache → Waiting → Option ℕ → Answer × Cache
keep c w none = (no_function, c)
keep c w (some f) = (
  found f,
  record c {
    functions = insert w.request.handle f c.functions;
    names = insert w.request.handle w.func_name c.names;
  },
)

abbrev pub loaded : Loader → Waiting → Cache → Option ℕ → Answer × Cache
loaded d w c none = (no_module, record c { loads = c.loads + 1 })
loaded d w c (some m) =
    keep (record c { default_module = some m; loads = c.loads + 1 }) w (d.find m w.func_name)

abbrev pub with_module : Loader → Waiting → Cache → Option ℕ → Answer × Cache
with_module d w c (some m) = keep c w (d.find m w.func_name)
with_module d w c none = loaded d w c (d.load c.loads)

abbrev pub resolved : Loader → Waiting → Cache → Option ℕ → Answer × Cache
resolved d w c (some f) = (found f, c)
resolved d w c none = with_module d w c w.module_seen

-- The section under the write lock.
unfoldable pub resolve : Loader → Waiting → Cache → Answer × Cache
resolve d w c = resolved d w c (lookup w.request.handle c.functions)

abbrev pub finish : Loader → Cache → Looked → Answer × Cache
finish d c (hit f) = (found f, c)
finish d c (miss w) = resolve d w c

-- A request that no other comes between.
pub get_cuda_function : Loader → Request → Cache → Answer × Cache
unfolding look_up resolve
get_cuda_function d r c = finish d c (look_up c r)

unfoldable pub new_cache : Cache
new_cache = record { functions = []; default_module = none; names = []; loads = 0 }
