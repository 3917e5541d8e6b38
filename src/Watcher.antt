-- ===== src/Watcher.antt =====
-- `ConfigWatcher` of client/launcher/main.cpp. A tick is one round of its loop, after the sleep; the
-- file system is not in the repository: `written` is the time that it answers, or `none` where it
-- throws, and `content` is what yaml-cpp would read then. The first answer is the argument `last`.
pub mod Reloads
pub mod Tests
use gpu_over_ip_capnp.Base.{
  ℕ, Bool, true, false, Option, none, some, List, [], ◌∷◌, if◌then◌else◌, ◌==◌, String, Outcome,
  returned, blocked,
}
use gpu_over_ip_capnp.Float.{Float}
use gpu_over_ip_capnp.Dispatcher.{RemoteNode, Dispatcher}
use gpu_over_ip_capnp.Dispatcher.Config.{YamlNode, load_config}

pub record Tick : Type 0 where
  pub written : Option ℕ
  pub content : Option (List YamlNode)

module _ (f : Float) (connects : String → Bool) (raw : RemoteNode f) where
  -- The loop, over the rounds that are made.
  pub config_watcher : List Tick → ℕ → Dispatcher f → Outcome (ℕ × Dispatcher f)
  config_watcher [] last d = returned (last, d)
  config_watcher (k ∷ ks) last d = elim k.written [
    | none ↦ config_watcher ks last d
    | some current ↦ elim (current == last) [
      | true ↦ config_watcher ks last d
      | false ↦ elim (load_config f connects raw k.content d) [
        | blocked ↦ blocked
        | returned (ok, e) ↦ config_watcher ks current e
      ]
    ]
  ]
