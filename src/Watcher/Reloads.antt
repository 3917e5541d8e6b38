-- ===== src/Watcher/Reloads.antt =====
-- Which configurations `ConfigWatcher` loads.
use gpu_over_ip_capnp.Base.{
  ℕ, ◌≡◌, refl, ap, ◌∙◌, Bool, true, false, Option, none, some, List, [], ◌∷◌, ◌++◌, ◌==◌, String,
  returned, arith, Bool-cases, Option-cases, inl, inr, append_assoc, append-nil,
}
use gpu_over_ip_capnp.Float.{Float}
use gpu_over_ip_capnp.Dispatcher.{RemoteNode, Dispatcher, find_node}
use gpu_over_ip_capnp.Dispatcher.Lock.{find_node-append}
use gpu_over_ip_capnp.Dispatcher.Config.{YamlNode, load_config, readable, load_config_lem}
use gpu_over_ip_capnp.Watcher.{Tick, config_watcher}

-- The rounds in which the time could be read, with that time.
abbrev pub timed : List Tick → List (ℕ × Option (List YamlNode))
timed [] = []
timed (k ∷ ks) = elim k.written [ none ↦ timed ks | some t ↦ (t, k.content) ∷ timed ks ]

-- The contents at the times that differ from the time before.
abbrev pub changes : ℕ → List (ℕ × Option (List YamlNode)) → List (Option (List YamlNode))
changes last [] = []
changes last ((t, content) ∷ rest) = elim (t == last) [
  | true ↦ changes last rest
  | false ↦ content ∷ changes t rest
]

abbrev pub last_time : ℕ → List (ℕ × Option (List YamlNode)) → ℕ
last_time last [] = last
last_time last ((t, content) ∷ rest) = last_time t rest

module _ (f : Float) (connects : String → Bool) (raw : RemoteNode f) where
  -- The nodes that a configuration adds.
  abbrev pub nodes_of : Option (List YamlNode) → List (RemoteNode f)
  nodes_of none = []
  nodes_of (some ys) = (readable f connects raw ys).1

  abbrev pub all_nodes : List (Option (List YamlNode)) → List (RemoteNode f)
  all_nodes [] = []
  all_nodes (c ∷ cs) = nodes_of c ++ all_nodes cs

  loaded :
      (content : Option (List YamlNode)) (d : Dispatcher f)
      → d.locked ≡ false
      → (ok : Bool) × (load_config f connects raw content d
          ≡ returned (ok, record d { nodes = d.nodes ++ nodes_of content }))
  loaded none d free = (
    false,
    load_config_lem f connects raw none d free
        ∙ ap (λ ns. returned (false, record d { nodes = ns })) (rw append-nil refl),
  )
  loaded (some ys) d free =
      ((readable f connects raw ys).0, load_config_lem f connects raw (some ys) d free)

  -- The watcher on a free dispatcher comes back from every round, with the mutex free. It remembers
  -- the last time that it could read, and the nodes of the configuration were appended for exactly
  -- those rounds whose time differs from that of the last round before that could be read.
  pub config_watcher_lem :
      (ks : List Tick) (last : ℕ) (d : Dispatcher f)
      → d.locked ≡ false
      → config_watcher f connects raw ks last d
        ≡ returned (
          last_time last (timed ks),
          record d { nodes = d.nodes ++ all_nodes (changes last (timed ks)) },
        )
  unfolding config_watcher
  config_watcher_lem [] last d free =
      ap (λ ns. returned (last, record d { nodes = ns })) (rw append-nil refl)
  config_watcher_lem (k ∷ ks) last d free = elim (Option-cases k.written) [
    | inl failed ↦ rw (timed, failed) (config_watcher_lem ks last d free)
    | inr (t, read) ↦ elim (Bool-cases (t == last)) [
      | inl same ↦
          let e : last ≡ t = ground arith in
          rw (timed, read)
            (rw (changes, same)
              (config_watcher_lem ks last d free
                ∙ ap
                    (λ time. returned (
                      last_time time (timed ks),
                      record d { nodes = d.nodes ++ all_nodes (changes last (timed ks)) },
                    ))
                    e))
      | inr changed ↦
          let (ok, load) = loaded k.content d free in
          rw (timed, read)
            (rw (changes, changed)
              (rw load (
                config_watcher_lem ks t (record d { nodes = d.nodes ++ nodes_of k.content }) free
                ∙ ap (λ ns. returned (last_time t (timed ks), record d { nodes = ns }))
                    (rw append_assoc refl))))
    ]
  ]

  -- A node that is known keeps what the dispatcher first read of it: whatever rounds the watcher
  -- makes and whatever the file says then, it comes back from all of them, and a search by the
  -- identifier finds the same node.
  pub watcher_finds_old :
      (ks : List Tick) (last : ℕ) (id : String) (m : RemoteNode f) (d : Dispatcher f)
      → d.locked ≡ false
      → find_node f id d.nodes ≡ some m
      → (time : ℕ) × (e : Dispatcher f) × (config_watcher f connects raw ks last d
          ≡ returned (time, e))
        × (find_node f id e.nodes ≡ some m)
  watcher_finds_old ks last id m d free found = (
    last_time last (timed ks),
    record d { nodes = d.nodes ++ all_nodes (changes last (timed ks)) },
    config_watcher_lem ks last d free,
    find_node-append f id d.nodes (all_nodes (changes last (timed ks))) ∙ rw found refl,
  )
