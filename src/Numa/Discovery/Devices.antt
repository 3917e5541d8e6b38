-- ===== src/Numa/Discovery/Devices.antt =====
-- Which devices the discovery finds, and which of them it says are degraded.
use gpu_over_ip_capnp.Base.{
  ◌≡◌, refl, Bool, true, false, ◌&&◌, not, Option, none, some, List, [], ◌∷◌, Text, codes, map, All,
  Bool-cases, inl, inr,
}
use gpu_over_ip_capnp.Go.{trim_space, same_text}
use gpu_over_ip_capnp.Numa.Discovery.{
  Source, ocxl, device_tree, Health, active, unknown, degraded, OpenCapiBinding, System,
  ocxl_binding, tree_binding, by_status, by_source, check_device_health, found_devices,
  discover_open_capi_devices,
}

abbrev pub is_degraded : Health → Bool
is_degraded active = false
is_degraded unknown = false
is_degraded degraded = true

abbrev pub is_ocxl : Source → Bool
is_ocxl ocxl = true
is_ocxl device_tree = false

-- A status is read and is not "active".
abbrev pub reports_other : Option Text → Bool
reports_other none = false
reports_other (some content) = not (same_text (trim_space content) (codes "active"))

abbrev pub first_choice : List Text → List Text → List Text
first_choice [] ts = ts
first_choice (p ∷ ps) ts = p ∷ ps

-- What the discovery says of a device is right.
abbrev pub IsJudged : System → OpenCapiBinding → Type 0
IsJudged s b = is_degraded b.health ≡ (is_ocxl b.source && reports_other (s.status b.path))

module _ (s : System) where
  by_status-parts :
      (o : Option Text) (b : OpenCapiBinding)
      → is_degraded b.health ≡ false
      → ((by_status s o b).path ≡ b.path)
        × ((by_status s o b).source ≡ b.source)
        × (is_degraded (by_status s o b).health ≡ reports_other o)
  by_status-parts none b h = (refl, refl, h)
  by_status-parts (some content) b h =
      elim (Bool-cases (same_text (trim_space content) (codes "active"))) [
        | inl same ↦ rw same ((refl, refl, h))
        | inr other ↦ rw other ((refl, refl, refl))
      ]

  by_source-parts :
      (o : Source) (b : OpenCapiBinding)
      → is_degraded b.health ≡ false
      → ((by_source s o b).path ≡ b.path)
        × ((by_source s o b).source ≡ b.source)
        × (is_degraded (by_source s o b).health ≡ (is_ocxl o && reports_other (s.status b.path)))
  by_source-parts ocxl b h = by_status-parts (s.status b.path) b h
  by_source-parts device_tree b h = (refl, refl, h)

  check-parts :
      (b : OpenCapiBinding)
      → is_degraded b.health ≡ false
      → ((check_device_health s b).path ≡ b.path)
        × ((check_device_health s b).source ≡ b.source)
        × (is_degraded (check_device_health s b).health
            ≡ (is_ocxl b.source && reports_other (s.status b.path)))
  unfolding check_device_health
  check-parts b h = by_source-parts b.source b h

  check-IsJudged :
      (b : OpenCapiBinding) → is_degraded b.health ≡ false → IsJudged s (check_device_health s b)
  check-IsJudged b h = let (path, source, health) = check-parts b h in rw (path, source) health

  checked-parts :
      (f : Text → OpenCapiBinding) (ps : List Text)
      → ((p : Text) → ((f p).path ≡ p) × (is_degraded (f p).health ≡ false))
      → (map (λ (b : OpenCapiBinding). b.path) (map (check_device_health s) (map f ps)) ≡ ps)
        × All (IsJudged s) (map (check_device_health s) (map f ps))
  checked-parts f [] h = (refl, tt)
  checked-parts f (p ∷ ps) h =
      let (paths, judged) = checked-parts f ps h in
      (
        rw ((check-parts (f p) (h p).1).0, (h p).0, paths) refl,
        (check-IsJudged (f p) (h p).1, judged),
      )

  found-parts :
      (ps : List Text)
      → (map (λ (b : OpenCapiBinding). b.path) (map (check_device_health s) (found_devices s ps))
          ≡ first_choice ps s.tree_paths)
        × All (IsJudged s) (map (check_device_health s) (found_devices s ps))
  unfolding found_devices
  found-parts [] = checked-parts (tree_binding s) s.tree_paths (λ p. (refl, refl))
  found-parts (p ∷ ps) = checked-parts (ocxl_binding s) (p ∷ ps) (λ q. (refl, refl))

  -- The devices are those of the first glob, and those of the device tree only where it finds none;
  -- one is degraded exactly where it is of the first and its status is read and is not "active".
  devices_lem :
      (map (λ (b : OpenCapiBinding). b.path) (discover_open_capi_devices s)
        ≡ first_choice s.ocxl_paths s.tree_paths)
      × All (IsJudged s) (discover_open_capi_devices s)
  unfolding discover_open_capi_devices
  devices_lem = found-parts s.ocxl_paths
