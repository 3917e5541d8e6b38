-- ===== src/Numa/OpenCapi/Released.antt =====
-- What becomes of the descriptors and of the mappings.
use gpu_over_ip_capnp.Base.{
  ℕ, ◌≡◌, ◌≢◌, refl, ap, ◌∙◌, Bool, true, false, ◌&&◌, Option, none, some, List, [], ◌∷◌, ◌++◌,
  if◌then◌else◌, map, Text, handles, handles-append, continue, IsReleased, Bool-cases, Option-cases,
  inl, inr, arith,
}
use gpu_over_ip_capnp.Numa.OpenCapi.{
  Driver, OpenCapiDevice, fd_use, map_use, dev_path, mapped, with_name, get_device_info, put_first,
  device_loop, discover_devices, is_mapped, map_memory, unmap_memory,
}

abbrev pub answers : Option (List ℕ) → Bool
answers none = false
answers (some buf) = true

module _ (d : Driver) where
  abbrev pub usable_name : Text → List Text
  usable_name name =
      if d.open_ok (dev_path name) && answers (d.afu_name (dev_path name)) then name ∷ [] else []

  -- The entries that are no directories, open and answer, in their order.
  abbrev pub usable : List (Text × Bool) → List Text
  usable [] = []
  usable ((name, is_dir) ∷ es) = (if is_dir then [] else usable_name name) ++ usable es

  get_device_info-IsReleased : (name : Text) → IsReleased fd_use (get_device_info d name).1
  unfolding get_device_info
  get_device_info-IsReleased name = ground arith

  abbrev names : List OpenCapiDevice → List Text
  names = map λ v. v.name

  put_first-names :
      (name : Text) (o : Option (List ℕ)) (ds : List OpenCapiDevice)
      → names (put_first d (with_name d name o) ds)
        ≡ (if answers o then name ∷ [] else []) ++ names ds
  put_first-names name none ds = refl
  put_first-names name (some buf) ds = refl

  get_device_info-names :
      (name : Text) (ds : List OpenCapiDevice)
      → names (put_first d (get_device_info d name).0 ds) ≡ usable_name name ++ names ds
  unfolding get_device_info
  get_device_info-names name ds = elim (Bool-cases (d.open_ok (dev_path name))) [
    | inl ok ↦ rw ok (put_first-names name (d.afu_name (dev_path name)) ds)
    | inr failed ↦ rw failed refl
  ]

  -- Every descriptor that the discovery opens is closed, and the devices that it finds are the
  -- entries that are no directories, can be opened and tell their name, in their order.
  device_loop_lem :
      (es : List (Text × Bool))
      → IsReleased fd_use (device_loop d es).1 × (names (device_loop d es).0 ≡ usable es)
  unfolding device_loop
  device_loop_lem [] = (refl, refl)
  device_loop_lem ((name, true) ∷ es) = device_loop_lem es
  device_loop_lem ((name, false) ∷ es) =
      let (released, found) = device_loop_lem es in
      (
        handles-append fd_use (get_device_info d name).1 (device_loop d es).1 []
            ∙ ap (continue (handles fd_use (device_loop d es).1)) (get_device_info-IsReleased name)
            ∙ released,
        get_device_info-names name (device_loop d es).0 ∙ ap (λ ts. usable_name name ++ ts) found,
      )

  -- However the discovery ends, it closes every descriptor that it opens, and where it finds devices
  -- they are those of the directory.
  discover_devices_lem :
      IsReleased fd_use (discover_devices d).1
      × ((es : List (Text × Bool))
          → d.dir_exists ≡ true
          → d.entries ≡ some es
          → (discover_devices d).0 ≡ some (device_loop d es).0)
  unfolding discover_devices
  discover_devices_lem = elim (Bool-cases d.dir_exists) [
    | inl there ↦ elim (Option-cases d.entries) [
      | inl unread ↦ (rw (there, unread) refl, λ es h e. cc)
      | inr (es, e) ↦ (rw (there, e) (device_loop_lem es).0, λ fs h k. rw (there, k) refl)
    ]
    | inr absent ↦ (rw absent refl, λ es h e. cc)
  ]

  -- The descriptor is closed however the mapping ends, and the mapping stays exactly where the system
  -- made it, also where a slice of more than 2^30 bytes panics.
  map_memory_lem :
      (path : Text) (offset size : ℕ)
      → IsReleased fd_use (map_memory d path offset size).1
        × (handles map_use (map_memory d path offset size).1 []
            ≡ some
                (if d.open_ok path && is_mapped d (d.map_at path offset size) then 0 ∷ [] else []))
  unfolding map_memory
  map_memory_lem path offset size = ground arith

  -- A slice of at least one byte that is unmapped with success leaves no mapping.
  map-unmap :
      (path : Text) (offset size addr : ℕ)
      → (map_memory d path offset size).0 ≡ mapped addr size
      → size ≢ 0
      → d.munmap_ok addr size ≡ true
      → IsReleased map_use ((map_memory d path offset size).1 ++ (unmap_memory d addr size).1)
  unfolding map_memory unmap_memory
  map-unmap path offset size addr m z ok = elim (Option-cases (d.map_at path offset size)) [
    | inl none_made ↦ absurd (ground arith)
    | inr (at, e) ↦ ground arith
  ]
