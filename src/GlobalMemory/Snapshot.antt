-- ===== src/GlobalMemory/Snapshot.antt =====
-- What a reader of a snapshot has of the table.
use gpu_over_ip_capnp.Base.{
  ℕ, ◌≡◌, refl, sym, ap, ◌∙◌, true, Option, none, some, List, [], ◌∷◌, append-nil, String, Map,
  lookup, Text, decimal, scan, scan-decimal, ◌==◌, Bool-cases, inl, inr,
}
use gpu_over_ip_capnp.GlobalMemory.{
  RemoteAllocInfo, GlobalMemoryService, SnapshotEntry, snapshot, save_snapshot,
}

-- What a snapshot holds of a mapping.
pub record Place : Type 0 where
  pub node_id : String
  pub size : ℕ
  pub remote_handle : ℕ

abbrev pub place : RemoteAllocInfo → Place
place info = record { node_id = info.node_id; size = info.size; remote_handle = info.remote_handle }

abbrev pub places : Option RemoteAllocInfo → Option Place
places none = none
places (some info) = some (place info)

-- The entries of a document with their keys read as numbers.
abbrev pub read_entries : List SnapshotEntry → Map Place
read_entries [] = []
read_entries (e ∷ es) =
    (
      (scan 0 e.key).0,
      record { node_id = e.node_id; size = e.size; remote_handle = e.remote_handle },
    )
    ∷ read_entries es

-- What is read of a file, of which `none` does not exist.
abbrev pub read_file : {Doc : Type 0} → (Doc → List SnapshotEntry) → Option Doc → Map Place
read_file parse none = []
read_file parse (some text) = read_entries (parse text)

scan_key : (n : ℕ) → (scan 0 (decimal n)).0 ≡ n
scan_key n =
    ap (λ t. (scan 0 t).0) (sym (append-nil (decimal n)))
    ∙ ap (λ (p : ℕ × Text). p.0) (scan-decimal n [] tt)

read_entries-snapshot :
    (p : ℕ) (s : GlobalMemoryService)
    → lookup p (read_entries (snapshot s)) ≡ places (lookup p s.ptr_table)
unfolding snapshot
read_entries-snapshot p s = go s.ptr_table
  where
    go :
        (table : Map RemoteAllocInfo)
        → lookup p (read_entries (snapshot (record { ptr_table = table })))
          ≡ places (lookup p table)
    go [] = refl
    go ((k, info) ∷ table) =
        rw (scan_key k)
          (elim (Bool-cases (p == k)) [ inl hit ↦ rw hit refl | inr miss ↦ rw miss (go table) ])

-- With a library that parses what it dumps, the file that SaveSnapshot writes, where it opens, gives
-- back for every pointer the node, the size and the handle of its mapping, or that it has none.
read-save_snapshot :
    {Doc : Type 0} (dump : List SnapshotEntry → Doc) (parse : Doc → List SnapshotEntry)
    → ((es : List SnapshotEntry) → parse (dump es) ≡ es)
    → (p : ℕ) (s : GlobalMemoryService)
    → lookup p (read_file parse (save_snapshot dump true s)) ≡ places (lookup p s.ptr_table)
unfolding save_snapshot
read-save_snapshot dump parse reads p s = rw (reads (snapshot s)) (read_entries-snapshot p s)
