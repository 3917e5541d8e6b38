-- ===== src/GlobalMemory.antt =====
-- `GlobalMemoryService`: client/launcher/memory/global_memory.h and global_memory.cpp. A time point
-- is a number; the time of a call is its argument. The locks are shared or exclusive for one call
-- each, and a call is one step here; the module `Race` has look-ups in two steps. `nlohmann::json` is
-- not in the repository: a document is the list of the entries that are put into it, and its text is
-- a parameter.
pub mod Counting
pub mod Race
pub mod Snapshot
pub mod Tests
use gpu_over_ip_capnp.Base.{
  ℕ, suc, ◌+◌, ◌%◌, ◌^◌, ◌≡◌, Option, none, some, List, [], ◌∷◌, map, String, Map, lookup, insert,
  erase, keys, Bool, if◌then◌else◌, Text, decimal,
}

pub record RemoteAllocInfo : Type 0 where
  pub node_id : String
  pub size : ℕ
  pub remote_handle : ℕ
  pub access_count : ℕ
  pub last_access : ℕ

pub record GlobalMemoryService : Type 0 where
  pub ptr_table : Map RemoteAllocInfo

pub add_mapping : ℕ → ℕ → RemoteAllocInfo → GlobalMemoryService → GlobalMemoryService
add_mapping now dptr info s = record s {
  ptr_table = insert dptr (record info { access_count = 0; last_access = now }) s.ptr_table;
}

-- The entry after one more look-up, of 32 bits.
pub counted : ℕ → RemoteAllocInfo → RemoteAllocInfo
counted now info = record info {
  access_count = (info.access_count + 1) % 2 ^ 32;
  last_access = now;
}

pub get_mapping : ℕ → ℕ → GlobalMemoryService → Option RemoteAllocInfo × GlobalMemoryService
get_mapping now dptr s = elim (lookup dptr s.ptr_table) [
  | none ↦ (none, s)
  | some info ↦
      (some (counted now info), record s { ptr_table = insert dptr (counted now info) s.ptr_table })
]

pub remove_mapping : ℕ → GlobalMemoryService → GlobalMemoryService
remove_mapping dptr s = record s { ptr_table = erase dptr s.ptr_table }

pub get_all_pointers : GlobalMemoryService → List ℕ
get_all_pointers s = keys s.ptr_table

pub record SnapshotEntry : Type 0 where
  pub key : Text
  pub node_id : String
  pub size : ℕ
  pub remote_handle : ℕ

-- What `SaveSnapshot` puts into the document.
pub snapshot : GlobalMemoryService → List SnapshotEntry
snapshot s =
    map
      (λ e. record {
        key = decimal e.0;
        node_id = e.1.node_id;
        size = e.1.size;
        remote_handle = e.1.remote_handle;
      })
      s.ptr_table

-- `SaveSnapshot`: what is written to the file, `none` where it does not open and an error is printed
-- in place of it. `dump` is the text of a document, indented by four, as a `Doc`.
pub save_snapshot :
    {Doc : Type 0} → (List SnapshotEntry → Doc) → Bool → GlobalMemoryService → Option Doc
unfolding snapshot
save_snapshot dump is_open s = if is_open then some (dump (snapshot s)) else none
