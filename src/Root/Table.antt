-- ===== src/Root/Table.antt =====
-- A concrete map of fake pointers, which shows that `Mappings` can be met.
use gpu_over_ip_capnp.Base.{refl, [], Map, lookup, insert, erase, lookup-insert, lookup-erase}
use gpu_over_ip_capnp.Root.{RemoteAllocInfo, Mappings}

abbrev pub table : Mappings
table = record {
  Table = Map RemoteAllocInfo;
  empty = [];
  add = insert;
  get = lookup;
  remove = erase;
  get-empty = λ p. refl;
  get-add = lookup-insert;
  get-remove = lookup-erase;
}
