-- ===== src/Transport/Rdma/Tests.antt =====
-- Runs of `RdmaTransport`.
use gpu_over_ip_capnp.Base.{
  ◌≡◌, refl, Bool, true, false, ◌&&◌, some, List, [], ◌∷◌, ◌++◌, Io, handles, IsReleased, returned,
  ltb, if◌then◌else◌, arith, insert, lookup-insert_self,
}
use gpu_over_ip_capnp.Transport.Rdma.{
  Verbs, Event, use_of, RdmaTransport, gdr, initialize, register_memory, register_locked, transfer,
  completed, nothing, cleanup, search_devices, open_first, use_device, create_protection_domain,
}
use gpu_over_ip_capnp.Transport.Rdma.Paths.{
  IsFirst, qp_made, gdr_ok, reads_success, queues, transfer_leaves,
}
use gpu_over_ip_capnp.Transport.Rdma.Lifetime.{
  new_transport, Lived, initialized, registered, cleanup_releases,
}

-- The first device does not open, no queue is made for the receives, and the third poll finds the
-- completion.
abbrev verbs : Verbs
verbs = record {
  device_list = some (0 ∷ 1 ∷ []);
  open_device = λ d. ltb 0 d;
  alloc_pd = some 30;
  reg_mr = λ p n. some 44;
  send_cq = true;
  recv_cq = false;
  create_qp = λ s r. s;
  gdr_compiled = true;
  modify_qp = true;
  post_send = true;
  polled = λ i. if ltb 1 i then completed true else nothing;
  stale_success = false;
}

abbrev ready : RdmaTransport
ready = record {
  context = some 1;
  protection_domain = some 30;
  memory_regions = insert 7 44 [];
  locked = false;
}

third : IsFirst verbs 2
third = record {
  waits = λ i h. (let early : ltb 1 i ≡ false = ground arith in rw early refl);
  ends = cc;
}

transfer_leaves_example :
    (m : Io Event Bool) × (transfer verbs 9 7 64 900 5 gdr ready ≡ returned (some m))
    × (m.0 ≡ (
        qp_made verbs
        && (gdr_ok verbs gdr && (verbs.post_send && reads_success verbs (verbs.polled 2)))))
    × (handles use_of m.1 [] ≡ some (queues verbs))
transfer_leaves_example =
    transfer_leaves verbs 2 9 7 64 900 5 44 gdr ready (lookup-insert_self 7 44 []) refl (λ h. refl)
      third (omega arith)

abbrev empty : RdmaTransport
empty = record ready { memory_regions = [] }

register_once :
    register_memory verbs 7 64 empty ≡ returned ((true, ready), Event.reg_mr 7 true ∷ [])
unfolding register_memory register_locked
register_once = refl

abbrev opening : List Event
opening =
    Event.get_device_list true
    ∷ Event.open_device 0 false
    ∷ Event.open_device 1 true
    ∷ Event.free_device_list
    ∷ Event.alloc_pd true
    ∷ []

initialize_runs : initialize verbs new_transport ≡ ((true, empty), opening)
unfolding initialize search_devices open_first use_device create_protection_domain
initialize_runs = refl

lived : Lived verbs ready (opening ++ Event.reg_mr 7 true ∷ [])
lived = registered 7 64 (initialized initialize_runs) register_once refl

cleanup_releases_example :
    IsReleased use_of ((opening ++ Event.reg_mr 7 true ∷ []) ++ (cleanup ready).1)
cleanup_releases_example = cleanup_releases verbs lived
