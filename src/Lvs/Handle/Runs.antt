-- ===== src/Lvs/Handle/Runs.antt =====
-- Any sequence of calls of the in-memory handle, from the empty one.
use ezlb.Shared.{List, [], ◌∷◌}
use ezlb.Std.{Std}
use ezlb.Lvs.Types.{Service, Destination}
use ezlb.Lvs.Handle.Fake.{
  FakeHandle, new_ipvs_handle, new_service, update_service, del_service, new_destination,
  update_destination, del_destination, flush,
}
use ezlb.Lvs.Handle.Laws.{
  IsWellFormed, IsWellFormed-new_ipvs_handle, new_service-IsWellFormed, update_service-IsWellFormed,
  del_service-IsWellFormed, new_destination-IsWellFormed, update_destination-IsWellFormed,
  del_destination-IsWellFormed, flush-IsWellFormed,
}

-- The calls that change the handle.
pub data Call (IP : Type 0) : Type 0 where
  create update remove : Service IP → Call IP
  attach change detach : Service IP → Destination IP → Call IP
  clear : Call IP

module _ (std : Std) where
  open std use {IP}

  unfoldable pub call : Call IP → FakeHandle IP → FakeHandle IP
  call (Call.create svc) h = (new_service std svc h).0
  call (Call.update svc) h = (update_service std svc h).0
  call (Call.remove svc) h = (del_service std svc h).0
  call (Call.attach svc dst) h = (new_destination std svc dst h).0
  call (Call.change svc dst) h = (update_destination std svc dst h).0
  call (Call.detach svc dst) h = (del_destination std svc dst h).0
  call Call.clear h = (flush std h).0

  unfoldable pub run : List (Call IP) → FakeHandle IP → FakeHandle IP
  run [] h = h
  run (c ∷ calls) h = run calls (call c h)

  call-IsWellFormed :
      (c : Call IP) (h : FakeHandle IP) → IsWellFormed std h → IsWellFormed std (call c h)
  unfolding call
  call-IsWellFormed (Call.create svc) h ok = new_service-IsWellFormed std h ok svc
  call-IsWellFormed (Call.update svc) h ok = update_service-IsWellFormed std h ok svc
  call-IsWellFormed (Call.remove svc) h ok = del_service-IsWellFormed std h ok svc
  call-IsWellFormed (Call.attach svc dst) h ok = new_destination-IsWellFormed std h ok svc dst
  call-IsWellFormed (Call.change svc dst) h ok = update_destination-IsWellFormed std h ok svc dst
  call-IsWellFormed (Call.detach svc dst) h ok = del_destination-IsWellFormed std h ok svc dst
  call-IsWellFormed Call.clear h ok = flush-IsWellFormed std h ok

  run_keeps :
      (calls : List (Call IP)) (h : FakeHandle IP)
      → IsWellFormed std h
      → IsWellFormed std (run calls h)
  unfolding run
  run_keeps [] h ok = ok
  run_keeps (c ∷ calls) h ok = run_keeps calls (call c h) (call-IsWellFormed c h ok)

  -- After any sequence of calls, failed ones included, the in-memory handle is well formed: each
  -- service and each destination stands once and under its own key, and the services are exactly the
  -- keys that have a map of destinations.
  pub run-IsWellFormed : (calls : List (Call IP)) → IsWellFormed std (run calls new_ipvs_handle)
  run-IsWellFormed calls = run_keeps calls new_ipvs_handle (IsWellFormed-new_ipvs_handle std)
