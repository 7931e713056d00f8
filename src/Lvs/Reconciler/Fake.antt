-- ===== src/Lvs/Reconciler/Fake.antt =====
-- The reconciler over the in-memory handle, as the tests of pkg/lvs run it.
use ezlb.Shared.{String, Bool}
use ezlb.Shared.Order.{RangeOrder}
use ezlb.Std.{Std}
use ezlb.Snat.{SnatManager}
use ezlb.Lvs.Handle.Fake.{FakeError, FakeHandle, fake_handle}
use ezlb.Lvs.Reconciler.{Env}

abbrev pub fake_env :
    (std : Std) (o : RangeOrder) (is_healthy : String → Bool) {F N : Type 0}
    → SnatManager F N
    → Env std FakeError F (FakeHandle std.IP) N
fake_env std o is_healthy snat_mgr = record {
  handle = fake_handle std o;
  is_healthy = is_healthy;
  snat_mgr = snat_mgr;
  order = o;
}
