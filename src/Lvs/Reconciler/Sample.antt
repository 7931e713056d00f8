-- ===== src/Lvs/Reconciler/Sample.antt =====
-- A kernel for tests, with a managed service of an earlier configuration and a foreign one.
use ezlb.Shared.{String, true, [], ◌∷◌}
use ezlb.Std.Sample.{sample_std}
use ezlb.Snat.Fake.{FakeManager, new_manager}
use ezlb.Lvs.Types.{Service, ServiceKey, no_stats}
use ezlb.Lvs.Handle.Fake.{FakeHandle, new_ipvs_handle, new_service}
use ezlb.Lvs.Handle.Laws.{IsWellFormed, IsWellFormed-new_ipvs_handle, new_service-IsWellFormed}
use ezlb.Lvs.Reconciler.{World}

abbrev pub service_at : String → String → Service String
service_at ip scheduler = record {
  sched_name = scheduler;
  pe_name = "";
  address = ip;
  stats = no_stats;
  fwmark = 0;
  flags = 0;
  timeout = 0;
  netmask = 4294967295;
  protocol = 6;
  port = 80;
  address_family = 2;
}

abbrev pub key_at : String → ServiceKey
key_at ip = record { address = ip; port = 80; protocol = 6 }

abbrev pub kernel : FakeHandle String
kernel =
    (new_service sample_std (service_at "10.0.0.3" "rr")
      (new_service sample_std (service_at "10.0.0.2" "rr") new_ipvs_handle).0).0

pub kernel-IsWellFormed : IsWellFormed sample_std kernel
kernel-IsWellFormed =
    new_service-IsWellFormed sample_std _
      (new_service-IsWellFormed sample_std _ (IsWellFormed-new_ipvs_handle sample_std)
        (service_at "10.0.0.2" "rr"))
      (service_at "10.0.0.3" "rr")

-- The service at 10.0.0.2 is managed, the one at 10.0.0.3 is foreign.
abbrev pub start : World (FakeHandle String) FakeManager
start = record { kernel = kernel; snat = new_manager; managed = (key_at "10.0.0.2", true) ∷ [] }
