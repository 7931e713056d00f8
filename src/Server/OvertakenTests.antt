-- ===== src/Server/OvertakenTests.antt =====
-- The sample configuration is reloaded with another scheduler while a callback holds the old one.
use mathlib.Core.Path.{subst}
use ezlb.Shared.{◌≡◌, refl, ◌∙◌, sym, String, ℕ, true, false, some, [], ◌∷◌, ap, List}
use ezlb.Shared.GoMap.{lookup, insert}
use ezlb.Shared.Result.{ok, ok-injective}
use ezlb.Std.Sample.{sample_std, in_order}
use ezlb.Config.{Config, ServiceConfig}
use ezlb.Config.Sample.{web}
use ezlb.Config.Manager.{LoadError, load, decode}
use ezlb.Config.Manager.Sample.{viper}
use ezlb.Config.Validate.{validate}
use ezlb.Config.Validate.Sample.{accepted}
use ezlb.Lvs.Handle.Fake.{FakeHandle}
use ezlb.Lvs.Handle.Laws.{IsWellFormed-new_ipvs_handle}
use ezlb.Lvs.Reconciler.Validated.{HasNumericPorts}
use ezlb.Snat.Fake.{FakeManager}
use ezlb.Server.{Server}
use ezlb.Server.Daemon.{called, reconciled, IsUsableFile}
use ezlb.Server.Overtaken.{Steps, idle, overtaken-Serves}
use ezlb.Server.Settled.{IsUsable, Serves}
use ezlb.Server.Tests.{before, snat, metrics, accepted-IsUsable}

abbrev other : Config
other = record accepted { services = record web { scheduler = "lc" } ∷ [] }

other_lem : validate sample_std other ≡ ok other
unfolding validate ezlb.Config.Validate.validate_services ezlb.Config.Validate.validate_service
    ezlb.Config.Validate.validate_backends ezlb.Config.Validate.validate_traffic
    ezlb.Config.Validate.validate_address ezlb.Config.Validate.validate_health_check
    ezlb.Config.Validate.validate_http ezlb.Config.Validate.validate_snat lookup insert
    ezlb.Config.Log.get_level ezlb.Config.HealthCheck.get_type ezlb.Config.HealthCheck.is_enabled
other_lem = refl

numeric : HasNumericPorts sample_std other.services
numeric = (λ host port p. cc, (λ host port p. cc, (λ host port p. cc, tt)), tt)

load-other : (v : Config) → (load sample_std viper (some other) v).1 ≡ ok other
unfolding load decode
load-other v = rw other_lem refl

other-IsUsable :
    IsUsableFile sample_std in_order viper snat metrics (some other) before.config_mgr.viper
other-IsUsable cfg p =
    subst (IsUsable sample_std)
      (ok-injective {E = LoadError String} (sym (load-other before.config_mgr.viper) ∙ p))
      (other, other_lem, numeric, (λ host port ip p q. cc, tt))

-- The scheduler of the first service.
abbrev first_scheduler : List ServiceConfig → String
first_scheduler [] = ""
first_scheduler (svc ∷ services) = svc.scheduler

other-differs : ¬ (other ≡ accepted)
other-differs same = cc (ap (λ c. first_scheduler c.services) same)

overtaken-Serves_example :
    (t : Server Config (FakeHandle String) FakeManager ℕ) × Steps sample_std in_order viper snat
      metrics
      (idle sample_std in_order viper snat metrics before called accepted false)
      (idle sample_std in_order viper snat metrics t reconciled accepted true)
    × (t.config_mgr.current ≡ other)
    × (t.config_mgr.on_change ≡ false)
    × Serves sample_std in_order snat metrics accepted t
overtaken-Serves_example =
    overtaken-Serves sample_std in_order viper snat metrics before (some other) other
      (load-other before.config_mgr.viper) accepted false (IsWellFormed-new_ipvs_handle sample_std)
      accepted-IsUsable other-IsUsable other-differs
