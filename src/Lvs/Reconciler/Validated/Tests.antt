-- ===== src/Lvs/Reconciler/Validated/Tests.antt =====
-- Validate on the sample configuration, whose service leaves its protocol out.
use ezlb.Shared.{◌≡◌, true, String, []}
use ezlb.Shared.Eq.{string_eq}
use ezlb.Shared.GoMap.{GoMap}
use ezlb.Shared.Result.{ok}
use ezlb.Std.Sample.{sample_std}
use ezlb.Config.Validate.Sample.{written, accepted, accepted_lem}
use ezlb.Lvs.Reconciler.Validated.{HasNumericPorts, validate-build_desired_state}
use ezlb.Lvs.Types.{ServiceKey}
use ezlb.Lvs.Reconciler.{DesiredService}
use ezlb.Lvs.Reconciler.Build.{build_desired_state}

numeric_ports : HasNumericPorts sample_std written.services
numeric_ports = (λ host port p. cc, (λ host port p. cc, (λ host port p. cc, tt)), tt)

validate-build_desired_state_example :
    (dm : GoMap ServiceKey (DesiredService String)) × (build_desired_state sample_std {E = Unit {0}}
        {F = Unit {0}}
        (λ address. true)
        accepted.services
        []
      ≡ ok dm)
validate-build_desired_state_example =
    validate-build_desired_state sample_std {E = Unit {0}} {F = Unit {0}} (λ address. true) written
      accepted accepted_lem numeric_ports
