-- ===== src/Config/Validate/Tests.antt =====
-- Validate on concrete configurations.
use ezlb.Shared.{◌≡◌, refl, true, []}
use ezlb.Shared.Eq.{string_eq}
use ezlb.Shared.Result.{err}
use ezlb.Std.Sample.{sample_std}
use ezlb.Config.{Config, GlobalConfig, ServiceConfig}
use ezlb.Config.Validate.{validate, no_services, has_services}
use ezlb.Config.Validate.Sample.{global, written, accepted, accepted_lem}
use ezlb.Config.Validate.Sound.{is_distinct, names_of, listens_of, are_sound, validate-are_sound}

validate-are_sound_example :
    (is_distinct (names_of accepted.services) ≡ true)
    × (is_distinct (listens_of sample_std accepted.services) ≡ true)
    × (has_services sample_std accepted.services ≡ true)
    × (are_sound sample_std accepted.services ≡ true)
validate-are_sound_example = validate-are_sound sample_std written accepted accepted_lem

no_services_refused :
    validate sample_std (record { services = []; global = global }) ≡ err no_services
unfolding validate ezlb.Config.Validate.validate_traffic ezlb.Config.Log.get_level
no_services_refused = refl
