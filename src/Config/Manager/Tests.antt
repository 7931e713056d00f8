-- ===== src/Config/Manager/Tests.antt =====
-- The configuration manager on a file that is missing, rejected, and then accepted.
use ezlb.Shared.{◌≡◌, ℕ, suc, false, ◌||◌, Option, none, some, List, [], ◌∷◌}
use ezlb.Std.Sample.{sample_std}
use ezlb.Config.{Config}
use ezlb.Config.Manager.{ConfigManager}
use ezlb.Config.Manager.Reloads.{
  accepted as accepted_of, run, last_or, is_some_of, notify_each, run-accepted,
}
use ezlb.Config.Manager.Sample.{viper}
use ezlb.Config.Validate.Sample.{written, accepted, global}

abbrev start : ConfigManager Config ℕ
start = record { viper = written; current = accepted; on_change = false; on_reload = some suc }

abbrev empty : Config
empty = record { services = []; global = global }

abbrev files : List (Option Config)
files = none ∷ some written ∷ some empty ∷ some written ∷ []

run-accepted_example :
    let r = run sample_std viper files start 0 in
    let cfgs = accepted_of sample_std viper files written in
    (r.0.current ≡ last_or accepted cfgs)
    × (r.0.on_change ≡ (false || is_some_of cfgs))
    × (r.1 ≡ notify_each (some suc) cfgs 0)
run-accepted_example = run-accepted sample_std viper files start 0
