-- ===== src/Config/Manager/Sample.antt =====
-- A viper for tests.
use ezlb.Shared.{String, Option, none, some}
use ezlb.Shared.Result.{ok}
use ezlb.Config.{Config}
use ezlb.Config.Manager.{Viper}
use ezlb.Config.Validate.Sample.{written}

-- A viper that holds the document it has read last.
abbrev read : Option Config → Config → Config × Option String
read none v = (v, some "no such file")
read (some cfg) v = (cfg, none)

abbrev pub viper : Viper (Option Config) Config String
viper = record {
  new = written;
  set_config_file = λ path v. v;
  set_default = λ key value v. v;
  read_in_config = read;
  unmarshal = λ v. ok v;
}
