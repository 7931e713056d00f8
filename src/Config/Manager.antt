-- ===== src/Config/Manager.antt =====
-- The Manager of pkg/config/config.go. The library viper is a parameter: `D` is what the file holds,
-- `V` the viper instance and `F` the errors of its calls. The channel onChange, of capacity 1, is a
-- Boolean that says whether a signal waits. The callback onReload acts on a state `C`.
pub mod Reloads
pub mod Sample
mod Tests
use ezlb.Shared.{ℕ, String, Bool, true, false, Option, none, some}
use ezlb.Shared.Result.{Result, ok, err, map_err, ◌>>=◌}
use ezlb.Std.{Std}
use ezlb.Config.{Config}
use ezlb.Config.Validate.{ConfigError, validate}

-- The values that SetDefault is given.
pub data DefaultValue : Type 0 where
  text : String → DefaultValue
  number : ℕ → DefaultValue
  switch : Bool → DefaultValue

pub record Viper (D V F : Type 0) : Type 0 where
  pub new : V
  pub set_config_file : String → V → V
  pub set_default : String → DefaultValue → V → V
  pub read_in_config : D → V → V × Option F
  pub unmarshal : V → Result F Config

pub data LoadError (F : Type 0) : Type 0 where
  read_failed unmarshal_failed : F → LoadError F
  rejected : ConfigError → LoadError F

pub record ConfigManager (V C : Type 0) : Type 0 where
  pub viper : V
  pub current : Config
  pub on_change : Bool
  pub on_reload : Option (C → C)

-- if m.onReload != nil { m.onReload() }
abbrev pub notify : {C : Type 0} → Option (C → C) → C → C
notify none c = c
notify (some f) c = f c

abbrev pub get_config : {V C : Type 0} → ConfigManager V C → Config
get_config m = m.current

unfoldable pub set_on_reload_callback :
    {V C : Type 0} → (C → C) → ConfigManager V C → ConfigManager V C
set_on_reload_callback f m = record m { on_reload = some f }

-- <-m.OnChange(), where a signal waits
unfoldable pub receive_change : {V C : Type 0} → ConfigManager V C → ConfigManager V C
receive_change m = record m { on_change = false }

module _ (std : Std) {D V F : Type 0} (vip : Viper D V F) where
  -- The end of Load.
  unfoldable pub decode : V → Result (LoadError F) Config
  decode v = do
    cfg ← map_err unmarshal_failed (vip.unmarshal v)
    map_err rejected (validate std cfg)

  unfoldable pub load : D → V → V × Result (LoadError F) Config
  load file v =
      let (v', e) = vip.read_in_config file v in
      elim e [ some cause ↦ (v', err (read_failed cause)) | none ↦ (v', decode v') ]

  -- viper.New and the calls of SetConfigFile and SetDefault in NewManager
  unfoldable pub prepare_viper : String → V
  prepare_viper config_path =
      let v = vip.set_config_file config_path vip.new in
      let v = vip.set_default "global.log.level" (text "info") v in
      let v = vip.set_default "global.log.home" (text "./logs") v in
      let v = vip.set_default "global.log.max_size" (number 50) v in
      let v = vip.set_default "global.log.max_backups" (number 3) v in
      let v = vip.set_default "global.log.max_age" (number 0) v in
      let v = vip.set_default "global.log.compress" (switch false) v in
      let v = vip.set_default "global.log.traffic.enabled" (switch true) v in
      let v = vip.set_default "global.log.traffic.interval" (text "15s") v in
      let v = vip.set_default "global.cleanup_on_exit" (switch true) v in
      let v = vip.set_default "global.metrics_enabled" (switch true) v in
      vip.set_default "global.metrics_path" (text "/metrics") v

  module _ {C : Type 0} where
    unfoldable pub new_manager : String → D → Result (LoadError F) (ConfigManager V C)
    new_manager config_path file =
        let (v, r) = load file (prepare_viper config_path) in
        elim r [
          | err e ↦ err e
          | ok cfg ↦ ok (record { viper = v; current = cfg; on_change = false; on_reload = none })
        ]

    -- The handler that WatchConfig registers, when the file has changed to `file`.
    unfoldable pub config_changed : D → ConfigManager V C → C → ConfigManager V C × C
    config_changed file m c =
        let (v, r) = load file m.viper in
        elim r [
          | err e ↦ (record m { viper = v }, c)
          | ok cfg ↦ (record m { viper = v; current = cfg; on_change = true }, notify m.on_reload c)
        ]
