-- ===== src/Config/Manager/Reloads.antt =====
-- What the configuration manager holds after any sequence of file changes.
use ezlb.Shared.{◌≡◌, refl, inl, inr, Bool, true, false, ◌||◌, Option, List, [], ◌∷◌, arith}
use ezlb.Shared.Result.{Result, ok, err, Result-cases, map_err, >>=-eq-ok, map_err-eq-ok}
use ezlb.Shared.Tests.{Option-cases}
use ezlb.Std.{Std}
use ezlb.Config.{Config}
use ezlb.Config.Validate.{validate}
use ezlb.Config.Manager.{
  Viper, LoadError, rejected, unmarshal_failed, ConfigManager, notify, decode, load, config_changed,
}

-- The configuration is one that Validate has returned.
abbrev pub IsAccepted : Std → Config → Type 0
IsAccepted std cfg = (written : Config) × (validate std written ≡ ok cfg)

-- The last element, or the default of an empty list.
abbrev pub last_or {ℓ} : {A : Type ℓ} → A → List A → A
last_or a [] = a
last_or a (b ∷ bs) = last_or b bs

abbrev pub is_some_of {ℓ} : {A : Type ℓ} → List A → Bool
is_some_of [] = false
is_some_of (a ∷ rest) = true

-- The callback, once for each element.
abbrev pub notify_each : {A C : Type 0} → Option (C → C) → List A → C → C
notify_each f [] c = c
notify_each f (a ∷ bs) c = notify_each f bs (notify f c)

abbrev pub cons_ok : {E A : Type 0} → Result E A → List A → List A
cons_ok (ok a) bs = a ∷ bs
cons_ok (err e) bs = bs

module _ (std : Std) {D V F : Type 0} (vip : Viper D V F) where
  pub load-IsAccepted :
      (file : D) (v : V) (cfg : Config) → (load std vip file v).1 ≡ ok cfg → IsAccepted std cfg
  unfolding load decode
  load-IsAccepted file v cfg p = elim (Option-cases (vip.read_in_config file v).1) [
    | inl read ↦
        let (written, e1, p1) =
          >>=-eq-ok (map_err unmarshal_failed (vip.unmarshal (vip.read_in_config file v).0))
            (λ written. map_err rejected (validate std written)) (ground (arith, p, read)) in
        (written, map_err-eq-ok rejected (validate std written) p1)
    | inr (e, failed) ↦ absurd (ground (arith, p, failed))
  ]

  -- The configurations that Load accepts, where the file changes to each of `files` in turn.
  unfoldable pub accepted : List D → V → List Config
  accepted [] v = []
  accepted (file ∷ files) v = let (v', r) = load std vip file v in cons_ok r (accepted files v')

  module _ {C : Type 0} where
    pub config_changed-err :
        (file : D) (m : ConfigManager V C) (c : C) (e : LoadError F)
        → (load std vip file m.viper).1 ≡ err e
        → config_changed std vip file m c ≡ (record m { viper = (load std vip file m.viper).0 }, c)
    unfolding config_changed
    config_changed-err file m c e failed = rw (failed, config_changed) refl

    pub config_changed-ok :
        (file : D) (m : ConfigManager V C) (c : C) (cfg : Config)
        → (load std vip file m.viper).1 ≡ ok cfg
        → config_changed std vip file m c ≡ (
          record m { viper = (load std vip file m.viper).0; current = cfg; on_change = true },
          notify m.on_reload c,
        )
    unfolding config_changed
    config_changed-ok file m c cfg loaded = rw (loaded, config_changed) refl

    -- The handler of WatchConfig, for one change after another.
    unfoldable pub run : List D → ConfigManager V C → C → ConfigManager V C × C
    run [] m c = (m, c)
    run (file ∷ files) m c = let (m', c') = config_changed std vip file m c in run files m' c'

    -- After any changes of the file the current configuration is the last that was accepted, or the
    -- old one where none was; a signal waits if one did before or any was accepted; and the callback
    -- has run once for each that was.
    pub run-accepted :
        (files : List D) (m : ConfigManager V C) (c : C)
        → let r = run files m c in
          let cfgs = accepted files m.viper in
          (r.0.current ≡ last_or m.current cfgs)
          × (r.0.on_change ≡ (m.on_change || is_some_of cfgs))
          × (r.1 ≡ notify_each m.on_reload cfgs c)
    unfolding run accepted config_changed
    run-accepted [] m c = (refl, ground arith, refl)
    run-accepted (file ∷ files) m c = elim (Result-cases (load std vip file m.viper).1) [
      | inl (e, failed) ↦
          let m' = record m { viper = (load std vip file m.viper).0 } in
          let ih = run-accepted files m' c in
          rw (config_changed-err file m c e failed, run) (rw (failed, accepted) ih)
      | inr (cfg, loaded) ↦
          let m' = record m {
            viper = (load std vip file m.viper).0;
            current = cfg;
            on_change = true;
          } in
          let ih = run-accepted files m' (notify m.on_reload c) in
          rw (config_changed-ok file m c cfg loaded, run)
            (rw (loaded, accepted) (ih.0, ground (arith, ih.1), ih.2))
    ]
