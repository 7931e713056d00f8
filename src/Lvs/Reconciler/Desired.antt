-- ===== src/Lvs/Reconciler/Desired.antt =====
-- What buildDesiredState returns: keys that are distinct, and agree with the kernel's for every
-- service whose listen address is written as net.IP prints it.
use mathlib.Core.Path.{subst}
use ezlb.Shared.{◌≡◌, inl, inr, String, Bool, some, List, [], ◌∷◌, arith}
use ezlb.Shared.GoMap.{GoMap, insert, HasDistinctKeys, HasDistinctKeys-insert}
use ezlb.Shared.Index.{IsKeyed, IsKeyed-insert}
use ezlb.Shared.Result.{ok, map_err-eq-ok, ok-injective, >>=-eq-ok, map_err}
use ezlb.Shared.Tests.{Option-cases}
use ezlb.Std.{Std}
use ezlb.Config.{ServiceConfig}
use ezlb.Lvs.Types.{
  Service, ServiceKey, service_key_eq, prefer, config_to_ipvs_service, service_key_from_config,
}
use ezlb.Lvs.Handle.Fake.{make_fake_service_key}
use ezlb.Lvs.Reconciler.{DesiredService}
use ezlb.Lvs.Reconciler.Build.{build_entry, build_desired_state, build_destinations}
use ezlb.Lvs.Reconciler.Services.ApplyAll.{kernel_key}

module _ (std : Std) where
  open std use {IP, split_host_port, parse_ip, to4, ip_string, atoi}

  -- The host of the listen address is spelled as the parsed address prints.
  abbrev pub HasCanonicalListen : ServiceConfig → Type 0
  HasCanonicalListen svc =
      (host port : String) (ip : IP)
      → split_host_port svc.listen ≡ some (host, port)
      → parse_ip host ≡ some ip
      → ip_string (prefer (to4 ip) ip) ≡ host

  abbrev pub AllCanonical : List ServiceConfig → Type 0
  AllCanonical [] = Unit
  AllCanonical (svc ∷ configs) = HasCanonicalListen svc × AllCanonical configs

  keys_agree :
      (svc : ServiceConfig) (s : Service IP) (k : ServiceKey)
      → HasCanonicalListen svc
      → config_to_ipvs_service std svc ≡ ok s
      → service_key_from_config std svc ≡ ok k
      → make_fake_service_key std s ≡ k
  unfolding config_to_ipvs_service service_key_from_config make_fake_service_key
  keys_agree svc s k canonical p q = elim (Option-cases (split_host_port svc.listen)) [
    | inl bad ↦ ground (arith, bad, p)
    | inr ((host, port), e) ↦ elim (Option-cases (parse_ip host)) [
      | inl bad ↦ ground (arith, e, bad, p)
      | inr (ip, e') ↦ ground (arith, e, e', p, q, canonical host port ip e e')
    ]
  ]

  module _ {E F : Type 0} where
    build_entry-kernel_key :
        (is_healthy : String → Bool) (svc : ServiceConfig) (k : ServiceKey) (d : DesiredService IP)
        → HasCanonicalListen svc
        → build_entry std {E = E} {F = F} is_healthy svc ≡ ok (k, d)
        → kernel_key std d ≡ k
    unfolding build_entry
    build_entry-kernel_key is_healthy svc k d canonical p =
        let (s, e1, p1) = >>=-eq-ok (map_err _ (config_to_ipvs_service std svc)) _ p in
        let (k', e2, p2) = >>=-eq-ok (map_err _ (service_key_from_config std svc)) _ p1 in
        let (dsts, e3, p3) =
          >>=-eq-ok (map_err _ (build_destinations std is_healthy svc svc.backends)) _ p2 in
        let agree = keys_agree svc s k' canonical (map_err-eq-ok _ _ e1) (map_err-eq-ok _ _ e2) in
        subst (λ (r : ServiceKey × DesiredService IP). kernel_key std r.1 ≡ r.0) (ok-injective p3)
          agree

    pub build_desired_state_lem :
        (is_healthy : String → Bool) (configs : List ServiceConfig)
        (acc dm : GoMap ServiceKey (DesiredService IP))
        → AllCanonical configs
        → HasDistinctKeys acc
        → IsKeyed (kernel_key std) acc
        → build_desired_state std {E = E} {F = F} is_healthy configs acc ≡ ok dm
        → HasDistinctKeys dm × IsKeyed (kernel_key std) dm
    unfolding build_desired_state
    build_desired_state_lem is_healthy [] acc dm canonical distinct keyed p =
        subst (λ m. HasDistinctKeys m × IsKeyed (kernel_key std) m) (ok-injective p)
          (distinct, keyed)
    build_desired_state_lem is_healthy (svc ∷ configs) acc dm canonical distinct keyed p =
        let ((k, d), e, rest) = >>=-eq-ok (build_entry std is_healthy svc) _ p in
        let own = build_entry-kernel_key is_healthy svc k d canonical.0 e in
        build_desired_state_lem is_healthy configs (insert k d acc) dm canonical.1
          (HasDistinctKeys-insert k d acc distinct)
          (subst (λ q. IsKeyed (kernel_key std) (insert q d acc)) own
            (IsKeyed-insert (kernel_key std) d acc keyed))
          rest
