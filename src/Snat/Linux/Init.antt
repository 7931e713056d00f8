-- ===== src/Snat/Linux/Init.antt =====
-- NewManager of pkg/snat/manager_linux.go, once iptables.New has succeeded: the two chains and the
-- rules that lead to them.
use ezlb.Shared.{String, Bool, true, false, Option, none, some, [], ◌∷◌}
use ezlb.Shared.Result.{Result, ok, err}
use ezlb.Snat.Linux.{
  Iptables, LinuxManager, InitError, check_chain, create_chain, add_jump, check_jump, add_conntrack,
  nat_table, filter_table, snat_chain, forward_chain,
}

-- if err != nil { return wrap(err) }, and go on otherwise
abbrev pub then_or : {F G K : Type 0} → K × Option F → (F → G) → (K → K × Option G) → K × Option G
then_or (k, none) wrap next = next k
then_or (k, some e) wrap next = (k, some (wrap e))

module _ {F K : Type 0} (ipt : Iptables F K) where
  -- if !exists { if err := NewChain(table, chain); err != nil { return } }; next
  unfoldable pub create_if_absent :
      Bool → String → String → K → (K → K × Option (InitError F)) → K × Option (InitError F)
  create_if_absent true table chain k next = next k
  create_if_absent false table chain k next =
      then_or (ipt.new_chain table chain k) (create_chain chain) next

  unfoldable pub ensure_chain : K → K × Option (InitError F)
  unfolding create_if_absent
  ensure_chain k = elim (ipt.chain_exists nat_table snat_chain k) [
    | err e ↦ (k, some (check_chain e))
    | ok exists ↦ create_if_absent exists nat_table snat_chain k (λ k'.
        then_or (ipt.append_unique nat_table "POSTROUTING" ("-j" ∷ snat_chain ∷ []) k') add_jump
          (λ k''. (k'', none)))
  ]

  -- The conntrack rule that ends ensureForwardChain.
  unfoldable pub accept_established : K → K × Option (InitError F)
  accept_established k =
      then_or
        (ipt.append_unique filter_table forward_chain
          ("-m" ∷ "conntrack" ∷ "--ctstate" ∷ "ESTABLISHED,RELATED" ∷ "-j" ∷ "ACCEPT" ∷ []) k)
        (add_conntrack forward_chain) (λ k'. (k', none))

  -- The jump from FORWARD, inserted at the top where it is absent.
  unfoldable pub ensure_jump : K → K × Option (InitError F)
  unfolding accept_established
  ensure_jump k = elim (ipt.exists filter_table "FORWARD" ("-j" ∷ forward_chain ∷ []) k) [
    | err e ↦ (k, some (check_jump e))
    | ok true ↦ accept_established k
    | ok false ↦
        then_or (ipt.insert_at filter_table "FORWARD" 1 ("-j" ∷ forward_chain ∷ []) k) add_jump
          accept_established
  ]

  unfoldable pub ensure_forward_chain : K → K × Option (InitError F)
  unfolding create_if_absent ensure_jump
  ensure_forward_chain k = elim (ipt.chain_exists filter_table forward_chain k) [
    | err e ↦ (k, some (check_chain e))
    | ok exists ↦ create_if_absent exists filter_table forward_chain k ensure_jump
  ]

  -- NewManager: a manager without rules over the kernel so prepared, or the error.
  unfoldable pub new_manager : K → K × Result (InitError F) (LinuxManager K)
  new_manager k =
      let (k', e) = then_or (ensure_chain k) (λ cause. cause) ensure_forward_chain in
      elim e [
        | some cause ↦ (k', err cause)
        | none ↦ (k', ok (record { ipt = k'; managed = []; managed_forward = [] }))
      ]
