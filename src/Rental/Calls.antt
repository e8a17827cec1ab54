-- ===== src/Rental/Calls.antt =====
-- contracts/leaseflow_contracts/src/lib.rs: the entry points that change the contract's state as
-- calls, and what holds after every sequence of them.
use lease_flow_protocol_cont.Base.{ℕ, Bool, List, ℤ, Address, Env, ⊤, pure, invoke, ◌>>=◌}
use lease_flow_protocol_cont.Rental.Types.{CreateLeaseParams, OraclePayload}
use lease_flow_protocol_cont.Rental.Store.{World, RentalStore, Rental}
use lease_flow_protocol_cont.Rental.Admin.{
  initialize, set_admin, set_platform_fee, add_whitelisted_registry, remove_whitelisted_registry,
}
use lease_flow_protocol_cont.Rental.Create.{create_lease_instance}
use lease_flow_protocol_cont.Rental.Payment.{
  set_lease_instance_buyout_price, pay_lease_instance_rent, set_withdrawal_address, withdraw_rent,
  add_authorized_payer,
}
use lease_flow_protocol_cont.Rental.Maintenance.{
  set_inspector, report_maintenance_issue, submit_repair_proof, verify_repair, check_tenant_default,
}
use lease_flow_protocol_cont.Rental.Deposit.{
  settle_deposit, reclaim_asset, conclude_lease, dispute_deposit, resolve_dispute, reclaim,
  mutual_deposit_release, init_mutual_release_fb,
}
use lease_flow_protocol_cont.Rental.Termination.{terminate_lease, execute_early_termination}
use lease_flow_protocol_cont.Rental.Oracle.{
  whitelist_oracle, remove_oracle, set_fallback_hierarchy, reset_oracle_status,
}
use lease_flow_protocol_cont.Rental.Slash.{execute_deposit_slash}
use lease_flow_protocol_cont.Rental.Keeps

pub data RentalCall : Type 0 where
  initializes sets_admin : Address → RentalCall
  sets_platform_fee : Address → ℤ → Address → Address → RentalCall
  adds_registry removes_registry : Address → Address → RentalCall
  creates : ℕ → Address → CreateLeaseParams → RentalCall
  prices : ℕ → Address → ℤ → RentalCall
  pays : ℕ → Address → ℤ → RentalCall
  redirects : ℕ → Address → RentalCall
  withdraws : ℕ → RentalCall
  adds_payer : ℕ → Address → Address → RentalCall
  sets_inspector : ℕ → Address → Address → RentalCall
  reports : ℕ → Address → RentalCall
  repairs : ℕ → Address → ℕ → RentalCall
  verifies : ℕ → Address → RentalCall
  checks : ℕ → RentalCall
  settles : ℕ → Address → ℤ → ℤ → ℤ → RentalCall
  reclaims_asset : ℕ → Address → List ℕ → RentalCall
  concludes disputes_as : ℕ → Address → ℤ → RentalCall
  disputes : ℕ → Address → RentalCall
  reclaims : ℕ → Address → RentalCall
  releases : ℕ → Address → Address → ℤ → ℤ → RentalCall
  proposes : ℕ → Address → ℤ → ℤ → RentalCall
  terminates terminates_early : ℕ → Address → RentalCall
  lists_oracle unlists_oracle resets_oracle : Address → ℕ → RentalCall
  ranks : Address → ℕ → ℕ → Bool → RentalCall
  slashes : OraclePayload → RentalCall

abbrev pub discard : {W A : Type 0} → Rental W A → Rental W ⊤
discard m = m >>= λ a. pure tt

module _ {W : Type 0} (world : World W) (self : Address) where
  unfoldable pub dispatch : Env → RentalCall → Rental W ⊤
  dispatch env (initializes admin) = initialize admin
  dispatch env (sets_admin admin) = set_admin admin
  dispatch env (sets_platform_fee admin amount token to) =
      set_platform_fee env admin amount token to
  dispatch env (adds_registry admin registry) = add_whitelisted_registry world env admin registry
  dispatch env (removes_registry admin registry) = remove_whitelisted_registry env admin registry
  dispatch env (creates id landlord params) =
      create_lease_instance world self env id landlord params
  dispatch env (prices id landlord price) = set_lease_instance_buyout_price env id landlord price
  dispatch env (pays id payer amount) = pay_lease_instance_rent world self env id payer amount
  dispatch env (redirects id to) = set_withdrawal_address env id to
  dispatch env (withdraws id) = withdraw_rent env id
  dispatch env (adds_payer id landlord payer) = add_authorized_payer env id landlord payer
  dispatch env (sets_inspector id landlord inspector) = set_inspector env id landlord inspector
  dispatch env (reports id tenant) = report_maintenance_issue env id tenant
  dispatch env (repairs id landlord proof) = submit_repair_proof env id landlord proof
  dispatch env (verifies id inspector) = verify_repair env id inspector
  dispatch env (checks id) = discard (check_tenant_default env id)
  dispatch env (settles id caller a b c) = settle_deposit env id caller a b c
  dispatch env (reclaims_asset id caller reason) = reclaim_asset env id caller reason
  dispatch env (concludes id landlord deduction) =
      discard (conclude_lease env id landlord deduction)
  dispatch env (disputes_as id arbitrator deduction) =
      discard (resolve_dispute env id arbitrator deduction)
  dispatch env (disputes id caller) = dispute_deposit env id caller
  dispatch env (reclaims id caller) = reclaim world self env id caller
  dispatch env (releases id lessee lessor back slash) =
      mutual_deposit_release world self env id lessee lessor back slash
  dispatch env (proposes id initiator back slash) =
      init_mutual_release_fb env id initiator back slash
  dispatch env (terminates id caller) = terminate_lease world env id caller
  dispatch env (terminates_early id caller) = execute_early_termination world self env id caller
  dispatch env (lists_oracle admin oracle) = whitelist_oracle env admin oracle
  dispatch env (unlists_oracle admin oracle) = remove_oracle env admin oracle
  dispatch env (resets_oracle admin oracle) = reset_oracle_status env admin oracle
  dispatch env (ranks admin first second dao) = set_fallback_hierarchy env admin first second dao
  dispatch env (slashes payload) = execute_deposit_slash world self env payload

  pub data Step (s : RentalStore W) : RentalStore W → Type 0 where
    call : (env : Env) (r : RentalCall) → Step s (invoke (dispatch env r) s).1

  pub data Reach (s : RentalStore W) : RentalStore W → Type 0 where
    here : Reach s s
    next : {d e : RentalStore W} → Reach s d → Step d e → Reach s e
