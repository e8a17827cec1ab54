-- ===== src/Lease/Calls.antt =====
-- The calls of the lease contract as steps of its chain state, and what every sequence of them
-- keeps. The queries (get_lease, get_user_leases, get_credit_record, get_escrow_vault) change
-- nothing and are no steps.
use lease_flow_protocol_cont.Base.{
  ℕ, ◌≡◌, none, ℤ, ⊤, invoke, invoke_keeps, After, After-map, pure, ◌>>◌, After-bind, After-pure,
}
use lease_flow_protocol_cont.Lease.Types.{Address, Host, Chain, Call}
use lease_flow_protocol_cont.Lease.Create.{
  CreateArgs, initialize, create_lease, activate_lease, terminate_lease,
}
use lease_flow_protocol_cont.Lease.Payment.{process_rent_payment, handle_rent_payment_failure}
use lease_flow_protocol_cont.Lease.Arrears.{
  execute_arrears_deduction, check_grace_period_expiry, trigger_grace_period_check,
}
use lease_flow_protocol_cont.Lease.Oracle.{process_fiat_pegged_rent_payment}
use lease_flow_protocol_cont.Lease.Invariant.{IsSound, Holds}
use lease_flow_protocol_cont.Lease.Preserve.{
  KeepsSound, pay-KeepsSound, fail-KeepsSound, terminate-KeepsSound, fiat-KeepsSound,
  initialize-KeepsSound,
}
use lease_flow_protocol_cont.Lease.Activation.{create-KeepsSound, activate-KeepsSound}
use lease_flow_protocol_cont.Lease.Deduction.{expire-KeepsSound, trigger-KeepsSound, deduct-refused}

pub data Request : Type 0 where
  initializes : Address → Request
  creates : CreateArgs → Request
  activates : ℕ → Address → Request
  pays : ℕ → ℤ → Request
  fails : ℕ → Request
  expires : ℕ → Request
  triggers : ℕ → Address → Request
  deducts : ℕ → Request
  pays_fiat : ℕ → Request
  terminates : ℕ → Address → Request

-- One entry point, its result dropped.
unfoldable pub dispatch : Host → Request → Call ⊤
dispatch host (initializes oracle) = initialize oracle
dispatch host (creates args) = create_lease host args >> pure tt
dispatch host (activates id lessee) = activate_lease host id lessee
dispatch host (pays id amount) = process_rent_payment host id amount
dispatch host (fails id) = handle_rent_payment_failure host id
dispatch host (expires id) = check_grace_period_expiry host id
dispatch host (triggers id caller) = trigger_grace_period_check host id caller
dispatch host (deducts id) = execute_arrears_deduction host id
dispatch host (pays_fiat id) = process_fiat_pegged_rent_payment host id
dispatch host (terminates id caller) = terminate_lease host id caller >> pure tt

-- A call of the contract at some time, with some answers of the host.
pub data Step (c : Chain) : Chain → Type 0 where
  call : (host : Host) (r : Request) → Step c (invoke (dispatch host r) c).1

pub data Reach (c : Chain) : Chain → Type 0 where
  here : Reach c c
  next : {d e : Chain} → Reach c d → Step d e → Reach c e

dispatch-KeepsSound :
    (host : Host) (r : Request) (c : Chain)
    → Holds IsSound c.stored
    → After KeepsSound c (dispatch host r)
unfolding dispatch
dispatch-KeepsSound host (initializes oracle) c h = initialize-KeepsSound oracle c
dispatch-KeepsSound host (creates args) c h =
    After-bind _ _ (After-map (λ _ c' k. After-pure _ k) (create-KeepsSound host args c h))
dispatch-KeepsSound host (activates id lessee) c h = activate-KeepsSound host id lessee c h
dispatch-KeepsSound host (pays id amount) c h = pay-KeepsSound host id amount c h
dispatch-KeepsSound host (fails id) c h = fail-KeepsSound host id c h
dispatch-KeepsSound host (expires id) c h = expire-KeepsSound host id c h
dispatch-KeepsSound host (triggers id caller) c h = trigger-KeepsSound host id caller c h
dispatch-KeepsSound host (deducts id) c h =
    After-map (λ _ c' impossible. absurd impossible) (deduct-refused host id c h)
dispatch-KeepsSound host (pays_fiat id) c h = fiat-KeepsSound host id c h
dispatch-KeepsSound host (terminates id caller) c h =
    After-bind _ _ (After-map (λ _ c' k. After-pure _ k) (terminate-KeepsSound host id caller c h))

pub Step-IsSound : {c d : Chain} → Step c d → Holds IsSound c.stored → Holds IsSound d.stored
Step-IsSound {c} (call host r) h =
    invoke_keeps (λ x. Holds IsSound x.stored) (dispatch host r) c h
      (dispatch-KeepsSound host r c h)

-- Every state that calls reach from an empty contract has sound data: the vault holds what the
-- activated leases brought in less what went to the treasury, and that covers every deposit that
-- may still be deducted.
pub Reach-IsSound : {c d : Chain} → c.stored ≡ none → Reach c d → Holds IsSound d.stored
Reach-IsSound e here = rw e tt
Reach-IsSound e (next r s) = Step-IsSound s (Reach-IsSound e r)
