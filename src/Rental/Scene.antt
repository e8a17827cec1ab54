-- ===== src/Rental/Scene.antt =====
-- The accounts, leases and calls at which the theorems on contracts/leaseflow_contracts/src/lib.rs
-- are applied: the tenant 1, the landlord 2, and the contract 100, which holds 5000 units of the
-- token 8.
use lease_flow_protocol_cont.Base.{
  ℕ, ◌≡◌, sym, ap, get_or, true, false, Option, some, none, [], ◌∷◌, ◌++◌, ◌==◌, if◌then◌else◌, pos,
  Env, ok, invoke, Table, bank,
}
use mathlib.Core.Path.{subst}
use lease_flow_protocol_cont.Rental.Types.{
  active, LeaseInstance, CreateLeaseParams, primary, OracleStatus,
}
use lease_flow_protocol_cont.Rental.Store.{World, RentalStore}
use lease_flow_protocol_cont.Rental.Create.{new_lease}
use lease_flow_protocol_cont.Rental.Calls.{creates, pays, dispatch}

abbrev kept : {w w' : Table} → some w ≡ some w' → w' ≡ w
kept {w} e = sym (ap (λ (o : Option Table). get_or o w) e)

abbrev not_some : {w : Table} → none ≡ some w → ⊥
not_some e = subst (λ (o : Option Table). elim o [ none ↦ Unit | some _ ↦ ⊥ ]) e tt

abbrev pub world : World Table
world = record {
  token_host = bank;
  nft_transfer = λ w c a b id. some w;
  path_payment = λ w dex from asset amount slippage path. none;
  registry_info = λ w registry. none;
  verify_ownership = λ w registry asset owner. false;
  freeze_asset = λ w registry asset. none;
  thaw_asset = λ w registry asset proof. none;
  revoke_tokens = λ w lease_id token. some w;
  add_to_active_leases_index = λ id ids. ok (ids ++ id ∷ []);
  signature_holds = λ oracle lease_id signature. signature == 7;
  nft_keeps = λ c a b id e. kept e;
  thaw_keeps = λ c id proof e. absurd (not_some e);
}

-- Everyone has signed.
abbrev pub at_time : ℕ → Env
at_time t = record { timestamp = t; sequence = t; auth = λ a. true }

abbrev pub params : CreateLeaseParams
params = record {
  tenant = 1;
  rent_amount = pos 300;
  deposit_amount = pos 400;
  security_deposit = pos 600;
  start_date = 100000;
  end_date = 200000;
  property_uri = [];
  payment_token = 8;
  arbitrators = 3 ∷ [];
  rent_per_sec = pos 1;
  grace_period_end = 150000;
  late_fee_flat = pos 50;
  late_fee_per_sec = pos 2;
  equity_percentage_bps = 0;
  has_pet = true;
  pet_deposit_amount = pos 0;
  pet_rent_amount = pos 0;
  yield_delegation_enabled = false;
  deposit_asset = none;
  dex_contract = none;
  max_slippage_bps = 0;
  swap_path = [];
  lessor_reference_id = none;
  asset_registry_address = none;
  asset_id = none;
}

abbrev pub blank : RentalStore Table
blank = record {
  leases = [];
  historical_leases = [];
  historical_leases_index = [];
  active_leases_index = [];
  authorized_payers = [];
  roommate_balances = [];
  usage_rights = [];
  freeze_proofs = [];
  whitelisted_registries = [];
  admin = some 9;
  platform_fee_amount = none;
  platform_fee_token = none;
  platform_fee_recipient = none;
  whitelisted_oracles = (77, true) ∷ [];
  oracle_nonces = [];
  oracle_configs =
      (
        77,
        record {
          pubkey = 77;
          tier = primary;
          status = OracleStatus.active;
          last_successful_timestamp = 0;
          demotion_timestamp = none;
          failure_count = 0;
        },
      )
      ∷ [];
  fallback_hierarchy = none;
  tenant_flags = [];
  security_council = false;
  pending_slashes = [];
  locked = false;
  guard = record { trackers = []; paused = []; requests = []; admin = none; events = [] };
  tokens = λ u h. if h == 100 then 5000 else if h == 1 then 900 else 0;
  events = [];
}

-- A lease 5 that is created and partly paid.
abbrev pub created : RentalStore Table
created = (invoke (dispatch world 100 (at_time 100000) (creates 5 2 params)) blank).1

abbrev pub paid : RentalStore Table
paid = (invoke (dispatch world 100 (at_time 110000) (pays 5 1 (pos 300))) created).1

abbrev pub lease : LeaseInstance
lease = record (new_lease 2 params (pos 600)) {
  status = active;
  early_termination_fee_bps = some 1000;
}

abbrev pub leased : RentalStore Table
leased = record blank { leases = (5, lease) ∷ [] }

abbrev pub leased_out : RentalStore Table
leased_out = record leased {
  guard = record {
    trackers =
        (
          2,
          record {
            lessor = 2;
            total_leases = 40;
            terminations_24h = 0;
            last_termination_times = [];
            is_paused = false;
            pause_timestamp = none;
          },
        )
        ∷ [];
    paused = [];
    requests = [];
    admin = none;
    events = [];
  };
}
