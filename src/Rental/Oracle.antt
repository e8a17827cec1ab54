-- ===== src/Rental/Oracle.antt =====
-- contracts/leaseflow_contracts/src/lib.rs: the damage oracles and their fallback hierarchy. The
-- texts of the reasons that the functions pass on to events are left out.
use lease_flow_protocol_cont.Base.{
  ℕ, ◌-◌, Bool, true, false, not, ◌&&◌, none, some, contains, lookup, insert, erase, ltb, ◌==◌,
  Address, Env, ⊤, pure, gets, modify, raise_if, or_raise, branch, ◌>>=◌, ◌>>◌, add_u32,
}
use lease_flow_protocol_cont.Rental.Types.{
  OracleStatus, OracleTier, primary, backup, OracleConfig, FallbackHierarchy, dao_arbitration,
  LeaseError, RentalEvent,
}
use lease_flow_protocol_cont.Rental.Store.{
  RentalStore, Rental, publish, load_lease, save_lease_instance, require_admin,
}

abbrev pub staleness_threshold : ℕ
staleness_threshold = 172800

abbrev pub max_oracle_failures : ℕ
max_oracle_failures = 3

abbrev pub is_demoted : OracleStatus → Bool
is_demoted OracleStatus.demoted = true
is_demoted OracleStatus.active = false
is_demoted OracleStatus.failed = false

abbrev pub is_oracle_whitelisted : {W : Type 0} → ℕ → RentalStore W → Bool
is_oracle_whitelisted oracle s = contains oracle s.whitelisted_oracles

-- Whether a demoted oracle may try again.
abbrev pub may_retry : Env → OracleConfig → Bool
may_retry env config = elim config.demotion_timestamp [
  | none ↦ false
  | some since ↦ ltb 86400 (env.timestamp - since) && ltb config.failure_count max_oracle_failures
]

abbrev pub is_available : Env → OracleConfig → OracleStatus → Bool
is_available env config OracleStatus.active = true
is_available env config OracleStatus.demoted = may_retry env config
is_available env config OracleStatus.failed = false

abbrev pub fresh_config : Env → ℕ → OracleTier → OracleConfig
fresh_config env oracle tier = record {
  pubkey = oracle;
  tier = tier;
  status = OracleStatus.active;
  last_successful_timestamp = env.timestamp;
  demotion_timestamp = none;
  failure_count = 0;
}

module _ {W : Type 0} where
  unfoldable pub whitelist_oracle : Env → Address → ℕ → Rental W ⊤
  whitelist_oracle env admin oracle = do
    require_admin env admin
    modify (λ (s : RentalStore W). record s {
      whitelisted_oracles = insert oracle true s.whitelisted_oracles;
    })

  unfoldable pub remove_oracle : Env → Address → ℕ → Rental W ⊤
  remove_oracle env admin oracle = do
    require_admin env admin
    modify (λ (s : RentalStore W). record s {
      whitelisted_oracles = erase oracle s.whitelisted_oracles;
    })

  unfoldable pub get_oracle_config : ℕ → Rental W OracleConfig
  get_oracle_config oracle = gets (λ (s : RentalStore W). lookup oracle s.oracle_configs) >>= λ o.
      or_raise o LeaseError.oracle_not_whitelisted

  abbrev pub set_oracle_config : ℕ → OracleConfig → Rental W ⊤
  set_oracle_config oracle config =
      modify
        (λ (s : RentalStore W). record s { oracle_configs = insert oracle config s.oracle_configs })

  unfoldable pub get_fallback_hierarchy : Rental W FallbackHierarchy
  get_fallback_hierarchy = gets (λ (s : RentalStore W). s.fallback_hierarchy) >>= λ o.
      or_raise o LeaseError.fallback_hierarchy_not_configured

  unfoldable pub staleness_check : Env → ℕ → Rental W ⊤
  staleness_check env payload_timestamp = do
    raise_if (ltb env.timestamp payload_timestamp) LeaseError.oracle_stale
    raise_if (ltb staleness_threshold (env.timestamp - payload_timestamp)) LeaseError.oracle_stale

  unfoldable pub demote_oracle : Env → ℕ → Rental W ⊤
  demote_oracle env oracle = do
    config ← get_oracle_config oracle
    branch (is_demoted config.status) (pure tt) (do
      failure_count ← add_u32 config.failure_count 1
      set_oracle_config oracle (record config {
        status = OracleStatus.demoted;
        demotion_timestamp = some env.timestamp;
        failure_count = failure_count;
      })
      publish (RentalEvent.oracle_demoted oracle env.timestamp failure_count))

  unfoldable pub activate_fallback_hierarchy : Env → Rental W ⊤
  activate_fallback_hierarchy env = do
    hierarchy ← get_fallback_hierarchy
    branch hierarchy.hierarchy_active (pure tt) (do
      modify (λ (s : RentalStore W). record s {
        fallback_hierarchy =
            some (record hierarchy {
              hierarchy_active = true;
              last_demotion_time = some env.timestamp;
            });
      })
      publish (
          RentalEvent.fallback_hierarchy_activated hierarchy.primary_oracle hierarchy.backup_oracle
            env.timestamp))

  unfoldable pub trigger_dao_arbitration : Env → ℕ → Rental W ⊤
  trigger_dao_arbitration env lease_id = do
    lease ← load_lease lease_id
    save_lease_instance lease_id (record lease { status = dao_arbitration })
    publish (RentalEvent.dao_arbitration_triggered lease_id env.timestamp)

  unfoldable pub check_oracle_availability : Env → ℕ → Rental W Bool
  check_oracle_availability env oracle = do
    config ← get_oracle_config oracle
    pure (is_available env config config.status)

  unfoldable pub set_fallback_hierarchy : Env → Address → ℕ → ℕ → Bool → Rental W ⊤
  set_fallback_hierarchy env admin primary_oracle backup_oracle dao_arbitration_enabled = do
    require_admin env admin
    first ← gets (is_oracle_whitelisted primary_oracle)
    raise_if (not first) LeaseError.oracle_not_whitelisted
    second ← gets (is_oracle_whitelisted backup_oracle)
    raise_if (not second) LeaseError.oracle_not_whitelisted
    raise_if (primary_oracle == backup_oracle) LeaseError.invalid_release_math
    set_oracle_config primary_oracle (fresh_config env primary_oracle primary)
    set_oracle_config backup_oracle (fresh_config env backup_oracle backup)
    modify (λ (s : RentalStore W). record s {
      fallback_hierarchy = some (record {
        primary_oracle = primary_oracle;
        backup_oracle = backup_oracle;
        dao_arbitration_enabled = dao_arbitration_enabled;
        hierarchy_active = false;
        last_demotion_time = none;
      });
    })

  unfoldable pub reset_oracle_status : Env → Address → ℕ → Rental W ⊤
  reset_oracle_status env admin oracle = do
    require_admin env admin
    config ← get_oracle_config oracle
    set_oracle_config oracle (record config {
      status = OracleStatus.active;
      failure_count = 0;
      demotion_timestamp = none;
      last_successful_timestamp = env.timestamp;
    })
