-- ===== src/Vault/Calls.antt =====
-- contracts/leaseflow_contracts/src/escrow_vault.rs: the entry points. `self` is
-- `env.current_contract_address()`.
use lease_flow_protocol_cont.Base.{
  ℕ, Bool, true, false, not, Option, none, some, List, [], ◌∷◌, Map, lookup, insert, ◌&&◌, ◌==◌,
  if◌then◌else◌, ltb_ℤ, eqb_ℤ, ℤ, pos, Address, Env, require_auth, ⊤, pure, gets, modify, raise_if,
  or_raise, or_trap, branch, ◌>>=◌, ◌>>◌, add_u64, sub_u64, sub_i128, get_or, is_some,
}
use lease_flow_protocol_cont.Vault.Types.{
  EscrowStatus, pending, released, ContractError, EscrowEntry, VaultEvent, Token, VaultStore,
  Vaulted, publish, transfer_tokens,
}

abbrev pub is_locked : EscrowStatus → Bool
is_locked EscrowStatus.locked = true
is_locked _ = false

-- "1.0.0"
abbrev pub first_version : List ℕ
first_version = 49 ∷ 46 ∷ 48 ∷ 46 ∷ 48 ∷ []

module _ {W : Type 0} where
  abbrev pub is_escrow_frozen : VaultStore W → Bool
  is_escrow_frozen s = get_or s.is_escrow_frozen false

  abbrev pub entries : VaultStore W → Map EscrowEntry
  entries s = get_or s.escrow_entries []

  abbrev pub get_version : VaultStore W → List ℕ
  get_version s = get_or s.contract_version first_version

  unfoldable pub check_freeze_status : Vaulted W ⊤
  check_freeze_status = do
    is_frozen ← gets (λ (s : VaultStore W). is_escrow_frozen s)
    raise_if is_frozen ContractError.escrow_frozen

  unfoldable pub initialize : Address → Address → Vaulted W ⊤
  initialize admin dao_security_council = do
    known ← gets (λ (s : VaultStore W). is_some s.admin)
    raise_if known ContractError.unauthorized
    modify (λ s. record s {
      admin = some admin;
      dao_security_council = some dao_security_council;
      contract_version = some first_version;
      is_escrow_frozen = some false;
      escrow_entries = some [];
    })

  abbrev pub get_escrow : ℕ → Vaulted W EscrowEntry
  get_escrow escrow_id = gets (λ (s : VaultStore W). lookup escrow_id (entries s)) >>= λ o.
      or_raise o ContractError.escrow_not_found

  abbrev pub store_entry : ℕ → EscrowEntry → Vaulted W ⊤
  store_entry escrow_id e =
      modify (λ s. record s { escrow_entries = some (insert escrow_id e (entries s)) })

  unfoldable pub toggle_escrow_freeze : Env → Address → Bool → List ℕ → Vaulted W ⊤
  toggle_escrow_freeze env dao_member freeze reason = do
    council ← gets (λ (s : VaultStore W). s.dao_security_council)
    dao_security_council ← or_trap council
    raise_if (not (dao_member == dao_security_council)) ContractError.unauthorized
    require_auth env dao_member
    current ← gets (λ (s : VaultStore W). is_escrow_frozen s)
    branch (freeze && not current)
        (do
          modify (λ s. record s {
            is_escrow_frozen = some true;
            freeze_timestamp = some env.timestamp;
          })
          publish (VaultEvent.emergency_escrow_freeze_activated dao_member env.timestamp reason))
        (branch (not freeze && current)
          (do
            freeze_timestamp ← gets (λ (s : VaultStore W). get_or s.freeze_timestamp 0)
            frozen_duration ← sub_u64 env.timestamp freeze_timestamp
            modify (λ s. record s { is_escrow_frozen = some false; freeze_timestamp = none })
            publish (
                VaultEvent.emergency_escrow_freeze_lifted dao_member frozen_duration env.timestamp))
          (pure tt))

  unfoldable pub set_dao_security_council : Env → Address → Address → Vaulted W ⊤
  set_dao_security_council env admin new_dao_council = do
    stored ← gets (λ (s : VaultStore W). s.admin)
    contract_admin ← or_trap stored
    raise_if (not (contract_admin == admin)) ContractError.unauthorized
    require_auth env admin
    modify (λ s. record s { dao_security_council = some new_dao_council })

-- The arguments of `initialize_deposit`, in the source's order.
pub record DepositArgs : Type 0 where
  pub depositor : Address
  pub beneficiary : Address
  pub token : Address
  pub amount : ℤ
  pub purpose : List ℕ
  pub lock_duration : ℕ
  pub lease_id : Option ℕ

abbrev pub new_escrow : Env → DepositArgs → ℕ → EscrowEntry
new_escrow env args lock_until = record {
  escrow_id = env.sequence;
  depositor = args.depositor;
  beneficiary = args.beneficiary;
  amount = args.amount;
  token = args.token;
  purpose = args.purpose;
  status = pending;
  created_at = env.timestamp;
  lock_until = lock_until;
  conditions_met = false;
  release_signature = none;
  lease_id = args.lease_id;
}

-- What is left of an entry after `amount` of it is paid out in full or in part.
abbrev pub released_when_empty : EscrowEntry → ℤ → EscrowEntry
released_when_empty escrow left = record escrow {
  amount = left;
  status = if eqb_ℤ left (pos 0) then released else escrow.status;
}

module _ {W : Type 0} (token_host : Token W) (self : Address) (env : Env) where
  unfoldable pub initialize_deposit : DepositArgs → Vaulted W ℕ
  initialize_deposit args = do
    check_freeze_status
    require_auth env args.depositor
    lock_until ← add_u64 env.timestamp args.lock_duration
    store_entry env.sequence (new_escrow env args lock_until)
    transfer_tokens token_host args.token args.depositor self args.amount
    publish (
        VaultEvent.escrow_deposit_initialized env.sequence args.depositor args.beneficiary
          args.amount args.token env.timestamp)
    pure env.sequence

  unfoldable pub execute_oracle_slash : Address → ℕ → ℤ → Address → Vaulted W ⊤
  execute_oracle_slash oracle escrow_id slash_amount slash_recipient = do
    check_freeze_status
    require_auth env oracle
    escrow ← get_escrow escrow_id
    raise_if (not (is_locked escrow.status)) ContractError.invalid_status
    raise_if (ltb_ℤ escrow.amount slash_amount) ContractError.insufficient_funds
    left ← sub_i128 escrow.amount slash_amount
    store_entry escrow_id (record escrow { amount = left })
    transfer_tokens token_host escrow.token self slash_recipient slash_amount
    publish (VaultEvent.escrow_oracle_slash_executed escrow_id slash_amount oracle env.timestamp)

  unfoldable pub execute_mutual_release : Address → ℕ → ℤ → Address → Vaulted W ⊤
  execute_mutual_release releaser escrow_id release_amount recipient = do
    check_freeze_status
    require_auth env releaser
    escrow ← get_escrow escrow_id
    raise_if (not (releaser == escrow.depositor) && not (releaser == escrow.beneficiary))
        ContractError.unauthorized
    raise_if (not (is_locked escrow.status)) ContractError.invalid_status
    raise_if (ltb_ℤ escrow.amount release_amount) ContractError.insufficient_funds
    left ← sub_i128 escrow.amount release_amount
    store_entry escrow_id (released_when_empty escrow left)
    transfer_tokens token_host escrow.token self recipient release_amount
    publish (VaultEvent.escrow_mutual_release escrow_id recipient release_amount env.timestamp)

  unfoldable pub deduct_arrears : Address → ℕ → ℤ → Address → Vaulted W ⊤
  deduct_arrears arrears_collector escrow_id arrears_amount recipient = do
    check_freeze_status
    require_auth env arrears_collector
    escrow ← get_escrow escrow_id
    raise_if (not (is_locked escrow.status)) ContractError.invalid_status
    raise_if (ltb_ℤ escrow.amount arrears_amount) ContractError.insufficient_funds
    left ← sub_i128 escrow.amount arrears_amount
    store_entry escrow_id (released_when_empty escrow left)
    transfer_tokens token_host escrow.token self recipient arrears_amount
    publish (VaultEvent.escrow_arrears_deducted escrow_id arrears_amount recipient env.timestamp)
