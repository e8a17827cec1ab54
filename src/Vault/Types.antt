-- ===== src/Vault/Types.antt =====
-- contracts/leaseflow_contracts/src/escrow_vault.rs: entries, storage, events and errors, and the
-- interface of the token contracts that the vault calls. A text is a list of numbers.
use lease_flow_protocol_cont.Base.{
  ℕ, Bool, Option, List, ◌∷◌, Map, ℤ, Action, Address, gets, modify, or_trap, ◌>>=◌, ⊤,
}
pub use lease_flow_protocol_cont.Base.{Moves, Token}

-- The texts that the source stores as a status.
pub data EscrowStatus : Type 0 where
  pending locked released refunded : EscrowStatus

pub data ContractError : Type 0 where
  unauthorized escrow_frozen escrow_not_found invalid_input : ContractError
  insufficient_funds already_released transfer_failed invalid_status : ContractError

pub record EscrowEntry : Type 0 where
  pub escrow_id : ℕ
  pub depositor : Address
  pub beneficiary : Address
  pub amount : ℤ
  pub token : Address
  pub purpose : List ℕ
  pub status : EscrowStatus
  pub created_at : ℕ
  pub lock_until : ℕ
  pub conditions_met : Bool
  pub release_signature : Option ℕ
  pub lease_id : Option ℕ

-- Each with the fields of its event in the source's order.
pub data VaultEvent : Type 0 where
  emergency_escrow_freeze_activated : Address → ℕ → List ℕ → VaultEvent
  emergency_escrow_freeze_lifted : Address → ℕ → ℕ → VaultEvent
  escrow_deposit_initialized : ℕ → Address → Address → ℤ → Address → ℕ → VaultEvent
  escrow_oracle_slash_executed : ℕ → ℤ → Address → ℕ → VaultEvent
  escrow_mutual_release : ℕ → Address → ℤ → ℕ → VaultEvent
  escrow_arrears_deducted : ℕ → ℤ → Address → ℕ → VaultEvent

-- The instance storage by key, the token contracts, and the events, the latest first.
pub record VaultStore (W : Type 0) : Type 0 where
  pub admin : Option Address
  pub dao_security_council : Option Address
  pub contract_version : Option (List ℕ)
  pub is_escrow_frozen : Option Bool
  pub freeze_timestamp : Option ℕ
  pub escrow_entries : Option (Map EscrowEntry)
  pub tokens : W
  pub events : List VaultEvent

abbrev pub Vaulted : Type 0 → Type 0 → Type 0
Vaulted W A = Action (VaultStore W) ContractError A

abbrev pub publish : {W : Type 0} → VaultEvent → Vaulted W ⊤
publish e = modify (λ s. record s { events = e ∷ s.events })

-- `TokenClient::new(&env, &token).transfer(&from, &to, &amount)`
unfoldable pub transfer_tokens :
    {W : Type 0} → Token W → Address → Address → Address → ℤ → Vaulted W ⊤
transfer_tokens {W} token_host token from to amount = do
  w ← gets (λ (s : VaultStore W). s.tokens)
  w' ← or_trap (token_host.transfer w token from to amount)
  modify (λ s. record s { tokens = w' })
