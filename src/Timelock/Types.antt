-- ===== src/Timelock/Types.antt =====
-- contracts/leaseflow_contracts/src/timelock_upgrade.rs: proposals, storage, events and errors. A
-- Wasm hash is a number, which is only compared and stored; a text is a list of numbers.
use lease_flow_protocol_cont.Base.{ℕ, Bool, Option, List, ◌∷◌, Map, Action, Address, modify, ⊤}

pub data UpgradeProposalStatus : Type 0 where
  pending approved executed cancelled : UpgradeProposalStatus

pub record UpgradeProposal : Type 0 where
  pub proposal_id : ℕ
  pub proposer : Address
  pub new_wasm_hash : ℕ
  pub description : List ℕ
  pub status : UpgradeProposalStatus
  pub created_at : ℕ
  pub approvals : List Address
  pub approval_count : ℕ
  pub required_approvals : ℕ
  pub execution_time : ℕ

-- The error texts.
pub data TimelockError : Type 0 where
  already_initialized not_authorized_signer proposal_not_found : TimelockError
  proposal_already_executed proposal_is_cancelled already_approved : TimelockError
  proposal_not_approved timelock_not_elapsed proposal_already_cancelled : TimelockError

pub data TimelockEvent : Type 0 where
  upgrade_proposed : ℕ → Address → ℕ → List ℕ → ℕ → ℕ → TimelockEvent
  upgrade_approved : ℕ → Address → ℕ → ℕ → TimelockEvent
  upgrade_executed : ℕ → ℕ → ℕ → ℕ → TimelockEvent
  upgrade_cancelled : ℕ → Address → List ℕ → ℕ → TimelockEvent
  signer_added : Address → Address → ℕ → TimelockEvent
  signer_removed : Address → Address → ℕ → TimelockEvent

-- The instance storage by key, the Wasm that the contract runs, and the events, the latest first.
pub record TimelockStore : Type 0 where
  pub proposals : Map UpgradeProposal
  pub proposal_count : Option ℕ
  pub signers : Map Bool
  pub timelock_duration : Option ℕ
  pub min_approvals : Option ℕ
  pub current_wasm_hash : Option ℕ
  pub wasm : ℕ
  pub events : List TimelockEvent

abbrev pub Timelocked : Type 0 → Type 0
Timelocked A = Action TimelockStore TimelockError A

abbrev pub publish : TimelockEvent → Timelocked ⊤
publish e = modify (λ s. record s { events = e ∷ s.events })
