-- ===== src/Timelock/Calls.antt =====
-- contracts/leaseflow_contracts/src/timelock_upgrade.rs: the entry points.
use lease_flow_protocol_cont.Base.{
  ℕ, Bool, true, false, not, some, List, [], ◌∷◌, ◌++◌, lookup, insert, erase, ltb, leb,
  if◌then◌else◌, Address, Env, require_auth, ⊤, pure, gets, modify, raise_if, or_raise, ◌>>=◌, ◌>>◌,
  add_u64, add_u32, get_or, is_some, mem,
}
use lease_flow_protocol_cont.Timelock.Types.{
  UpgradeProposalStatus, pending, approved, executed, cancelled, UpgradeProposal, TimelockError,
  TimelockEvent, TimelockStore, Timelocked, publish,
}

abbrev pub is_status : UpgradeProposalStatus → UpgradeProposalStatus → Bool
is_status UpgradeProposalStatus.pending UpgradeProposalStatus.pending = true
is_status UpgradeProposalStatus.approved UpgradeProposalStatus.approved = true
is_status UpgradeProposalStatus.executed UpgradeProposalStatus.executed = true
is_status UpgradeProposalStatus.cancelled UpgradeProposalStatus.cancelled = true
is_status _ _ = false

-- 14 days.
abbrev pub default_duration : ℕ
default_duration = 1209600

abbrev pub is_signer : TimelockStore → Address → Bool
is_signer s address = get_or (lookup address s.signers) false

abbrev pub get_timelock_duration : TimelockStore → ℕ
get_timelock_duration s = get_or s.timelock_duration default_duration

unfoldable pub require_signer : Address → Timelocked ⊤
require_signer address = do
  known ← gets (λ (s : TimelockStore). is_signer s address)
  raise_if (not known) TimelockError.not_authorized_signer

unfoldable pub initialize_timelock : Env → Address → ℕ → ℕ → Timelocked ⊤
initialize_timelock env admin timelock_duration min_approvals = do
  require_auth env admin
  known ← gets (λ (s : TimelockStore). is_some s.timelock_duration)
  raise_if known TimelockError.already_initialized
  modify (λ s. record s {
    timelock_duration = some (if ltb 0 timelock_duration then timelock_duration else 1209600);
    min_approvals = some (if ltb 0 min_approvals then min_approvals else 3);
    signers = insert admin true s.signers;
    proposal_count = some 0;
  })
  publish (TimelockEvent.signer_added admin admin env.timestamp)

unfoldable pub add_signer : Env → Address → Address → Timelocked ⊤
add_signer env caller new_signer = do
  require_auth env caller
  require_signer caller
  modify (λ s. record s { signers = insert new_signer true s.signers })
  publish (TimelockEvent.signer_added new_signer caller env.timestamp)

unfoldable pub remove_signer : Env → Address → Address → Timelocked ⊤
remove_signer env caller signer_to_remove = do
  require_auth env caller
  require_signer caller
  modify (λ s. record s { signers = erase signer_to_remove s.signers })
  publish (TimelockEvent.signer_removed signer_to_remove caller env.timestamp)

abbrev pub new_proposal : TimelockStore → Env → Address → ℕ → List ℕ → ℕ → UpgradeProposal
new_proposal s env proposer new_wasm_hash description execution_time = record {
  proposal_id = get_or s.proposal_count 0;
  proposer = proposer;
  new_wasm_hash = new_wasm_hash;
  description = description;
  status = pending;
  created_at = env.timestamp;
  approvals = [];
  approval_count = 0;
  required_approvals = get_or s.min_approvals 3;
  execution_time = execution_time;
}

unfoldable pub propose_upgrade : Env → Address → ℕ → List ℕ → Timelocked ℕ
propose_upgrade env proposer new_wasm_hash description = do
  require_auth env proposer
  require_signer proposer
  s ← gets (λ (s : TimelockStore). s)
  let proposal_id = get_or s.proposal_count 0
  execution_time ← add_u64 env.timestamp (get_timelock_duration s)
  let proposal = new_proposal s env proposer new_wasm_hash description execution_time
  next_count ← add_u64 proposal_id 1
  modify (λ s. record s {
    proposals = insert proposal_id proposal s.proposals;
    proposal_count = some next_count;
  })
  publish (
      TimelockEvent.upgrade_proposed proposal_id proposer new_wasm_hash description execution_time
        env.timestamp)
  pure proposal_id

abbrev pub find_proposal : ℕ → Timelocked UpgradeProposal
find_proposal proposal_id = gets (λ (s : TimelockStore). lookup proposal_id s.proposals) >>= λ o.
    or_raise o TimelockError.proposal_not_found

abbrev pub store_proposal : ℕ → UpgradeProposal → Timelocked ⊤
store_proposal proposal_id p =
    modify (λ s. record s { proposals = insert proposal_id p s.proposals })

unfoldable pub approve_upgrade : Env → Address → ℕ → Timelocked ⊤
approve_upgrade env approver proposal_id = do
  require_auth env approver
  require_signer approver
  proposal ← find_proposal proposal_id
  raise_if (is_status proposal.status executed) TimelockError.proposal_already_executed
  raise_if (is_status proposal.status cancelled) TimelockError.proposal_is_cancelled
  raise_if (mem approver proposal.approvals) TimelockError.already_approved
  approval_count ← add_u32 proposal.approval_count 1
  store_proposal proposal_id (record proposal {
    approvals = proposal.approvals ++ approver ∷ [];
    approval_count = approval_count;
    status = if leb proposal.required_approvals approval_count then approved else proposal.status;
  })
  publish (TimelockEvent.upgrade_approved proposal_id approver approval_count env.timestamp)

-- The host replaces the contract's Wasm by the proposal's; 0 stands for the default hash.
unfoldable pub execute_upgrade : Env → Address → ℕ → Timelocked ⊤
execute_upgrade env executor proposal_id = do
  require_auth env executor
  proposal ← find_proposal proposal_id
  raise_if (not (is_status proposal.status approved)) TimelockError.proposal_not_approved
  raise_if (ltb env.timestamp proposal.execution_time) TimelockError.timelock_not_elapsed
  old_wasm_hash ← gets (λ (s : TimelockStore). get_or s.current_wasm_hash 0)
  modify (λ s. record s { wasm = proposal.new_wasm_hash })
  store_proposal proposal_id (record proposal { status = executed })
  modify (λ s. record s { current_wasm_hash = some proposal.new_wasm_hash })
  publish (
      TimelockEvent.upgrade_executed proposal_id old_wasm_hash proposal.new_wasm_hash env.timestamp)

unfoldable pub cancel_upgrade : Env → Address → ℕ → List ℕ → Timelocked ⊤
cancel_upgrade env canceller proposal_id reason = do
  require_auth env canceller
  require_signer canceller
  proposal ← find_proposal proposal_id
  raise_if (is_status proposal.status executed) TimelockError.proposal_already_executed
  raise_if (is_status proposal.status cancelled) TimelockError.proposal_already_cancelled
  store_proposal proposal_id (record proposal { status = cancelled })
  publish (TimelockEvent.upgrade_cancelled proposal_id canceller reason env.timestamp)

unfoldable pub get_proposal : ℕ → Timelocked UpgradeProposal
get_proposal proposal_id = find_proposal proposal_id
