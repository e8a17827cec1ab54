-- ===== src/Timelock/Liveness.antt =====
-- contracts/leaseflow_contracts/src/timelock_upgrade.rs: an upgrade from its proposal to its end.
use lease_flow_protocol_cont.Base.{
  ℕ, ◌+◌, ◌≡◌, true, false, some, List, [], ◌∷◌, ◌++◌, lookup, leb, if◌then◌else◌, Address, Env,
  mem, invoke,
}
use lease_flow_protocol_cont.Timelock.Types.{approved, UpgradeProposal, TimelockStore}
use lease_flow_protocol_cont.Timelock.Calls.{is_signer, approve_upgrade}

-- The proposal with one more approval.
abbrev approved_by : Address → UpgradeProposal → UpgradeProposal
approved_by a p = record p {
  approvals = p.approvals ++ a ∷ [];
  approval_count = p.approval_count + 1;
  status = if leb p.required_approvals (p.approval_count + 1) then approved else p.status;
}

-- One call of `approve_upgrade` for each of the approvers.
abbrev pub approve_all : Env → ℕ → List Address → TimelockStore → TimelockStore
approve_all env id [] s = s
approve_all env id (a ∷ approvers) s =
    approve_all env id approvers (invoke (approve_upgrade env a id) s).1

-- Each of the approvers signs, and is a signer.
abbrev pub CanApprove : Env → TimelockStore → List Address → Type 0
CanApprove env s [] = Unit
CanApprove env s (a ∷ approvers) =
    ((env.auth a ≡ true) × (is_signer s a ≡ true)) × CanApprove env s approvers

-- None of the approvers is among the approvals.
abbrev AreFresh : List Address → List Address → Type 0
AreFresh [] xs = Unit
AreFresh (a ∷ approvers) xs = (mem a xs ≡ false) × AreFresh approvers xs

-- A proposal that can be executed from its time on.
record IsReady (id time hash : ℕ) (s : TimelockStore) : Type 0 where
  proposal : UpgradeProposal
  found : lookup id s.proposals ≡ some proposal
  status : proposal.status ≡ approved
  time_of : proposal.execution_time ≡ time
  hash_of : proposal.new_wasm_hash ≡ hash
