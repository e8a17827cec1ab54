-- ===== src/Timelock/Examples.antt =====
-- The theorems on contracts/leaseflow_contracts/src/timelock_upgrade.rs at concrete calls.
use lease_flow_protocol_cont.Base.{
  mem, ℕ, ◌≡◌, ◌≢◌, refl, arith, true, some, [], ◌∷◌, lookup, Env, invoke, ◌>>=◌,
}
use lease_flow_protocol_cont.Timelock.Types.{UpgradeProposal, executed, TimelockStore}
use lease_flow_protocol_cont.Timelock.Calls.{
  require_signer, initialize_timelock, propose_upgrade, approve_upgrade, execute_upgrade,
}
use lease_flow_protocol_cont.Timelock.Invariant.{IsSound, IsAuthorised}
use lease_flow_protocol_cont.Timelock.Approvals.{HasApproval}
use lease_flow_protocol_cont.Timelock.Steps.{
  TimelockRequest, adds, initializes, proposes, approves, executes, cancels, dispatch, call, Reach,
  here, next, deployed, deployed-IsSound, Step-wasm, Reach-final, SignedApproval,
}

-- Every transaction is signed by everyone.
abbrev at_time : ℕ → Env
at_time t = record { timestamp = t; sequence = t; auth = λ _. true }

abbrev after : TimelockStore → ℕ → TimelockRequest → TimelockStore
after s t r = (invoke (dispatch (at_time t) r) s).1

abbrev initialised : TimelockStore
initialised = after (deployed 7) 100 (initializes 1 50 1)

abbrev proposed : TimelockStore
proposed = after initialised 110 (proposes 1 9 [])

abbrev approved : TimelockStore
approved = after proposed 120 (approves 1 0)

abbrev upgraded : TimelockStore
upgraded = after approved 160 (executes 2 0)

to_proposed : Reach (deployed 7) proposed
to_proposed =
    next (next here (call (at_time 100) (initializes 1 50 1)))
      (call (at_time 110) (proposes 1 9 []))

to_approved : Reach (deployed 7) approved
to_approved = next to_proposed (call (at_time 120) (approves 1 0))

to_upgraded : Reach (deployed 7) upgraded
to_upgraded = next to_approved (call (at_time 160) (executes 2 0))

wasm_changed : upgraded.wasm ≢ approved.wasm
unfolding dispatch initialize_timelock propose_upgrade approve_upgrade execute_upgrade
    require_signer invoke ◌>>=◌
wasm_changed e = omega (arith, e)

deployed-IsSound_example :
    IsSound upgraded
    × ((a : ℕ) (id : ℕ) → HasApproval upgraded.proposals a id → SignedApproval a id _ to_upgraded)
deployed-IsSound_example = deployed-IsSound to_upgraded

Step-wasm_example :
    (w : IsAuthorised 160 approved upgraded) × ((a : ℕ)
      → mem a w.proposal.approvals ≡ true
      → SignedApproval a w.id _ to_approved)
Step-wasm_example = Step-wasm to_approved (call (at_time 160) (executes 2 0)) wasm_changed

-- The proposal after its execution.
abbrev done : UpgradeProposal
done = record {
  proposal_id = 0;
  proposer = 1;
  new_wasm_hash = 9;
  description = [];
  status = executed;
  created_at = 110;
  approvals = 1 ∷ [];
  approval_count = 1;
  required_approvals = 1;
  execution_time = 160;
}

done_stored : lookup 0 upgraded.proposals ≡ some done
unfolding dispatch initialize_timelock propose_upgrade approve_upgrade execute_upgrade
    require_signer invoke ◌>>=◌
done_stored = refl

-- A later attempt to cancel it leaves it executed.
Reach-final_example : lookup 0 (after upgraded 170 (cancels 1 0 [])).proposals ≡ some done
Reach-final_example =
    Reach-final 0 done to_upgraded (next here (call (at_time 170) (cancels 1 0 []))) done_stored
      refl

-- Three signers, two of whom have to approve.
abbrev staffed : TimelockStore
staffed = after (after (after (deployed 7) 100 (initializes 1 50 2)) 101 (adds 1 2)) 102 (adds 2 3)
