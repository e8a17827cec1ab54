-- ===== src/Timelock/Steps.antt =====
-- The entry points of the timelock as steps of its storage, and what every call and every
-- sequence of calls keeps.
use lease_flow_protocol_cont.Base.{
  ℕ, ◌≡◌, ◌≢◌, ◌⊎◌, inl, inr, mem, refl, arith, true, none, some, List, [], lookup, Address, Env, ⊤,
  invoke, invoke_keeps, pure, ◌>>◌, After, After-pure, After-bind, After-map,
}
use lease_flow_protocol_cont.Timelock.Types.{UpgradeProposal, TimelockStore, Timelocked}
use lease_flow_protocol_cont.Timelock.Calls.{
  initialize_timelock, add_signer, remove_signer, propose_upgrade, approve_upgrade, execute_upgrade,
  cancel_upgrade,
}
use lease_flow_protocol_cont.Timelock.Invariant.{
  is_final, IsSound, IsAuthorised, Evolves, Evolves-refl,
}
use lease_flow_protocol_cont.Timelock.Approvals.{
  HasApproval, Inherits, IsSigned, initialize-Inherits, add_signer-Inherits, remove_signer-Inherits,
  propose-Inherits, approve-Inherits, execute-Inherits, cancel-Inherits,
}
use lease_flow_protocol_cont.Timelock.Entries.{
  initialize-Evolves, add_signer-Evolves, remove_signer-Evolves, propose-Evolves, approve-Evolves,
  execute-Evolves, cancel-Evolves,
}

pub data TimelockRequest : Type 0 where
  initializes : Address → ℕ → ℕ → TimelockRequest
  adds : Address → Address → TimelockRequest
  removes : Address → Address → TimelockRequest
  proposes : Address → ℕ → List ℕ → TimelockRequest
  approves : Address → ℕ → TimelockRequest
  executes : Address → ℕ → TimelockRequest
  cancels : Address → ℕ → List ℕ → TimelockRequest

-- One entry point, its result dropped.
unfoldable pub dispatch : Env → TimelockRequest → Timelocked ⊤
dispatch env (initializes admin duration approvals) =
    initialize_timelock env admin duration approvals
dispatch env (adds caller signer) = add_signer env caller signer
dispatch env (removes caller signer) = remove_signer env caller signer
dispatch env (proposes proposer hash description) =
    propose_upgrade env proposer hash description >> pure tt
dispatch env (approves approver id) = approve_upgrade env approver id
dispatch env (executes executor id) = execute_upgrade env executor id
dispatch env (cancels canceller id reason) = cancel_upgrade env canceller id reason

dispatch-Evolves :
    (env : Env) (r : TimelockRequest) (s : TimelockStore)
    → IsSound s
    → After (λ a d. Evolves env.timestamp s d) s (dispatch env r)
unfolding dispatch
dispatch-Evolves env (initializes admin duration approvals) s h =
    initialize-Evolves env s h admin duration approvals
dispatch-Evolves env (adds caller signer) s h = add_signer-Evolves env s h caller signer
dispatch-Evolves env (removes caller signer) s h = remove_signer-Evolves env s h caller signer
dispatch-Evolves env (proposes proposer hash description) s h =
    After-bind _ _
      (After-map (λ _ d k. After-pure _ k) (propose-Evolves env s h proposer hash description))
dispatch-Evolves env (approves approver id) s h = approve-Evolves env s h approver id
dispatch-Evolves env (executes executor id) s h = execute-Evolves env s h executor id
dispatch-Evolves env (cancels canceller id reason) s h = cancel-Evolves env s h canceller id reason

-- The call approves the proposal `id`, authorised by `a`, who is a signer.
abbrev pub IsApproval : Env → TimelockStore → TimelockRequest → Address → ℕ → Type 0
IsApproval env s r a id = (r ≡ approves a id) × IsSigned env s a

-- An approval that is stored after a call was stored before or is that call.
abbrev Accounts : Env → TimelockStore → TimelockRequest → TimelockStore → Type 0
Accounts env s r d =
    (a : Address) (id : ℕ)
    → HasApproval d.proposals a id
    → HasApproval s.proposals a id ⊎ IsApproval env s r a id

inherited :
    {A : Type 0} {env : Env} {s : TimelockStore} {r : TimelockRequest} {m : Timelocked A}
    → After (λ _ d. Inherits s d) s m
    → After (λ _ d. Accounts env s r d) s m
inherited h = After-map (λ _ d k a id has. inl (k a id has)) h

same_call : {a b : Address} {id k : ℕ} → a ≡ b → id ≡ k → approves b k ≡ approves a id
same_call who which = rw (who, which) refl

dispatch-Accounts :
    (env : Env) (r : TimelockRequest) (s : TimelockStore)
    → After (λ _ d. Accounts env s r d) s (dispatch env r)
unfolding dispatch
dispatch-Accounts env (initializes admin duration approvals) s =
    inherited (initialize-Inherits env s admin duration approvals)
dispatch-Accounts env (adds caller signer) s = inherited (add_signer-Inherits env s caller signer)
dispatch-Accounts env (removes caller signer) s =
    inherited (remove_signer-Inherits env s caller signer)
dispatch-Accounts env (proposes proposer hash description) s = After-bind _ _ (
    After-map (λ _ d k. After-pure _ k)
      (inherited (propose-Inherits env s proposer hash description)))
dispatch-Accounts env (approves approver k) s =
    After-map
      (λ _ d h a id has. elim (h a id has) [
        | inl before ↦ inl before
        | inr (who, which, signed) ↦ inr (same_call who which, signed)
      ])
      (approve-Inherits env s approver k)
dispatch-Accounts env (executes executor id) s = inherited (execute-Inherits env s executor id)
dispatch-Accounts env (cancels canceller id reason) s =
    inherited (cancel-Inherits env s canceller id reason)

-- A call with some authorisations, at some time.
pub data Step (s : TimelockStore) : ℕ → TimelockStore → Type 0 where
  call : (env : Env) (r : TimelockRequest) → Step s env.timestamp (invoke (dispatch env r) s).1

pub data Reach (s : TimelockStore) : TimelockStore → Type 0 where
  here : Reach s s
  next : {d e : TimelockStore} {now : ℕ} → Reach s d → Step d now e → Reach s e

-- One of the calls approved the proposal `id`, authorised by `a`, who was a signer then.
pub data SignedApproval {s : TimelockStore} (a : Address) (id : ℕ)
    : (d : TimelockStore) → Reach s d → Type 0 where
  made :
      {d : TimelockStore} (q : Reach s d) (env : Env) (r : TimelockRequest)
      → IsApproval env d r a id
      → SignedApproval a id _ (next q (call env r))
  earlier :
      {d e : TimelockStore} {now : ℕ} (q : Reach s d) (t : Step d now e)
      → SignedApproval a id _ q
      → SignedApproval a id _ (next q t)

Step-Evolves : {now : ℕ} {s d : TimelockStore} → Step s now d → IsSound s → Evolves now s d
Step-Evolves {s = s} (call env r) h =
    invoke_keeps (λ d. Evolves env.timestamp s d) (dispatch env r) s (Evolves-refl _ s h)
      (dispatch-Evolves env r s h)

-- The storage of a contract that was just deployed with some Wasm.
abbrev pub deployed : ℕ → TimelockStore
deployed hash = record {
  proposals = [];
  proposal_count = none;
  signers = [];
  timelock_duration = none;
  min_approvals = none;
  current_wasm_hash = none;
  wasm = hash;
  events = [];
}

from-IsSound : {s d : TimelockStore} → IsSound s → Reach s d → IsSound d
from-IsSound h here = h
from-IsSound h (next r t) = (Step-Evolves t (from-IsSound h r)).sound

Step-signed :
    {s d : TimelockStore} {now : ℕ} {e : TimelockStore} (q : Reach s d) (t : Step d now e)
    (a : Address) (id : ℕ)
    → (HasApproval d.proposals a id → SignedApproval a id _ q)
    → HasApproval e.proposals a id
    → SignedApproval a id _ (next q t)
Step-signed {d = d} q (call env r) a id before has =
    elim (invoke_keeps (Accounts env d r) (dispatch env r) d (λ b k h. inl h)
      (dispatch-Accounts env r d) a id has) [
        | inl old ↦ earlier q (call env r) (before old)
        | inr now ↦ made q env r now
      ]

Reach-signed :
    {hash : ℕ} {d : TimelockStore} (q : Reach (deployed hash) d) (a : Address) (id : ℕ)
    → HasApproval d.proposals a id
    → SignedApproval a id _ q
Reach-signed here a id (p, found, has) = absurd (nothing found)
  where
    nothing : {A : Type 0} {x : A} → none ≡ some x → ⊥
    nothing e = cc
Reach-signed (next q t) a id has = Step-signed q t a id (Reach-signed q a id) has

pub reached-IsSound : {hash : ℕ} {d : TimelockStore} → Reach (deployed hash) d → IsSound d
reached-IsSound r =
    from-IsSound (record { good = tt; unset = λ _. (refl, refl); floor = omega arith }) r

-- Every state that calls reach from a deployment is sound: each proposal counts its approvals,
-- which are of distinct addresses, requires at least one, has as many as it requires once it is
-- approved or executed, and carries the stored delay since its creation; and before the first
-- initialisation there are neither signers nor proposals. And each approval comes from one of the
-- calls, which the approver authorised and at which it was a signer.
pub deployed-IsSound :
    {hash : ℕ} {d : TimelockStore} (q : Reach (deployed hash) d)
    → IsSound d × ((a : Address) (id : ℕ) → HasApproval d.proposals a id → SignedApproval a id _ q)
deployed-IsSound q = (reached-IsSound q, Reach-signed q)

-- After any calls since a deployment, a call that changes the contract's Wasm installs the hash of
-- a proposal that as many distinct addresses as it required had approved, each in one of the calls,
-- which it authorised as a signer, at a time when the stored delay since its creation has passed,
-- and marks that proposal executed.
pub Step-wasm :
    {hash now : ℕ} {d e : TimelockStore} (q : Reach (deployed hash) d)
    → Step d now e
    → e.wasm ≢ d.wasm
    → (w : IsAuthorised now d e) × ((a : Address)
        → mem a w.proposal.approvals ≡ true
        → SignedApproval a w.id _ q)
Step-wasm q t changed = elim (Step-Evolves t (reached-IsSound q)).wasm [
  | inl same ↦ absurd (changed same)
  | inr w ↦ (w, λ a has. Reach-signed q a w.id (w.proposal, w.found, has))
]

from-final :
    {s d : TimelockStore} (id : ℕ) (p : UpgradeProposal)
    → IsSound s
    → Reach s d
    → lookup id s.proposals ≡ some p
    → is_final p.status ≡ true
    → lookup id d.proposals ≡ some p
from-final id p h here found f = found
from-final id p h (next r t) found f =
    (Step-Evolves t (from-IsSound h r)).final id p (from-final id p h r found f) f

-- In a state that calls reach from a deployment, an executed or cancelled proposal stays as it
-- is through every further sequence of calls.
pub Reach-final :
    {hash : ℕ} {s d : TimelockStore} (id : ℕ) (p : UpgradeProposal)
    → Reach (deployed hash) s
    → Reach s d
    → lookup id s.proposals ≡ some p
    → is_final p.status ≡ true
    → lookup id d.proposals ≡ some p
Reach-final id p q r found f = from-final id p (reached-IsSound q) r found f
