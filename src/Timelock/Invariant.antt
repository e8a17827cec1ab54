-- ===== src/Timelock/Invariant.antt =====
-- The invariant of the timelock's storage, and what one call may do to it.
use lease_flow_protocol_cont.Base.{
  ℕ, ◌+◌, ◌<◌, ◌≤◌, ◌≡◌, ◌⊎◌, inl, refl, ap, sym, ◌∙◌, arith, Bool, true, false, Option, none, some,
  List, [], ◌∷◌, ◌++◌, ◌||◌, lookup, insert, All, All-insert, lookup-insert, Address, ◌==◌, get_or,
  is_some, mem, length,
}
use lease_flow_protocol_cont.Timelock.Types.{
  UpgradeProposalStatus, approved, executed, cancelled, UpgradeProposal, TimelockStore,
}
use lease_flow_protocol_cont.Timelock.Calls.{is_status, get_timelock_duration}

abbrev pub IsDistinct : List Address → Type 0
IsDistinct [] = Unit
IsDistinct (x ∷ xs) = (mem x xs ≡ false) × IsDistinct xs

abbrev pub has_quorum : UpgradeProposalStatus → Bool
has_quorum status = is_status status approved || is_status status executed

abbrev pub is_final : UpgradeProposalStatus → Bool
is_final status = is_status status executed || is_status status cancelled

pub record IsGood (next duration id : ℕ) (p : UpgradeProposal) : Type 0 where
  pub id_lt : id < next
  pub count : p.approval_count ≡ length p.approvals
  pub distinct : IsDistinct p.approvals
  pub required_pos : 0 < p.required_approvals
  pub quorum : has_quorum p.status ≡ true → p.required_approvals ≤ p.approval_count
  pub delay : p.execution_time ≡ p.created_at + duration

pub record IsSound (s : TimelockStore) : Type 0 where
  pub good : All (IsGood (get_or s.proposal_count 0) (get_timelock_duration s)) s.proposals
  pub unset : is_some s.timelock_duration ≡ false → (s.signers ≡ []) × (s.proposals ≡ [])
  pub floor : 0 < get_or s.min_approvals 3

-- The Wasm of `d` is that of a proposal in `s` with enough approvals of distinct addresses and
-- a delay that had passed.
pub record IsAuthorised (now : ℕ) (s d : TimelockStore) : Type 0 where
  pub id : ℕ
  pub proposal : UpgradeProposal
  pub found : lookup id s.proposals ≡ some proposal
  pub hash : d.wasm ≡ proposal.new_wasm_hash
  pub marked : lookup id d.proposals ≡ some (record proposal { status = executed })
  pub was_approved : proposal.status ≡ approved
  pub enough : proposal.required_approvals ≤ length proposal.approvals
  pub distinct : IsDistinct proposal.approvals
  pub waited : proposal.created_at + get_timelock_duration s ≤ now

pub record Evolves (now : ℕ) (s d : TimelockStore) : Type 0 where
  pub sound : IsSound d
  pub wasm : (d.wasm ≡ s.wasm) ⊎ IsAuthorised now s d
  pub final :
      (id : ℕ) (p : UpgradeProposal)
      → lookup id s.proposals ≡ some p
      → is_final p.status ≡ true
      → lookup id d.proposals ≡ some p

pub Evolves-refl : (now : ℕ) (s : TimelockStore) → IsSound s → Evolves now s s
Evolves-refl now s h = record { sound = h; wasm = inl refl; final = λ id p e _. e }

pub is_status-eq : (a b : UpgradeProposalStatus) → is_status a b ≡ true → a ≡ b
is_status-eq a b h = ground arith

pub mem-snoc :
    (y x : Address) (xs : List Address)
    → mem y xs ≡ false
    → (y == x) ≡ false
    → mem y (xs ++ x ∷ []) ≡ false
mem-snoc y x [] h k = ground arith
mem-snoc y x (z ∷ xs) h k = ground (arith, mem-snoc y x xs)

pub IsDistinct-snoc :
    (xs : List Address) (x : Address) → IsDistinct xs → mem x xs ≡ false → IsDistinct (xs ++ x ∷ [])
IsDistinct-snoc [] x d h = (refl, tt)
IsDistinct-snoc (y ∷ xs) x d h =
    (mem-snoc y x xs d.0 (ground arith), IsDistinct-snoc xs x d.1 (ground arith))

none-some : {A : Type 0} {a : A} {o : Option A} → o ≡ none → o ≡ some a → ⊥
none-some e f = cc

-- One proposal that is not final is replaced.
pub replace-Evolves :
    (now : ℕ) (s d : TimelockStore) (id : ℕ) (p p' : UpgradeProposal)
    → IsSound s
    → lookup id s.proposals ≡ some p
    → is_final p.status ≡ false
    → IsGood (get_or s.proposal_count 0) (get_timelock_duration s) id p'
    → d.proposals ≡ insert id p' s.proposals
    → d.proposal_count ≡ s.proposal_count
    → d.timelock_duration ≡ s.timelock_duration
    → d.signers ≡ s.signers
    → d.min_approvals ≡ s.min_approvals
    → (d.wasm ≡ s.wasm) ⊎ IsAuthorised now s d
    → Evolves now s d
replace-Evolves now s d id p p' h found unfinished g ep ec ed es em w = record {
  sound = record {
    good = rw (ep, ec, ed) (All-insert _ id p' s.proposals h.good g);
    unset = λ e. absurd (none-some (ap (lookup id) (h.unset (ap is_some (sym ed) ∙ e)).1) found);
    floor = rw em h.floor;
  };
  wasm = w;
  final = λ j q e f. rw ep (ground (arith, lookup-insert j id p' s.proposals));
}
