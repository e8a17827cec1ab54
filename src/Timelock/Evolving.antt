-- ===== src/Timelock/Evolving.antt =====
-- The three ways in which the timelock's storage changes beside the replacement of a proposal.
use lease_flow_protocol_cont.Base.{
  ℕ, ◌+◌, ◌<◌, ◌≡◌, inl, inr, refl, arith, Bool, true, false, some, List, lookup, insert,
  All-insert, All-map, All-lookup, lookup-insert, Address, Map, Bool-cases, get_or, is_some,
}
use lease_flow_protocol_cont.Timelock.Types.{UpgradeProposal, TimelockStore, TimelockEvent}
use lease_flow_protocol_cont.Timelock.Calls.{get_timelock_duration, is_signer}
use lease_flow_protocol_cont.Timelock.Invariant.{IsGood, IsSound, Evolves}

pub IsGood-of :
    {s : TimelockStore} {id : ℕ} {p : UpgradeProposal}
    → IsSound s
    → lookup id s.proposals ≡ some p
    → IsGood (get_or s.proposal_count 0) (get_timelock_duration s) id p
IsGood-of {s} {id} h found =
    All-lookup (IsGood (get_or s.proposal_count 0) (get_timelock_duration s)) id s.proposals h.good
      found

-- A signer exists only once the timelock is initialised.
pub set_of :
    {s : TimelockStore} (a : Address)
    → IsSound s
    → is_signer s a ≡ true
    → is_some s.timelock_duration ≡ true
set_of {s} a h k = elim (Bool-cases (is_some s.timelock_duration)) [
  | inl e ↦ e
  | inr e ↦ absurd (ground (arith, h.unset e))
]

module _ (now : ℕ) (s : TimelockStore) (h : IsSound s) where
  -- The proposals and the settings stay.
  pub signers-Evolves :
      (signers : Map Bool) (events : List TimelockEvent)
      → is_some s.timelock_duration ≡ true
      → Evolves now s (record s { signers = signers; events = events })
  signers-Evolves signers events k = record {
    sound = record { good = h.good; unset = λ e. cc; floor = h.floor };
    wasm = inl refl;
    final = λ j p f _. f;
  }

  -- Before the first initialisation there is no proposal.
  pub set-Evolves :
      (d : TimelockStore)
      → is_some s.timelock_duration ≡ false
      → is_some d.timelock_duration ≡ true
      → d.proposals ≡ s.proposals
      → 0 < get_or d.min_approvals 3
      → d.wasm ≡ s.wasm
      → Evolves now s d
  set-Evolves d e k ep m w =
      let empty = (h.unset e).1 in
      record {
        sound = record { good = rw (ep, empty) tt; unset = λ f. cc; floor = m };
        wasm = inl w;
        final = λ j p f _. rw ep f;
      }

  pub add-Evolves :
      (d : TimelockStore) (p : UpgradeProposal)
      → is_some s.timelock_duration ≡ true
      → d.proposals ≡ insert (get_or s.proposal_count 0) p s.proposals
      → d.proposal_count ≡ some (get_or s.proposal_count 0 + 1)
      → d.timelock_duration ≡ s.timelock_duration
      → d.min_approvals ≡ s.min_approvals
      → d.wasm ≡ s.wasm
      → IsGood
          (get_or s.proposal_count 0 + 1)
          (get_timelock_duration s)
          (get_or s.proposal_count 0)
          p
      → Evolves now s d
  add-Evolves d p k ep ec ed em w g =
      let c = get_or s.proposal_count 0 in
      let longer =
        All-map (IsGood c (get_timelock_duration s)) (IsGood (c + 1) (get_timelock_duration s))
          s.proposals
          (λ j q x. record {
            id_lt = omega (arith, x.id_lt);
            count = x.count;
            distinct = x.distinct;
            required_pos = x.required_pos;
            quorum = x.quorum;
            delay = x.delay;
          })
          h.good in
      record {
        sound = record {
          good = rw (ep, ec, ed) (All-insert _ c p s.proposals longer g);
          unset = λ f. cc;
          floor = rw em h.floor;
        };
        wasm = inl w;
        final = λ j q f _.
            rw ep (ground (arith, lookup-insert j c p s.proposals, (IsGood-of h f).id_lt));
      }
