-- ===== src/Lease/States.antt =====
-- The states of the leases in the stored data, and the edges between them.
use lease_flow_protocol_cont.Base.{
  ℕ, ◌≡◌, refl, ap, ◌∙◌, Option, none, some, lookup, insert, lookup-insert_self, lookup-insert_ne,
}
use native.Mathlib.Decide.{ℕ_discrete}
use lease_flow_protocol_cont.Lease.Types.{
  LeaseState, pending, active, grace_period, eviction_pending, closed, Lease, ContractData,
}

-- A lease is activated, falls behind, recovers, is evicted or closed, or keeps its state.
pub data Edge : LeaseState → LeaseState → Type 0 where
  stays : {a : LeaseState} → Edge a a
  activates : Edge pending active
  lapses : Edge active grace_period
  recovers : Edge grace_period active
  evicts : Edge grace_period eviction_pending
  closes : Edge active closed

abbrev pub state_of : Option Lease → Option LeaseState
state_of none = none
state_of (some l) = some l.state

abbrev pub lease_in : Option ContractData → ℕ → Option Lease
lease_in none id = none
lease_in (some d) id = lookup id d.leases

-- The state of a lease, if there is such a lease.
abbrev pub state_at : Option ContractData → ℕ → Option LeaseState
state_at c id = state_of (lease_in c id)

-- Every lease of `c` is in `d`, at most one edge further.
pub record Advances (c d : Option ContractData) : Type 0 where
  pub edges :
      (id : ℕ) (a : LeaseState)
      → state_at c id ≡ some a
      → (b : LeaseState) × (state_at d id ≡ some b) × Edge a b

pub Advances-refl : (c : Option ContractData) → Advances c c
Advances-refl c = record { edges = λ id a e. (a, e, stays) }

pub from : (a b c : LeaseState) → Edge b c → a ≡ b → Edge a c
from a b c edge same = rw same edge

-- One lease moves along an edge.
pub insert-Advances :
    (c : Option ContractData) (d d2 : ContractData) (id : ℕ) (l l' : Lease)
    → c ≡ some d
    → lookup id d.leases ≡ some l
    → d2.leases ≡ insert id l' d.leases
    → Edge l.state l'.state
    → Advances c (some d2)
insert-Advances c d d2 id l l' ec found eq edge = record {
  edges = λ j a at. elim (ℕ_discrete j id) [
    | yes same ↦
        let old : state_at c j ≡ some l.state = rw (same, ec) (rw found refl) in
        let new : state_at (some d2) j ≡ some l'.state =
          rw (same, eq) (ap state_of (lookup-insert_self id l' d.leases)) in
        let was : a ≡ l.state = cc (at, old) in (l'.state, new, rw was edge)
    | no other ↦
        let kept : state_at (some d2) j ≡ state_at c j =
          rw (ec, eq) (ap state_of (lookup-insert_ne j id l' d.leases other)) in
        (a, kept ∙ at, stays)
  ];
}

pub record SameStates (c d : Option ContractData) : Type 0 where
  pub states : (id : ℕ) → state_at d id ≡ state_at c id

pub insert-SameStates :
    (c : Option ContractData) (d d2 : ContractData) (id : ℕ) (l l' : Lease)
    → c ≡ some d
    → lookup id d.leases ≡ some l
    → d2.leases ≡ insert id l' d.leases
    → l'.state ≡ l.state
    → SameStates c (some d2)
insert-SameStates c d d2 id l l' ec found eq same_state = record {
  states = λ j. elim (ℕ_discrete j id) [
    | yes same ↦
        let old : state_at c j ≡ some l.state = rw (same, ec) (rw found refl) in
        let new : state_at (some d2) j ≡ some l'.state =
          rw (same, eq) (ap state_of (lookup-insert_self id l' d.leases)) in
        cc (old, new, same_state)
    | no other ↦ rw (ec, eq) (ap state_of (lookup-insert_ne j id l' d.leases other))
  ];
}

pub SameStates-Advances :
    {c d e : Option ContractData} → Advances c d → SameStates d e → Advances c e
SameStates-Advances h same = record {
  edges = λ id a at. let (b, there, edge) = h.edges id a at in (b, same.states id ∙ there, edge);
}
