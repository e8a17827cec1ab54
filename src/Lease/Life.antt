-- ===== src/Lease/Life.antt =====
-- The life of a lease: which changes of its state a call of the contract may make.
use lease_flow_protocol_cont.Base.{
  ℕ, ◌≡◌, refl, ap, ◌∙◌, arith, Bool, true, false, Option, none, some, ℤ, lookup, insert,
  lookup-insert_ne, After, After-any, After-bind, After-map, After-guard, After-found,
  After-checked, After-branch, After-modified, After-modify, After-pure, After-raise, invoke,
  invoke_keeps,
}
use native.Mathlib.Decide.{ℕ_discrete}
use lease_flow_protocol_cont.Lease.Types.{
  LeaseState, pending, active, grace_period, eviction_pending, closed, Address, Lease, ContractData,
  Host, Chain, After-load,
}
use lease_flow_protocol_cont.Lease.Create.{
  is_state, CreateArgs, create_lease, activate_lease, terminate_lease,
}
use lease_flow_protocol_cont.Lease.Payment.{
  apply_payment, process_rent_payment, handle_rent_payment_failure,
}
use lease_flow_protocol_cont.Lease.Arrears.{
  evict, check_grace_period_expiry, trigger_grace_period_check, execute_arrears_deduction,
}
use lease_flow_protocol_cont.Lease.Oracle.{process_fiat_pegged_rent_payment}
use lease_flow_protocol_cont.Lease.Invariant.{is_state-eq, IsSound, Holds}
use lease_flow_protocol_cont.Lease.Preserve.{IsSound-of}
use lease_flow_protocol_cont.Lease.Deduction.{update_credit_record-After}
use lease_flow_protocol_cont.Lease.Activation.{lookup_fresh}
use lease_flow_protocol_cont.Lease.Calls.{
  Request, initializes, creates, pays, fails, expires, triggers, deducts, pays_fiat, terminates,
  dispatch, Reach, Reach-IsSound,
}
use lease_flow_protocol_cont.Lease.States.{
  Edge, stays, activates, lapses, recovers, evicts, closes, state_of, state_at, Advances,
  Advances-refl, from, insert-Advances, SameStates, insert-SameStates, SameStates-Advances,
}

module _ (host : Host) (id : ℕ) where
  activate-Advances :
      (lessee : Address) (c : Chain)
      → After (λ a e. Advances c.stored e.stored) c (activate_lease host id lessee)
  unfolding activate_lease
  activate-Advances lessee c = After-load _ λ d e. After-found _ _ _ λ l found.
      After-guard _ _ _ λ _. After-guard _ _ _ λ pend. After-checked _ _ _ λ _.
        After-checked _ _ _ λ _. After-bind _ _ (
          After-any _ λ _ c'. After-modified _ _ (
            After-modify _ (
              insert-Advances c.stored d _ id l _ e found refl
                (from l.state pending active activates (ground arith)))))

  payment-Edge :
      (amount : ℤ) (l : Lease) (st : LeaseState) (c : Chain)
      → l.state ≡ st
      → After (λ l' c'. Edge l.state l'.state) c (apply_payment host id amount l st)
  unfolding apply_payment
  payment-Edge amount l LeaseState.active c e = After-checked _ _ _ λ _. After-pure _ stays
  payment-Edge amount l LeaseState.grace_period c e = After-checked _ _ _ λ _.
      After-guard _ _ _ λ _.
        After-checked _ _ _
          λ _. After-modified _ _ (After-pure _ (from l.state grace_period active recovers e))
  payment-Edge amount l _ c e = After-raise _

  pay-Advances :
      (amount : ℤ) (c : Chain)
      → After (λ a e. Advances c.stored e.stored) c (process_rent_payment host id amount)
  unfolding process_rent_payment
  pay-Advances amount c = After-load _ λ d e. After-found _ _ _ λ l found. After-guard _ _ _ λ _.
      After-bind _ _ (
        After-map
          (λ l' c' edge. After-modify _ (insert-Advances c.stored d _ id l l' e found refl edge))
          (payment-Edge amount l l.state c refl))

  fail-Advances :
      (c : Chain)
      → After (λ a e. Advances c.stored e.stored) c (handle_rent_payment_failure host id)
  unfolding handle_rent_payment_failure
  fail-Advances c = After-load _ λ d e. After-found _ _ _ λ l found. After-guard _ _ _ λ act.
      After-bind _ _ (
        After-any _ λ fee c'. After-checked _ _ _ λ _. After-modified _ _ (
          After-modify _ (
            insert-Advances c.stored d _ id l _ e found refl
              (from l.state active grace_period lapses (ground arith)))))

  terminate-Advances :
      (caller : Address) (c : Chain)
      → After (λ a e. Advances c.stored e.stored) c (terminate_lease host id caller)
  unfolding terminate_lease
  terminate-Advances caller c = After-load _ λ d e. After-found _ _ _ λ l found.
      After-guard _ _ _ λ _. After-guard _ _ _ λ act. After-bind _ _ (
        After-any _ λ r c'. After-modified _ _ (
          After-modified _ _ (
            After-pure _ (
              insert-Advances c.stored d _ id l _ e found refl
                (from l.state active closed closes (ground arith))))))

  fiat-Advances :
      (c : Chain)
      → After (λ a e. Advances c.stored e.stored) c (process_fiat_pegged_rent_payment host id)
  unfolding process_fiat_pegged_rent_payment
  fiat-Advances c = After-load _ λ d e. After-found _ _ _ λ l found. After-guard _ _ _ λ _.
      After-found _ _ _ λ config _. After-guard _ _ _ λ _. After-bind _ _ (
        After-any _ λ rent c1. After-bind _ _ (
          After-any _ λ price c2. After-checked _ _ _ λ _.
            After-modified _ _
              (After-modify _ (insert-Advances c.stored d _ id l _ e found refl stays))))

  -- A deduction changes no state, whatever the data.
  deduct-SameStates :
      (c : Chain)
      → After (λ a e. SameStates c.stored e.stored) c (execute_arrears_deduction host id)
  unfolding execute_arrears_deduction
  deduct-SameStates c = After-load _ λ d e. After-found _ _ _ λ l found. After-guard _ _ _ λ _.
      After-guard _ _ _ λ _. After-found _ _ _ λ start _. After-checked _ _ _ λ _. After-bind _ _ (
        After-any _ λ a c'. After-guard _ _ _ λ _. After-checked _ _ _ λ _. After-checked _ _ _ λ _.
          After-bind _ _ (
            After-branch _ _ _
              (λ _.
                After-map
                  (λ d3 c'' kept. After-modified _ _ (
                    After-modify _ (
                      insert-SameStates c.stored d _ id l _ e found
                        (ap (insert id (record l { arrears_processed = true })) kept.0) refl)))
                  (update_credit_record-After host _ _ _ id c'))
              (λ _. After-pure _ (
                After-modified _ _
                  (After-modify _ (insert-SameStates c.stored d _ id l _ e found refl refl))))))

  evict-Advances :
      (d : ContractData) (l : Lease) (c : Chain)
      → c.stored ≡ some d
      → lookup id d.leases ≡ some l
      → l.state ≡ grace_period
      → After (λ a e. Advances c.stored e.stored) c (evict host d id l)
  unfolding evict
  evict-Advances d l c e found grace = After-checked _ _ _ λ _. After-modified _ _ (
      After-modified _ _ (
        After-map
          (λ _ f same.
            SameStates-Advances
              (insert-Advances c.stored d _ id l _ e found refl
                (from l.state grace_period eviction_pending evicts grace))
              same)
          (deduct-SameStates _)))

  expire-Advances :
      (c : Chain) → After (λ a e. Advances c.stored e.stored) c (check_grace_period_expiry host id)
  unfolding check_grace_period_expiry
  expire-Advances c = After-load _ λ d e. After-found _ _ _ λ l found.
      After-branch _ _ _
        (λ (grace : is_state l.state grace_period ≡ true). After-found _ _ _ λ start _.
          After-checked _ _ _ λ _.
            After-branch _ _ _
              (λ late. evict-Advances d l c e found (is_state-eq l.state grace_period grace))
              (λ _. After-pure _ (Advances-refl c.stored)))
        (λ _. After-pure _ (Advances-refl c.stored))

  trigger-Advances :
      (caller : Address) (c : Chain)
      → After (λ a e. Advances c.stored e.stored) c (trigger_grace_period_check host id caller)
  unfolding trigger_grace_period_check
  trigger-Advances caller c =
      After-load _ λ d e. After-found _ _ _ λ l found. After-guard _ _ _ λ _. expire-Advances c

created-Advances :
    (c : Option ContractData) (d d2 : ContractData) (l : Lease)
    → c ≡ some d
    → IsSound d
    → d2.leases ≡ insert d.next_lease_id l d.leases
    → Advances c (some d2)
created-Advances c d d2 l e s eq = record {
  edges = λ j a at. elim (ℕ_discrete j d.next_lease_id) [
    | yes same ↦
        let fresh : state_at c j ≡ none =
          rw (same, e) (ap state_of (lookup_fresh d.next_lease_id d.leases s.good)) in
        cc (at, fresh)
    | no other ↦
        let kept : state_at (some d2) j ≡ state_at c j =
          rw (e, eq) (ap state_of (lookup-insert_ne j d.next_lease_id l d.leases other)) in
        (a, kept ∙ at, stays)
  ];
}

create-Advances :
    (host : Host) (args : CreateArgs) (c : Chain)
    → Holds IsSound c.stored
    → After (λ a e. Advances c.stored e.stored) c (create_lease host args)
unfolding create_lease
create-Advances host args c h = After-guard _ _ _ λ _. After-guard _ _ _ λ _. After-guard _ _ _ λ _.
    After-load _ λ d e. After-bind _ _ (
      After-any _ λ rent c'. After-checked _ _ _ λ _. After-modified _ _ (
        After-modified _ _
          (After-pure _ (created-Advances c.stored d _ _ e (IsSound-of c h e) refl))))

-- Whether a request is one to initialise.
abbrev pub is_initialize : Request → Bool
is_initialize (initializes oracle) = true
is_initialize _ = false

dispatch-Advances :
    (host : Host) (r : Request) (c : Chain)
    → Holds IsSound c.stored
    → is_initialize r ≡ false
    → After (λ a e. Advances c.stored e.stored) c (dispatch host r)
unfolding dispatch
dispatch-Advances host (initializes oracle) c h other = cc
dispatch-Advances host (creates args) c h other =
    After-bind _ _ (After-map (λ _ e k. After-pure _ k) (create-Advances host args c h))
dispatch-Advances host (Request.activates id lessee) c h other = activate-Advances host id lessee c
dispatch-Advances host (pays id amount) c h other = pay-Advances host id amount c
dispatch-Advances host (fails id) c h other = fail-Advances host id c
dispatch-Advances host (expires id) c h other = expire-Advances host id c
dispatch-Advances host (triggers id caller) c h other = trigger-Advances host id caller c
dispatch-Advances host (deducts id) c h other =
    After-map (λ _ e same. SameStates-Advances (Advances-refl c.stored) same)
      (deduct-SameStates host id c)
dispatch-Advances host (pays_fiat id) c h other = fiat-Advances host id c
dispatch-Advances host (terminates id caller) c h other =
    After-bind _ _ (After-map (λ _ e k. After-pure _ k) (terminate-Advances host id caller c))

-- In every state that calls reach from an empty contract, any call but initialize keeps every lease
-- and leaves its state as it is or moves it along one edge: from pending to active, from active to
-- its grace period or to closed, from the grace period back to active or to the pending eviction. A
-- closed or evicted lease stays so.
pub Reach-Advances :
    {b c : Chain} (host : Host) (r : Request)
    → b.stored ≡ none
    → Reach b c
    → is_initialize r ≡ false
    → Advances c.stored (invoke (dispatch host r) c).1.stored
Reach-Advances {c = c} host r e reached other =
    invoke_keeps (λ d. Advances c.stored d.stored) (dispatch host r) c (Advances-refl c.stored)
      (dispatch-Advances host r c (Reach-IsSound e reached) other)
