-- ===== src/Rental/OnTime.antt =====
-- contracts/leaseflow_contracts/src/lib.rs: terminate_lease, the end of a lease whose term is over.
use lease_flow_protocol_cont.Base.{
  ℕ, ◌≡◌, ◌≢◌, ◌≤◌, refl, arith, true, ◌||◌, ◌==◌, lookup, lookup-insert_self, lookup-erase,
  Address, Env, After, After-bind, After-gets, After-guard, After-checked, After-modify,
  After-modified, erase, some, Map,
}
use lease_flow_protocol_cont.Rental.Types.{LeaseInstance}
use lease_flow_protocol_cont.Rental.Store.{World, RentalStore, is_admin, is_settled}
use lease_flow_protocol_cont.Rental.Termination.{terminate_lease}
use lease_flow_protocol_cont.Rental.Rules.{After-loaded}
use lease_flow_protocol_cont.Rental.Keeps.{After-bounty, After-burn_tokens, After-thaw_lease}
use lease_flow_protocol_cont.Rental.Endings.{Archived, erased}

pub record EndedOnTime {W : Type 0} (env : Env) (id : ℕ) (l : LeaseInstance) (caller : Address)
    (s d : RentalStore W) : Type 0 where
  pub entitled : caller == l.landlord || caller == l.tenant || is_admin caller s ≡ true
  pub signed : env.auth caller ≡ true
  pub over : l.end_date ≤ env.timestamp
  pub settled : is_settled l.deposit_status ≡ true
  pub archived : Archived env id l caller s d
  pub others : (j : ℕ) → j ≢ id → lookup j d.leases ≡ lookup j s.leases

kept_others :
    {V : Type 0} (id : ℕ) (m : Map V) (j : ℕ) → j ≢ id → lookup j (erase id m) ≡ lookup j m
kept_others id m j ne = ground (arith, lookup-erase j id m)

module _ {W : Type 0} (world : World W) (env : Env) (s : RentalStore W) (id : ℕ) (l : LeaseInstance)
    (found : lookup id s.leases ≡ some l) where
  -- If the termination of a stored lease succeeds, its landlord, its tenant or the admin signed the
  -- call, its term is over (whether it was paused or not) and its deposit settled; the lease is stored no more and is archived as it
  -- was, and every other lease is stored as before.
  pub terminate_lease-EndedOnTime :
      (caller : Address)
      → After (λ u d. EndedOnTime env id l caller s d) s (terminate_lease world env id caller)
  unfolding terminate_lease
  terminate_lease-EndedOnTime caller = After-loaded id l _ found (
      After-bind _ _ (
        After-gets _ (
          After-guard _ _ _ λ entitled. After-checked _ _ _ λ signed. After-guard _ _ _ λ over.
            After-guard _ _ _ λ settled. After-bounty _ _ _ _ λ _ _. After-burn_tokens _ _ _ _ λ _.
              After-thaw_lease _ _ _ _ λ _ _ _. After-modified _ _ (
                After-modify _ (record {
                  entitled = ground (arith, entitled);
                  signed = signed;
                  over = ground (arith, over);
                  settled = ground (arith, settled);
                  archived = record {
                    gone = erased id s.leases;
                    kept = lookup-insert_self id _ s.historical_leases;
                    indexed = refl;
                  };
                  others = kept_others id s.leases;
                })))))
