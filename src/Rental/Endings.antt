-- ===== src/Rental/Endings.antt =====
-- contracts/leaseflow_contracts/src/lib.rs: what the ends of a lease pay out and leave behind.
use lease_flow_protocol_cont.Base.{
  ℕ, ◌≡◌, ◌≢◌, ◌≤◌, refl, ◌∙◌, arith, true, false, none, some, [], ◌∷◌, ◌++◌, not, ◌||◌, ◌==◌, Map,
  lookup, lookup-insert_self, lookup-erase, erase, ℤ, pos, ◌+ℤ◌, ◌-ℤ◌, ◌≤ℤ◌, ltb_ℤ, eqb_ℤ,
  eq_of_parts, Address, Env, After, After-bind, After-guard, After-checked, After-modify,
  After-modified, After-raise_if,
}
use lease_flow_protocol_cont.Rental.Types.{
  terminated, LeaseStatus, DepositStatus, LeaseInstance, HistoricalLease,
}
use lease_flow_protocol_cont.Rental.LeaseFlags
use lease_flow_protocol_cont.Rental.LeaseFlags.{has_flag, has_flag-clear_flag}
use lease_flow_protocol_cont.Rental.Store.{World, RentalStore, is_status}
use lease_flow_protocol_cont.Rental.Deposit.{
  closed, is_releasable, check_release, mutual_deposit_release,
}
use lease_flow_protocol_cont.Rental.Termination.{execute_early_termination}
use lease_flow_protocol_cont.Rental.Split.{deposits, payout_of, After-early_split}
use lease_flow_protocol_cont.Rental.Rules.{After-loaded, After-guarded}
use lease_flow_protocol_cont.Rental.Payouts.{Paid, After-payouts}
use lease_flow_protocol_cont.Rental.Keeps.{After-hand_over, After-thaw_lease, After-return_nft}

pub Paid-kept :
    {W : Type 0} (world : World W) {self token tenant landlord : Address} {x y : ℤ} {w w' w'' : W}
    → world.token_host.balance w'' ≡ world.token_host.balance w'
    → Paid world self token tenant landlord x y w w'
    → Paid world self token tenant landlord x y w w''
Paid-kept world e p = record {
  to_tenant = rw e p.to_tenant;
  to_landlord = rw e p.to_landlord;
  from_self = rw e p.from_self;
  of_others = λ h a b c. rw e (p.of_others h a b c);
  other_tokens = λ u h ne. rw e (p.other_tokens u h ne);
}

pub erased : {V : Type 0} (id : ℕ) (m : Map V) → lookup id (erase id m) ≡ none
erased id m = ground (arith, lookup-erase id id m)

abbrev pub ended : Env → LeaseInstance → Address → HistoricalLease
ended env l caller = record { lease = l; terminated_by = caller; terminated_at = env.timestamp }

-- The lease is archived under its id, the last in the index.
pub record Archived {W : Type 0} (env : Env) (id : ℕ) (l : LeaseInstance) (caller : Address)
    (s d : RentalStore W) : Type 0 where
  pub gone : lookup id d.leases ≡ none
  pub kept : lookup id d.historical_leases ≡ some (ended env l caller)
  pub indexed : d.historical_leases_index ≡ s.historical_leases_index ++ id ∷ []

-- A lease that is settled and inactive, with the status.
pub record IsClosed (status : LeaseStatus) (l : LeaseInstance) : Type 0 where
  pub status_of : l.status ≡ status
  pub settled : l.deposit_status ≡ DepositStatus.settled
  pub inactive : has_flag LeaseFlags.active l.flags ≡ false

closed-IsClosed : (l : LeaseInstance) → IsClosed terminated (closed l)
closed-IsClosed l = record {
  status_of = refl;
  settled = refl;
  inactive = has_flag-clear_flag l.flags;
}

pub record EndedEarly {W : Type 0} (world : World W) (self : Address) (env : Env) (id : ℕ)
    (l : LeaseInstance) (caller : Address) (s d : RentalStore W) : Type 0 where
  pub by_party : caller == l.tenant || caller == l.landlord ≡ true
  pub was_running : is_status l.status terminated ≡ false
  pub begun : l.start_date ≤ env.timestamp
  pub in_term : env.timestamp ≤ l.end_date
  pub paid :
      Paid world self l.payment_token l.tenant l.landlord
        (deposits l -ℤ payout_of env l)
        (payout_of env l)
        s.tokens
        d.tokens
  pub archived : Archived env id (closed l) caller s d
  pub closes : IsClosed terminated (closed l)

pub record Released {W : Type 0} (world : World W) (self : Address) (env : Env) (id : ℕ)
    (l : LeaseInstance) (lessee lessor : Address) (back slash : ℤ) (s d : RentalStore W)
    : Type 0 where
  pub parties : (lessee ≡ l.tenant) × (lessor ≡ l.landlord)
  pub signed : (env.auth lessee ≡ true) × (env.auth lessor ≡ true)
  pub open_lease : is_releasable l.status ≡ true
  pub least : (pos 0 ≤ℤ back) × (pos 0 ≤ℤ slash)
  pub whole : back +ℤ slash ≡ deposits l
  pub paid : Paid world self l.payment_token l.tenant l.landlord back slash s.tokens d.tokens
  pub stored : lookup id d.leases ≡ some (closed l)
  pub closes : IsClosed terminated (closed l)

module _ {W : Type 0} (world : World W) (self : Address) (env : Env) (s : RentalStore W) (id : ℕ)
    (l : LeaseInstance) (found : lookup id s.leases ≡ some l) where
  -- Of a stored lease whose tenant, landlord and this contract are three addresses: if an early
  -- termination succeeds, the caller was the tenant or the landlord, the lease was not terminated,
  -- and the time was from its start to its end; the contract's balance of the lease's token falls by
  -- what the landlord and the tenant get, the landlord the penalty up to the deposits and the tenant
  -- the rest of the deposits (nothing for an amount below 0), and no other balance changes; the
  -- lease is stored no more, and is archived as terminated, settled and inactive.
  pub execute_early_termination-EndedEarly :
      (caller : Address)
      → self ≢ l.tenant
      → self ≢ l.landlord
      → l.tenant ≢ l.landlord
      → After
          (λ u d. EndedEarly world self env id l caller s d)
          s
          (execute_early_termination world self env id caller)
  unfolding execute_early_termination
  execute_early_termination-EndedEarly caller st sl tl = After-checked _ _ _ λ _.
      After-loaded id l _ found (
        After-guard _ _ _ λ party. After-guard _ _ _ λ running. After-guarded _ _ λ _ _.
          After-guarded _ _ λ _ _. After-early_split env l _ λ begun in_term.
            After-payouts world self l.payment_token l.tenant l.landlord _ _ _ st sl tl λ w p.
              After-hand_over _ _ _ _ _ λ w' e. After-guarded _ _ λ _ _. After-guarded _ _ λ _ _.
                After-thaw_lease _ _ _ _ λ _ w'' e'. After-modified _ _ (
                  After-guarded _ _ λ _ _. After-modified _ _ (
                    After-modify _ (record {
                      by_party = ground (arith, party);
                      was_running = running;
                      begun = begun;
                      in_term = in_term;
                      paid = Paid-kept world (e' ∙ e) p;
                      archived = record {
                        gone = erased id s.leases;
                        kept = lookup-insert_self id _ s.historical_leases;
                        indexed = refl;
                      };
                      closes = closed-IsClosed l;
                    }))))

  Released-by :
      {d : RentalStore W} (lessee lessor : Address) (back slash : ℤ)
      → not (lessee == l.tenant) || not (lessor == l.landlord) ≡ false
      → env.auth lessee ≡ true
      → env.auth lessor ≡ true
      → not (is_releasable l.status) ≡ false
      → not (eqb_ℤ (back +ℤ slash) (l.security_deposit +ℤ l.deposit_amount)) ≡ false
      → ltb_ℤ back (pos 0) || ltb_ℤ slash (pos 0) ≡ false
      → Paid world self l.payment_token l.tenant l.landlord back slash s.tokens d.tokens
      → lookup id d.leases ≡ some (closed l)
      → Released world self env id l lessee lessor back slash s d
  Released-by lessee lessor back slash party first second status sum least paid stored = record {
    parties = (ground (arith, party), ground (arith, party));
    signed = (first, second);
    open_lease = ground (arith, status);
    least = (ground (arith, least), ground (arith, least));
    whole = eq_of_parts (back +ℤ slash) (deposits l) (ground (arith, sum));
    paid = paid;
    stored = stored;
    closes = closed-IsClosed l;
  }

  -- A stored lease's tenant, landlord and this contract are three addresses: if a mutual release
  -- succeeds, the two parties called it and the lease was active or expired; the two amounts are from
  -- 0 up and add up to the deposits; the contract's balance of the lease's token falls by the
  -- deposits, of which the tenant and the landlord get the amounts, and no other balance changes; and
  -- the lease is stored as terminated, settled and inactive.
  pub mutual_deposit_release-Released :
      (lessee lessor : Address) (back slash : ℤ)
      → self ≢ l.tenant
      → self ≢ l.landlord
      → l.tenant ≢ l.landlord
      → After
          (λ u d. Released world self env id l lessee lessor back slash s d)
          s
          (mutual_deposit_release world self env id lessee lessor back slash)
  unfolding mutual_deposit_release check_release
  mutual_deposit_release-Released lessee lessor back slash st sl tl = After-loaded id l _ found (
      After-guard _ _ _ λ party. After-checked _ _ _ λ first. After-checked _ _ _ λ second.
        After-bind _ _ (
          After-guard _ _ _ λ status. After-checked _ _ _ λ _. After-checked _ _ _ λ _.
            After-guard _ _ _ λ sum. After-raise_if _ _ λ least.
              After-payouts world self l.payment_token l.tenant l.landlord _ _ _ st sl tl λ w p.
                After-return_nft _ _ _ _ λ _ w' e. After-modified _ _ (
                  After-modify _ (
                    Released-by lessee lessor back slash party first second status sum least
                      (Paid-kept world e p) (lookup-insert_self id _ s.leases)))))
