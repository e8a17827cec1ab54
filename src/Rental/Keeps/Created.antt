-- ===== src/Rental/Keeps/Created.antt =====
-- The creation of a lease keeps the books.
use lease_flow_protocol_cont.Base.{
  ℕ, ◌≡◌, refl, ◌+ℤ◌, ◌*ℤ◌, negsuc, inl, inr, Bool-cases, arith, false, ℤ, pos, Address, Env, ⊤, ok,
  err, Bool, attempt, of_result, ◌>>=◌, ◌>>◌, After, After-pure, After-raise, After-gets,
  After-bind, After-guard, After-found, After-checked, After-branch, After-if_some, After-modify,
  After-modified, After-attempt_any, After-any, After-or_trap, After-of_result, After-map,
}
use lease_flow_protocol_cont.Velocity.Calls.{initialize_lessor, update_portfolio_size}
use lease_flow_protocol_cont.Rental.LeaseFlags
use lease_flow_protocol_cont.Rental.LeaseFlags.{has_flag}
use lease_flow_protocol_cont.Rental.Types.{LeaseError, RentalEvent, CreateLeaseParams}
use lease_flow_protocol_cont.Rental.Store.{
  World, RentalStore, Rental, guarded, release_reentrancy_lock, publish, acquire_reentrancy_lock,
}
use lease_flow_protocol_cont.Rental.Create.{
  create_lease_instance, verify_asset, verify_asset_ownership, lock_deposit, execute_deposit_swap,
  swap_output, index_lease, new_lease, initial_flags,
}
use lease_flow_protocol_cont.Rental.Books.{
  IsConsistent, IsCollected, Consistent, save-Consistent, open_books,
}
use lease_flow_protocol_cont.Rental.Rules.{After-guarded_once}
use lease_flow_protocol_cont.Rental.Keeps.Paid.{KeepsBooks}

pub record SameBooks {W : Type 0} (s d : RentalStore W) : Type 0 where
  pub leases : d.leases ≡ s.leases
  pub balances : d.roommate_balances ≡ s.roommate_balances
  pub locked : d.locked ≡ s.locked
  pub hierarchy : d.fallback_hierarchy ≡ s.fallback_hierarchy

pub same :
    {W : Type 0} {s d : RentalStore W}
    → d.leases ≡ s.leases
    → d.roommate_balances ≡ s.roommate_balances
    → d.locked ≡ s.locked
    → d.fallback_hierarchy ≡ s.fallback_hierarchy
    → SameBooks s d
same a b c e = record { leases = a; balances = b; locked = c; hierarchy = e }

module _ {W : Type 0} (world : World W) (self : Address) (env : Env) (s : RentalStore W) where
  verify_asset-same :
      (id landlord : ℕ) (params : CreateLeaseParams)
      → After (λ a d. SameBooks s d) s (verify_asset world self env id landlord params)
  unfolding verify_asset verify_asset_ownership
  verify_asset-same id landlord params =
      After-if_some _ _ _
        (λ registry _.
          After-if_some _ _ _
            (λ asset _. After-bind _ _ (
              After-bind _ _ (
                After-gets _ (
                  After-guard _ _ _ λ _. After-bind _ _ (
                    After-gets _ (
                      After-found _ _ _ λ listed _. After-guard _ _ _ λ _. After-guard _ _ _ λ _.
                        After-found _ _ _ λ frozen _. After-modified _ _ (
                          After-modified _ _
                            (After-pure _ (After-pure _ (same refl refl refl refl))))))))))
            (λ _. After-pure _ (same refl refl refl refl)))
        (λ _. After-pure _ (same refl refl refl refl))

  lock_deposit-same :
      (id : ℕ) (params : CreateLeaseParams)
      → After (λ a d. SameBooks s d) s (lock_deposit world self env id params)
  unfolding lock_deposit execute_deposit_swap swap_output
  lock_deposit-same id params =
      After-if_some _ _ _
        (λ asset _.
          After-branch _ _ _ (λ _. After-pure _ (same refl refl refl refl))
            λ _. After-guard _ _ _ λ _. After-bind _ _ (
              After-if_some _ _ _
                (λ dex _. After-bind _ _ (
                  After-gets _ (
                    After-bind _ _ (
                      After-or_trap _ λ out _. After-modified _ _ (
                        After-pure _
                          (After-modified _ _ (After-pure _ (same refl refl refl refl))))))))
                (λ _. After-guard _ _ _ λ _.
                  After-pure _ (After-modified _ _ (After-pure _ (same refl refl refl refl))))))
        (λ _. After-pure _ (same refl refl refl refl))

  index_lease-rule :
      {Q : ⊤ → RentalStore W → Type 0} (id : ℕ)
      → ((index : _) → Q tt (record s { active_leases_index = index }))
      → After Q s (index_lease world self env id)
  unfolding index_lease
  index_lease-rule id k =
      After-bind _ _
        (After-gets _ (After-bind _ _ (After-of_result _ λ index _. After-modify _ (k index))))

initial_flags_fresh :
    (params : CreateLeaseParams)
    → has_flag LeaseFlags.flat_fee_applied (initial_flags params) ≡ false
unfolding has_flag
initial_flags_fresh params = elim (Bool-cases params.has_pet) [
  | inl p ↦ elim (Bool-cases params.yield_delegation_enabled) [
    | inl y ↦ rw (p, y) refl
    | inr y ↦ rw (p, y) refl
  ]
  | inr p ↦ elim (Bool-cases params.yield_delegation_enabled) [
    | inl y ↦ rw (p, y) refl
    | inr y ↦ rw (p, y) refl
  ]
]

no_time : (fee : ℤ) → pos 0 ≡ pos 0 +ℤ pos 0 *ℤ fee
unfolding ◌+ℤ◌
no_time (pos n) = ground arith
no_time (negsuc n) = ground arith

pub carried :
    {W : Type 0} {s d : RentalStore W} {locked : Bool}
    → SameBooks s d
    → Consistent s.leases s.roommate_balances locked s.fallback_hierarchy
    → Consistent d.leases d.roommate_balances locked d.fallback_hierarchy
carried k h = rw (k.leases, k.balances, k.hierarchy) h

pub carried_all :
    {W : Type 0} {s d : RentalStore W} → SameBooks s d → IsConsistent s → IsConsistent d
carried_all k h = rw (k.leases, k.balances, k.locked, k.hierarchy) h

module _ {W A B : Type 0} {Q : A → RentalStore W → Type 0} {s : RentalStore W}
    (f : B → Rental W A) where
  failed : (e : LeaseError) → After Q s (of_result (err e) >>= f)
  unfolding of_result
  failed e = After-bind _ f (record { holds = tt })

  settled : (a : B) → After Q s (f a) → After Q s (of_result (ok a) >>= f)
  unfolding of_result
  settled a h = After-bind _ f (record { holds = h })

-- A new lease has no payments, withdrawals and fees.
new_lease-Collected :
    (balances : _) (id landlord : ℕ) (params : CreateLeaseParams) (locked : ℤ)
    → IsCollected balances id (new_lease landlord params locked)
new_lease-Collected balances id landlord params locked = record {
  recorded = refl;
  released = refl;
  started = omega arith;
  covered = omega arith;
  charged = rw (initial_flags_fresh params) (no_time params.late_fee_per_sec);
  bounded = omega arith;
  unarbitrated = refl;
}

module _ {W : Type 0} (world : World W) (self : Address) (env : Env) where
  -- The end of a creation, once the lease is stored under the lock.
  finish :
      (s : RentalStore W) (id landlord : ℕ) (params : CreateLeaseParams)
      → Consistent s.leases s.roommate_balances false s.fallback_hierarchy
      → After KeepsBooks s (do
        idx_result ← attempt (index_lease world self env id)
        vel_init ← attempt (guarded (initialize_lessor landlord))
        vel_port ← attempt (guarded (update_portfolio_size landlord (pos 1)))
        release_reentrancy_lock
        of_result idx_result
        of_result vel_init
        of_result vel_port
        publish (RentalEvent.lease_signed id params.property_uri))
  unfolding guarded
  finish s id landlord params h =
      After-attempt_any _ _
        (index_lease-rule world self env s id λ index.
          After-attempt_any _ _
            (After-guarded_once _ λ _ _.
              After-attempt_any _ _
                (After-guarded_once _ λ _ _.
                  After-modified _ _ (settled _ _ (settled _ _ (settled _ _ (After-modify _ h)))))
                (λ e d. After-modified _ _ (settled _ _ (settled _ _ (failed _ e)))))
            (λ e d.
              After-bind _ _ (After-any _ λ _ _. After-modified _ _ (settled _ _ (failed _ e)))))
        (λ e d.
          After-bind _ _ (
            After-any _ λ _ _. After-bind _ _ (After-any _ λ _ _. After-modified _ _ (failed _ e))))

  pub created-Keeps :
      (s : RentalStore W) (id landlord : ℕ) (params : CreateLeaseParams)
      → IsConsistent s
      → After KeepsBooks s (create_lease_instance world self env id landlord params)
  unfolding create_lease_instance acquire_reentrancy_lock
  created-Keeps s id landlord params h = After-bind _ _ (
      After-bind _ _ (
        After-gets _ (
          After-bind _ _ (
            After-or_trap _ λ _ _. After-modify _ (
              After-bind _ _ (
                After-gets _ (
                  After-branch _ _ _ (λ _. After-modified _ _ (After-raise _))
                    (λ _. After-checked _ _ _ λ _. After-checked _ _ _ λ _. After-bind _ _ (
                      After-map
                        (λ _ d k.
                          After-attempt_any _ _
                            (After-map
                              (λ locked e m. After-modified _ _ (
                                finish _ id landlord params (
                                  save-Consistent (carried m (carried k (open_books h))) id _
                                    (new_lease-Collected _ id landlord params locked))))
                              (lock_deposit-same world self env d id params))
                            (λ _ _. After-modified _ _ (After-raise _)))
                        (verify_asset-same world self env _ id landlord params))))))))))
