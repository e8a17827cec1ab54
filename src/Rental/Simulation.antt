-- ===== src/Rental/Simulation.antt =====
-- contracts/leaseflow_contracts/src/lib.rs: `simulate_termination` beside
-- `execute_early_termination`.
use lease_flow_protocol_cont.Base.{
  ℕ, ◌-◌, ◌*◌, ◌/◌, ◌≡◌, ◌≤◌, ◌<◌, ◌≢◌, ◌+◌, pos_part, Address, After, After-map, refl, arith, true,
  none, some, lookup, ltb, leb, if◌then◌else◌, ℤ, pos, ◌+ℤ◌, ◌-ℤ◌, min_ℤ, max_ℤ, fits, half_128,
  +ℤ_pos, -ℤ_pos, Env, ap, pure, ok, or_raise, run-gets, run-bind, run-checked, ◌∙◌, ◌>>=◌,
}
use lease_flow_protocol_cont.Rental.Types.{LeaseInstance, TerminationSimulation}
use lease_flow_protocol_cont.Rental.Store.{World, RentalStore, load_lease}
use lease_flow_protocol_cont.Rental.Termination.{
  simulated_penalty, simulate_lease, simulate_termination, execute_early_termination,
}
use lease_flow_protocol_cont.Rental.Endings.{execute_early_termination-EndedEarly}
use lease_flow_protocol_cont.Rental.Split.{deposits, payout_of, penalty_of}

-- The 10 % of the rent of the rest of the lease.
abbrev pub tenth : ℕ → ℕ → ℕ
tenth n r = n * r * 1000 / 10000

abbrev pub least : ℕ → ℕ → ℕ
least a b = if leb a b then a else b

-- Without a fee and a fixed penalty the landlord gets nothing.
payout-none :
    (env : Env) (l : LeaseInstance) (t : ℕ)
    → l.early_termination_fee_bps ≡ none
    → l.fixed_penalty ≡ none
    → deposits l ≡ pos t
    → payout_of env l ≡ pos 0
unfolding penalty_of
payout-none env l t no_fee no_fixed total = rw (no_fee, no_fixed, total) (ground arith)

module _ {W : Type 0} (s : RentalStore W) where
  load-run :
      (id : ℕ) (l : LeaseInstance) → lookup id s.leases ≡ some l → load_lease id s ≡ (ok l, s)
  unfolding load_lease or_raise
  load-run id l found = run-gets _ _ s ∙ rw found refl

-- What a simulation returns for the deposits and a penalty.
abbrev pub result : ℕ → ℤ → TerminationSimulation
result t x = record { deposit_amount = pos t; penalty_amount = x; projected_refund = pos t -ℤ x }

-- The penalty of the simulation is at most the deposits.
capped : (q t : ℕ) → min_ℤ (pos (least q t) +ℤ pos 0) (pos t) ≡ pos (least q t)
capped q t = rw (+ℤ_pos (least q t) 0) (ground arith)

fits-least : (q t : ℕ) → t < half_128 → fits half_128 (pos (least q t) +ℤ pos 0) ≡ true
fits-least q t h = rw (+ℤ_pos (least q t) 0) (ground arith)

fits-rest : (q t : ℕ) → t < half_128 → fits half_128 (pos t -ℤ pos (least q t)) ≡ true
fits-rest q t h =
    let le : least q t ≤ t = ground arith in rw (-ℤ_pos t (least q t) le) (ground arith)

module _ {W : Type 0} (s : RentalStore W) (n r t : ℕ) (l : LeaseInstance)
    (rate : l.rent_per_sec ≡ pos r) (small : n * r * 1000 < half_128) where
  penalty-run : simulated_penalty {W = W} n l (pos t) s ≡ (ok (pos (least (tenth n r) t)), s)
  unfolding simulated_penalty ◌>>=◌
  penalty-run = rw rate (ground arith)

simulate_lease-run :
    {W : Type 0} (ts : ℕ) (s : RentalStore W) (l : LeaseInstance) (r t : ℕ)
    → l.debt ≡ pos 0
    → l.rent_per_sec ≡ pos r
    → deposits l ≡ pos t
    → ts ≤ l.end_date
    → (l.end_date - ts) * r * 1000 < half_128
    → t < half_128
    → simulate_lease ts l s ≡ (ok (result t (pos (least (tenth (l.end_date - ts) r) t))), s)
unfolding simulate_lease pure
simulate_lease-run {W} ts s l r t debt rate total time small few =
    let q = tenth (l.end_date - ts) r in
    let left : (if ltb ts l.end_date then l.end_date - ts else 0) ≡ l.end_date - ts =
      ground arith in
    let due : min_ℤ (pos (least q t) +ℤ max_ℤ l.debt (pos 0)) (pos t) ≡ pos (least q t) =
      rw debt (capped q t) in
    let summed : fits half_128 (pos (least q t) +ℤ max_ℤ l.debt (pos 0)) ≡ true =
      rw debt (fits-least q t few) in
    let rest : fits half_128 (pos t -ℤ min_ℤ (pos (least q t) +ℤ max_ℤ l.debt (pos 0)) (pos t))
        ≡ true =
      rw due (fits-rest q t few) in
    rw (left, total)
      (run-checked _ _ _ s (ground arith)
        ∙ (run-bind _ _ (penalty-run s (l.end_date - ts) r t l rate small)
            ∙ (run-checked _ _ _ s summed
                ∙ (run-checked _ _ _ s rest ∙ ap (λ x. (ok (result t x), s)) due))))

-- The tenant's balance of the lease's token rises by the whole deposits, and the landlord's stays.
abbrev pub AllReturned : {W : Type 0} → World W → LeaseInstance → ℕ → W → W → Type 0
AllReturned world l t w w' =
    (world.token_host.balance w' l.payment_token l.tenant
      ≡ world.token_host.balance w l.payment_token l.tenant + t)
    × (world.token_host.balance w' l.payment_token l.landlord
        ≡ world.token_host.balance w l.payment_token l.landlord)

-- Of a stored lease as creation leaves it, with neither a fee nor a fixed penalty, whose tenant,
-- landlord and this contract are three addresses, with no debt and a rent per second and deposits
-- from 0 up, at a time up to its end and without overflow: the simulation succeeds, leaves the state,
-- and projects a penalty of 10 % of the rent of the rest of the term, up to the deposits, and the
-- rest of the deposits as the refund; but an early termination at that time, if it succeeds, pays
-- the tenant the whole deposits and the landlord nothing.
pub simulate_termination-execute_early_termination :
    {W : Type 0} (world : World W) (self : Address) (env : Env) (s : RentalStore W) (id : ℕ)
    (l : LeaseInstance) (caller : Address) (r t : ℕ)
    → lookup id s.leases ≡ some l
    → l.early_termination_fee_bps ≡ none
    → l.fixed_penalty ≡ none
    → self ≢ l.tenant
    → self ≢ l.landlord
    → l.tenant ≢ l.landlord
    → l.debt ≡ pos 0
    → l.rent_per_sec ≡ pos r
    → deposits l ≡ pos t
    → env.timestamp ≤ l.end_date
    → (l.end_date - env.timestamp) * r * 1000 < half_128
    → t < half_128
    → (simulate_termination id env.timestamp s
        ≡ (ok (result t (pos (least (tenth (l.end_date - env.timestamp) r) t))), s))
      × After
          (λ _ d. AllReturned world l t s.tokens d.tokens)
          s
          (execute_early_termination world self env id caller)
unfolding simulate_termination
simulate_termination-execute_early_termination world self env s id l caller r t found no_fee
      no_fixed st sl tl debt rate total time small few =
    let none_due = payout-none env l t no_fee no_fixed total in
    (
      run-bind _ _ (load-run s id l found)
          ∙ simulate_lease-run env.timestamp s l r t debt rate total time small few,
      After-map
          (λ _ d e. (
            e.paid.to_tenant
                ∙ ap (λ n. world.token_host.balance s.tokens l.payment_token l.tenant + n)
                    (all_left none_due),
            omega (arith, e.paid.to_landlord, ap pos_part none_due),
          ))
          (execute_early_termination-EndedEarly world self env s id l found caller st sl tl),
    )
  where
    all_left : payout_of env l ≡ pos 0 → pos_part (deposits l -ℤ payout_of env l) ≡ t
    all_left none_due = rw (none_due, total) (ap pos_part (-ℤ_pos t 0 (omega arith)) ∙ omega arith)
