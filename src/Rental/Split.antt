-- ===== src/Rental/Split.antt =====
-- contracts/leaseflow_contracts/src/lib.rs: what `execute_early_termination` computes, as a formula.
use lease_flow_protocol_cont.Base.{
  ℕ, ◌-◌, ◌≤◌, arith, ◌&&◌, Option, none, some, ltb, if◌then◌else◌, get_or, ℤ, pos, ◌+ℤ◌, ◌-ℤ◌,
  ◌*ℤ◌, ◌/ℤ◌, min_ℤ, max_ℤ, Env, ◌>>=◌, After, After-pure, After-bind, After-checked, After-branch,
  After-if_some, After-div_i128,
}
use lease_flow_protocol_cont.Rental.Types.{LeaseInstance}
use lease_flow_protocol_cont.Rental.Store.{RentalStore, Rental}
use lease_flow_protocol_cont.Rental.Termination.{early_split, early_penalty, percentage_penalty}

-- The fee's share of the rent for the rest of the lease.
abbrev pub percentage_of : ℕ → ℕ → LeaseInstance → ℤ
percentage_of fee_bps remaining lease =
    if ltb 0 fee_bps && ltb 0 remaining
    then pos remaining *ℤ lease.rent_per_sec *ℤ pos fee_bps /ℤ pos 10000
    else pos 0

-- The share if there is no fixed penalty, the fixed penalty if there is no share, and else the more.
abbrev penalty_from : Option ℕ → Option ℤ → ℕ → LeaseInstance → ℤ
penalty_from none fixed remaining lease = get_or fixed (pos 0)
penalty_from (some fee_bps) none remaining lease = percentage_of fee_bps remaining lease
penalty_from (some fee_bps) (some fixed) remaining lease =
    max_ℤ (percentage_of fee_bps remaining lease) fixed

unfoldable pub penalty_of : ℕ → LeaseInstance → ℤ
penalty_of remaining lease =
    penalty_from lease.early_termination_fee_bps lease.fixed_penalty remaining lease

abbrev pub deposits : LeaseInstance → ℤ
deposits lease = lease.security_deposit +ℤ lease.deposit_amount

-- The penalty up to the deposits.
abbrev pub payout_of : Env → LeaseInstance → ℤ
payout_of env lease = min_ℤ (penalty_of (lease.end_date - env.timestamp) lease) (deposits lease)

module _ {W : Type 0} {s : RentalStore W} where
  percentage_penalty-rule :
      {Q : ℤ → RentalStore W → Type 0} (fee_bps remaining : ℕ) (l : LeaseInstance)
      → Q (percentage_of fee_bps remaining l) s
      → After Q s (percentage_penalty fee_bps remaining l)
  unfolding percentage_penalty
  percentage_penalty-rule {Q} fee_bps remaining l h =
      After-branch _ _ _
        (λ due. After-checked _ _ _ λ _. After-checked _ _ _ λ _.
          After-div_i128 (pos remaining *ℤ l.rent_per_sec *ℤ pos fee_bps) (pos 10000) (rw due at h))
        (λ no. After-pure _ (rw no at h))

  penalty-rule :
      {Q : ℤ → RentalStore W → Type 0} (remaining : ℕ) (l : LeaseInstance)
      → Q (penalty_of remaining l) s
      → After Q s (early_penalty remaining l)
  unfolding early_penalty penalty_of
  penalty-rule {Q} remaining l h =
      After-if_some _ _ _
        (λ fee e. After-bind _ _ (
          percentage_penalty-rule fee remaining l (
            After-if_some _ _ _ (λ fixed e'. After-pure _ (rw (e, e') at h))
              (λ e'. After-pure _ (rw (e, e') at h)))))
        (λ e. After-pure _ (rw e at h))

  pub After-early_split :
      {A : Type 0} {Q : A → RentalStore W → Type 0} (env : Env) (l : LeaseInstance)
      (f : ℤ × ℤ → Rental W A)
      → (l.start_date ≤ env.timestamp
          → env.timestamp ≤ l.end_date
          → After Q s (f (deposits l -ℤ payout_of env l, payout_of env l)))
      → After Q s (early_split env l >>= f)
  unfolding early_split
  After-early_split env l f k = After-bind _ _ (
      After-checked _ _ _ λ _. After-checked _ _ _ λ begun. After-checked _ _ _ λ left.
        After-bind _ _ (
          penalty-rule (l.end_date - env.timestamp) l (
            After-checked _ _ _
              λ _. After-checked _ _ _ λ _. After-pure _ (k (ground arith) (ground arith)))))
