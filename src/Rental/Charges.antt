-- ===== src/Rental/Charges.antt =====
-- contracts/leaseflow_contracts/src/lib.rs: what `check_tenant_default` charges, as a formula of the
-- time.
use lease_flow_protocol_cont.Base.{
  ℕ, ◌-◌, ◌≡◌, refl, ap, ◌∙◌, arith, Bool, true, false, ◌||◌, some, lookup, lookup-insert_self, ltb,
  if◌then◌else◌, ℤ, pos, ◌+ℤ◌, ◌*ℤ◌, int_laws, parts, Env, ◌>>=◌, inl, inr, Bool-cases, After,
  After-bind, After-branch, After-checked, After-modify, After-modified, After-pure,
}
use mathlib.Core.Path.{subst}
use lease_flow_protocol_cont.Rental.LeaseFlags
use lease_flow_protocol_cont.Rental.LeaseFlags.{has_flag, set_flag}
use lease_flow_protocol_cont.Rental.Types.{LeaseInstance}
use lease_flow_protocol_cont.Rental.Store.{RentalStore, Rental}
use lease_flow_protocol_cont.Rental.Maintenance.{
  charge_flat_fee, charge_seconds, charge_late_fees, unpaid_rent, check_tenant_default,
}
use lease_flow_protocol_cont.Rental.Books.{
  IsConsistent, IsCollected-of, late_charge, late_fee_split, charge_of,
}
use lease_flow_protocol_cont.Rental.Rules.{After-loaded}

abbrev pub later : ℕ → ℕ → ℕ
later a b = if ltb a b then b else a

flat_if : Bool → LeaseInstance → LeaseInstance
flat_if true l = l
flat_if false l = record l {
  debt = l.debt +ℤ l.late_fee_flat;
  flags = set_flag LeaseFlags.flat_fee_applied l.flags;
}

-- The lease with the flat fee.
flat_of : LeaseInstance → LeaseInstance
flat_of l = flat_if (has_flag LeaseFlags.flat_fee_applied l.flags) l

seconds_if : Bool → ℕ → LeaseInstance → LeaseInstance
seconds_if false n l = l
seconds_if true n l = record l {
  debt = l.debt +ℤ pos (n - l.seconds_late_charged) *ℤ l.late_fee_per_sec;
  seconds_late_charged = n;
}

-- The lease with the fee of the seconds up to `n`.
seconds_of : ℕ → LeaseInstance → LeaseInstance
seconds_of n l = seconds_if (ltb l.seconds_late_charged n) n l

flat_of-debt :
    (l : LeaseInstance)
    → l.debt ≡ charge_of l
    → (flat_of l).debt ≡ late_charge true l.late_fee_flat l.late_fee_per_sec l.seconds_late_charged
unfolding flat_of flat_if
flat_of-debt l e = elim (Bool-cases (has_flag LeaseFlags.flat_fee_applied l.flags)) [
  | inl old ↦ rw old (rw old at e)
  | inr new ↦ let before = rw new at e in rw new (omega (int_laws, parts before))
]

flat_of-fields :
    (l : LeaseInstance)
    → ((flat_of l).seconds_late_charged ≡ l.seconds_late_charged)
      × ((flat_of l).late_fee_per_sec ≡ l.late_fee_per_sec)
      × ((flat_of l).rent_paid ≡ l.rent_paid)
unfolding flat_of flat_if
flat_of-fields l = elim (Bool-cases (has_flag LeaseFlags.flat_fee_applied l.flags)) [
  | inl old ↦ rw old (refl, refl, refl)
  | inr new ↦ rw new (refl, refl, refl)
]

seconds_of-debt :
    (n : ℕ) (l : LeaseInstance) (flat fee : ℤ) (charged : ℕ)
    → l.seconds_late_charged ≡ charged
    → l.late_fee_per_sec ≡ fee
    → l.debt ≡ late_charge true flat fee charged
    → ((seconds_of n l).debt ≡ late_charge true flat fee (later charged n))
      × ((seconds_of n l).seconds_late_charged ≡ later charged n)
unfolding seconds_of seconds_if
seconds_of-debt n l flat fee charged a b e = elim (Bool-cases (ltb charged n)) [
  | inl more ↦
      let split = late_fee_split charged n fee (ground arith) in
      let here : ltb l.seconds_late_charged n ≡ true = rw a more in
      rw (here, more) (rw (a, b) (omega (int_laws, parts e, parts split)), refl)
  | inr same ↦ let here : ltb l.seconds_late_charged n ≡ false = rw a same in rw (here, same) (e, a)
]

-- `l` with the debt, the charged seconds and the flags of `m`.
abbrev pub recharged : LeaseInstance → LeaseInstance → LeaseInstance
recharged l m = record l {
  debt = m.debt;
  seconds_late_charged = m.seconds_late_charged;
  flags = m.flags;
}

recharged_same :
    (n : ℕ) (l : LeaseInstance) → seconds_of n (flat_of l) ≡ recharged l (seconds_of n (flat_of l))
unfolding flat_of flat_if seconds_of seconds_if
recharged_same n l = elim (Bool-cases (has_flag LeaseFlags.flat_fee_applied l.flags)) [
  | inl old ↦ elim (Bool-cases (ltb l.seconds_late_charged n)) [
    | inl more ↦ rw (old, more) refl
    | inr same ↦ rw (old, same) refl
  ]
  | inr new ↦ elim (Bool-cases (ltb l.seconds_late_charged n)) [
    | inl more ↦ rw (new, more) refl
    | inr same ↦ rw (new, same) refl
  ]
]

pub record Charged {W : Type 0} (env : Env) (id : ℕ) (l : LeaseInstance) (total : ℤ)
    (d : RentalStore W) : Type 0 where
  pub charged : LeaseInstance
  pub stored : lookup id d.leases ≡ some charged
  pub seconds :
      charged.seconds_late_charged
      ≡ later l.seconds_late_charged (env.timestamp - l.grace_period_end)
  pub debt :
      charged.debt
      ≡ late_charge
          (has_flag LeaseFlags.flat_fee_applied l.flags || ltb l.grace_period_end env.timestamp)
          l.late_fee_flat
          l.late_fee_per_sec
          (later l.seconds_late_charged (env.timestamp - l.grace_period_end))
  pub rest : charged ≡ recharged l charged
  pub whole : total ≡ unpaid_rent env l +ℤ charged.debt

module _ {W A : Type 0} {Q : A → RentalStore W → Type 0} {s : RentalStore W} where
  After-flat :
      (l : LeaseInstance) (f : LeaseInstance → Rental W A)
      → After Q s (f (flat_of l))
      → After Q s (charge_flat_fee l >>= f)
  unfolding flat_of flat_if charge_flat_fee
  After-flat l f h = After-bind _ _ (
      After-branch _ _ _ (λ old. After-pure _ (subst (λ b. After Q s (f (flat_if b l))) old h))
        (λ new.
          After-checked _ _ _ λ _. After-pure _ (subst (λ b. After Q s (f (flat_if b l))) new h)))

  After-seconds :
      (n : ℕ) (l : LeaseInstance) (f : LeaseInstance → Rental W A)
      → After Q s (f (seconds_of n l))
      → After Q s (charge_seconds n l >>= f)
  unfolding seconds_of seconds_if charge_seconds
  After-seconds n l f h = After-bind _ _ (
      After-branch _ _ _
        (λ more. After-checked _ _ _ λ _.
          After-checked _ _ _
            λ _. After-pure _ (subst (λ b. After Q s (f (seconds_if b n l))) more h))
        (λ same. After-pure _ (subst (λ b. After Q s (f (seconds_if b n l))) same h)))

or_true : (b : Bool) → b || true ≡ true
or_true b = ground arith

or_false : (b : Bool) → b || false ≡ b
or_false b = ground arith

later_zero : (a b c : ℕ) → ltb b c ≡ false → later a (c - b) ≡ a
later_zero a b c e = ground arith

unpaid_same :
    (env : Env) (n : ℕ) (l : LeaseInstance)
    → unpaid_rent env (seconds_of n (flat_of l)) ≡ unpaid_rent env l
unpaid_same env n l = ap (unpaid_rent env) (recharged_same n l)

module _ {W : Type 0} (env : Env) (s : RentalStore W) (h : IsConsistent s) (id : ℕ)
    (l : LeaseInstance) (found : lookup id s.leases ≡ some l) where
  late-Charged :
      {d : RentalStore W} (total : ℤ)
      → ltb l.grace_period_end env.timestamp ≡ true
      → let after : LeaseInstance = seconds_of (env.timestamp - l.grace_period_end) (flat_of l) in
        lookup id d.leases ≡ some after
        → total ≡ unpaid_rent env after +ℤ after.debt
        → Charged env id l total d
  late-Charged total past stored whole =
      let k = IsCollected-of h id found in
      let (same, fee, _) = flat_of-fields l in
      let (debt, seconds) =
        seconds_of-debt (env.timestamp - l.grace_period_end) (flat_of l) l.late_fee_flat
          l.late_fee_per_sec l.seconds_late_charged same fee (flat_of-debt l k.charged) in
      record {
        charged = seconds_of (env.timestamp - l.grace_period_end) (flat_of l);
        stored = stored;
        seconds = seconds;
        debt = rw (past, or_true (has_flag LeaseFlags.flat_fee_applied l.flags)) debt;
        rest = recharged_same (env.timestamp - l.grace_period_end) l;
        whole =
            whole
            ∙ ap (λ z. z +ℤ (seconds_of (env.timestamp - l.grace_period_end) (flat_of l)).debt)
                (unpaid_same env (env.timestamp - l.grace_period_end) l);
      }

  early-Charged :
      {d : RentalStore W} (total : ℤ)
      → ltb l.grace_period_end env.timestamp ≡ false
      → lookup id d.leases ≡ some l
      → total ≡ unpaid_rent env l +ℤ l.debt
      → Charged env id l total d
  early-Charged total early stored whole =
      let k = IsCollected-of h id found in
      let none_more = later_zero l.seconds_late_charged l.grace_period_end env.timestamp early in
      record {
        charged = l;
        stored = stored;
        seconds = rw none_more refl;
        debt =
            rw (none_more, early, or_false (has_flag LeaseFlags.flat_fee_applied l.flags))
              k.charged;
        rest = refl;
        whole = whole;
      }

  -- Of a stored lease in consistent books: a default check that succeeds stores the lease with a
  -- debt that depends on the time alone and neither on the checks before it nor on a pause, the
  -- flat fee if the grace period was over at this or an earlier check, and the fee per second for
  -- all seconds from the end of the grace period to the last such check; of the rest of the lease
  -- only the flags may change; and it returns that debt with the unpaid rent.
  pub check_tenant_default-Charged :
      After (λ total d. Charged env id l total d) s (check_tenant_default env id)
  unfolding check_tenant_default charge_late_fees
  check_tenant_default-Charged = After-loaded id l _ found (
      After-bind _ _ (
        After-branch _ _ _
          (λ past. After-flat l _ (
            After-seconds _ (flat_of l) _ (
              After-modified _ _ (
                After-pure _ (
                  After-checked _ _ _ λ _. After-bind _ _ (
                    After-branch _ _ _
                      (λ _. After-modify _ (
                        After-modified _ _ (
                          After-pure _
                            (late-Charged _ past (lookup-insert_self id _ s.leases) refl))))
                      (λ _. After-pure _ (
                        After-modified _ _ (
                          After-pure _
                            (late-Charged _ past (lookup-insert_self id _ s.leases) refl))))))))))
          (λ early. After-pure _ (
            After-checked _ _ _ λ _. After-bind _ _ (
              After-branch _ _ _
                (λ _. After-modify _ (
                  After-modified _ _
                    (After-pure _ (early-Charged _ early (lookup-insert_self id _ s.leases) refl))))
                (λ _. After-pure _ (
                  After-modified _ _ (
                    After-pure _
                      (early-Charged _ early (lookup-insert_self id _ s.leases) refl)))))))))
