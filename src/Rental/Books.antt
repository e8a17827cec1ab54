-- ===== src/Rental/Books.antt =====
-- contracts/leaseflow_contracts/src/lib.rs: the books of a lease: what was paid, by whom, what was
-- withdrawn, and the late fees.
use lease_flow_protocol_cont.Base.{
  ℕ, zero, suc, neg_ℕ, neg_part, ◌+◌, ◌-◌, ◌*◌, ◌≤◌, ◌≡◌, refl, arith, Bool, false, Option, none,
  some, [], Map, lookup, lookup-insert_self, lookup-insert_ne, insert, All, All-insert, All-erase,
  All-map, erase, All-lookup, IsSorted, insert-IsSorted, sum, sum-insert, sum-insert_new, get_or,
  inl, inr, Option-cases, if◌then◌else◌, ℤ, pos, negsuc, pos_part, ◌≤ℤ◌, ◌+ℤ◌, ◌*ℤ◌, int_laws,
  neg_part_zero,
}
use native.Mathlib.Decide.{ℕ_discrete}
use lease_flow_protocol_cont.Rental.LeaseFlags
use lease_flow_protocol_cont.Rental.LeaseFlags.{has_flag}
use lease_flow_protocol_cont.Rental.Types.{dao_arbitration, LeaseInstance, FallbackHierarchy}
use lease_flow_protocol_cont.Rental.Store.{is_status, RentalStore, insert2, lookup2}

-- The fee of a lease that is `seconds` late, with the flat fee if it is charged.
abbrev pub late_charge : Bool → ℤ → ℤ → ℕ → ℤ
late_charge flat_applied late_fee_flat late_fee_per_sec seconds =
    (if flat_applied then late_fee_flat else pos 0) +ℤ pos seconds *ℤ late_fee_per_sec

pub record Balanced (rent_paid cumulative_payments rent_withdrawn withheld_rent debt : ℤ)
    (charge : ℤ) (arbitrated : Bool) (got : ℕ) : Type 0 where
  pub recorded : cumulative_payments ≡ rent_paid
  pub released : withheld_rent ≡ pos 0
  pub started : pos 0 ≤ℤ rent_withdrawn
  pub covered : rent_withdrawn ≤ℤ rent_paid
  pub charged : debt ≡ charge
  pub bounded : rent_paid ≤ℤ pos got
  pub unarbitrated : arbitrated ≡ false

abbrev pub charge_of : LeaseInstance → ℤ
charge_of l =
    late_charge (has_flag LeaseFlags.flat_fee_applied l.flags) l.late_fee_flat l.late_fee_per_sec
      l.seconds_late_charged

-- What the payers of a lease have paid.
abbrev pub collected : ℕ → Map (Map ℤ) → ℕ
collected lease_id balances = sum pos_part (get_or (lookup lease_id balances) [])

abbrev pub IsCounted : Map ℤ → Type 0
IsCounted m = IsSorted m × All (λ payer b. pos 0 ≤ℤ b) m

-- Both counts of the rent agree, nothing is withheld, no more is withdrawn than was paid and no more
-- was paid than its payers have paid, the debt is the late fee of the seconds that were charged,
-- and no arbitration was triggered.
abbrev pub IsCollected : Map (Map ℤ) → ℕ → LeaseInstance → Type 0
IsCollected balances lease_id l =
    Balanced l.rent_paid l.cumulative_payments l.rent_withdrawn l.withheld_rent l.debt (charge_of l)
      (is_status l.status dao_arbitration) (collected lease_id balances)

-- A status that is no arbitration.
pub restated :
    {paid cumulative withdrawn withheld debt charge : ℤ} {arbitrated : Bool} {got : ℕ}
    → Balanced paid cumulative withdrawn withheld debt charge arbitrated got
    → Balanced paid cumulative withdrawn withheld debt charge false got
restated k = record {
  recorded = k.recorded;
  released = k.released;
  started = k.started;
  covered = k.covered;
  charged = k.charged;
  bounded = k.bounded;
  unarbitrated = refl;
}

abbrev pub is_active : Option FallbackHierarchy → Bool
is_active none = false
is_active (some hierarchy) = hierarchy.hierarchy_active

pub record Consistent (leases : Map LeaseInstance) (balances : Map (Map ℤ)) (locked : Bool)
    (hierarchy : Option FallbackHierarchy) : Type 0 where
  pub books : All (IsCollected balances) leases
  pub counts : All (λ lease_id m. IsCounted m) balances
  pub unlocked : locked ≡ false
  pub inactive : is_active hierarchy ≡ false

abbrev pub IsConsistent : {W : Type 0} → RentalStore W → Type 0
IsConsistent s = Consistent s.leases s.roommate_balances s.locked s.fallback_hierarchy

neg_ℕ_parts : (n : ℕ) → (pos_part (neg_ℕ n) ≡ 0) × (neg_part (neg_ℕ n) ≡ n)
neg_ℕ_parts zero = (refl, refl)
neg_ℕ_parts (suc n) = (refl, refl)

-- The fee of a time is the fee of a part of it and of the rest.
pub late_fee_split : (a b : ℕ) (fee : ℤ) → a ≤ b → pos a *ℤ fee +ℤ pos (b - a) *ℤ fee ≡ pos b *ℤ fee
late_fee_split a b (pos n) h =
    let split : b * n ≡ a * n + (b - a) * n = grind arith in omega (int_laws, split)
late_fee_split a b (negsuc n) h =
    let split : b * suc n ≡ a * suc n + (b - a) * suc n = grind arith in
    omega (
      int_laws,
      split,
      neg_ℕ_parts (a * suc n),
      neg_ℕ_parts ((b - a) * suc n),
      neg_ℕ_parts (b * suc n),
    )

IsCounted-inner :
    (id : ℕ) (m : Map (Map ℤ)) → All (λ i b. IsCounted b) m → IsCounted (get_or (lookup id m) [])
IsCounted-inner id m h = elim (Option-cases (lookup id m)) [
  | inl e ↦ rw e (tt, tt)
  | inr (b, e) ↦ rw e (All-lookup (λ i b. IsCounted b) id m h e)
]

-- A payment over what the payer had.
IsCounted-over :
    (payer units : ℕ) (old : ℤ) (m : Map ℤ)
    → IsCounted m
    → pos 0 ≤ℤ old
    → sum pos_part (insert payer (old +ℤ pos units) m) + pos_part old
      ≡ sum pos_part m + pos_part (old +ℤ pos units)
    → IsCounted (insert payer (old +ℤ pos units) m)
      × (sum pos_part (insert payer (old +ℤ pos units) m) ≡ sum pos_part m + units)
IsCounted-over payer units old m h least e =
    let new : pos 0 ≤ℤ old +ℤ pos units = omega (int_laws, least) in
    let grown = neg_part_zero (old +ℤ pos units) new in
    let before = neg_part_zero old least in
    (
      (
        insert-IsSorted payer (old +ℤ pos units) m h.0,
        All-insert (λ p b. pos 0 ≤ℤ b) payer (old +ℤ pos units) m h.1 new,
      ),
      omega (int_laws, grown, before, e),
    )

IsCounted-insert :
    (payer : ℕ) (units : ℕ) (m : Map ℤ)
    → IsCounted m
    → let new : ℤ = get_or (lookup payer m) (pos 0) +ℤ pos units in
      IsCounted (insert payer new m) × (sum pos_part (insert payer new m) ≡ sum pos_part m + units)
IsCounted-insert payer units m h = elim (Option-cases (lookup payer m)) [
  | inl e ↦ rw e (
      IsCounted-over payer units (pos 0) m h (omega arith)
        (omega (arith, sum-insert_new pos_part payer (pos 0 +ℤ pos units) m e)))
  | inr (b, e) ↦ rw e (
      IsCounted-over payer units b m h (All-lookup (λ p b. pos 0 ≤ℤ b) payer m h.1 e)
        (sum-insert pos_part payer (b +ℤ pos units) b m h.0 e))
]

abbrev row : ℕ → ℕ → ℕ → Map (Map ℤ) → Map ℤ
row lease_id payer units balances =
    insert payer (get_or (lookup2 lease_id payer balances) (pos 0) +ℤ pos units)
      (get_or (lookup lease_id balances) [])

-- The books after a payment of the payer for the lease.
abbrev pub credited : ℕ → ℕ → ℕ → Map (Map ℤ) → Map (Map ℤ)
credited lease_id payer units balances =
    insert2 lease_id payer (get_or (lookup2 lease_id payer balances) (pos 0) +ℤ pos units) balances

module _ (lease_id payer units : ℕ) (balances : Map (Map ℤ))
    (h : All (λ i b. IsCounted b) balances) where
  pub credited-IsCounted : All (λ i b. IsCounted b) (credited lease_id payer units balances)
  credited-IsCounted =
      All-insert (λ i b. IsCounted b) lease_id _ balances h
        (IsCounted-insert payer units _ (IsCounted-inner lease_id balances h)).0

  pub collected-credited :
      collected lease_id (credited lease_id payer units balances)
      ≡ collected lease_id balances + units
  collected-credited =
      rw (lookup-insert_self lease_id (row lease_id payer units balances) balances)
        (IsCounted-insert payer units _ (IsCounted-inner lease_id balances h)).1

  pub collected-credited_le :
      (id : ℕ) → collected id balances ≤ collected id (credited lease_id payer units balances)
  collected-credited_le id = elim (ℕ_discrete id lease_id) [
    | yes same ↦ rw same (omega (arith, collected-credited))
    | no other ↦
        rw (lookup-insert_ne id lease_id (row lease_id payer units balances) balances other)
          (omega arith)
  ]

module _ {leases : Map LeaseInstance} {balances : Map (Map ℤ)} {locked : Bool}
    {hierarchy : Option FallbackHierarchy} (h : Consistent leases balances locked hierarchy)
    (lease_id : ℕ) where
  pub IsCollected-of :
      {l : LeaseInstance} → lookup lease_id leases ≡ some l → IsCollected balances lease_id l
  IsCollected-of found = All-lookup (IsCollected balances) lease_id leases h.books found

  -- A lease is written, and paid no more than was collected for it.
  pub save-Consistent :
      (l : LeaseInstance)
      → IsCollected balances lease_id l
      → Consistent (insert lease_id l leases) balances locked hierarchy
  save-Consistent l k = record {
    books = All-insert (IsCollected balances) lease_id l leases h.books k;
    counts = h.counts;
    unlocked = h.unlocked;
    inactive = h.inactive;
  }

  pub erase-Consistent : Consistent (erase lease_id leases) balances locked hierarchy
  erase-Consistent = record {
    books = All-erase (IsCollected balances) lease_id leases h.books;
    counts = h.counts;
    unlocked = h.unlocked;
    inactive = h.inactive;
  }

  pub credit-Consistent :
      (payer units : ℕ)
      → Consistent leases (credited lease_id payer units balances) locked hierarchy
  credit-Consistent payer units = record {
    books =
        All-map (IsCollected balances) (IsCollected (credited lease_id payer units balances)) leases
          (λ id l k. record {
            recorded = k.recorded;
            released = k.released;
            started = k.started;
            covered = k.covered;
            charged = k.charged;
            bounded =
                omega (
                  arith,
                  k.bounded,
                  collected-credited_le lease_id payer units balances h.counts id,
                );
            unarbitrated = k.unarbitrated;
          })
          h.books;
    counts = credited-IsCounted lease_id payer units balances h.counts;
    unlocked = h.unlocked;
    inactive = h.inactive;
  }

pub open_books :
    {leases : Map LeaseInstance} {balances : Map (Map ℤ)} {locked : Bool}
    {hierarchy : Option FallbackHierarchy}
    → Consistent leases balances locked hierarchy
    → Consistent leases balances false hierarchy
open_books h = record { books = h.books; counts = h.counts; unlocked = refl; inactive = h.inactive }
