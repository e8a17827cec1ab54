-- ===== src/Rental/LeaseFlags.antt =====
-- contracts/leaseflow_contracts/src/lib.rs: the bits of a lease's `flags`.
use lease_flow_protocol_cont.Base.{
  ℕ, ◌+◌, ◌-◌, ◌/◌, ◌%◌, ◌≡◌, arith, Bool, true, false, ◌==◌, if◌then◌else◌,
}

abbrev pub active : ℕ
active = 1

abbrev pub flat_fee_applied : ℕ
flat_fee_applied = 2

abbrev pub has_pet : ℕ
has_pet = 8

abbrev pub yield_delegation_enabled : ℕ
yield_delegation_enabled = 16

-- `flags & MASK != 0`, `flags |= MASK` and `flags &= !MASK`, for a mask of a single bit.
unfoldable pub has_flag : ℕ → ℕ → Bool
has_flag mask flags = flags / mask % 2 == 1

abbrev pub set_flag : ℕ → ℕ → ℕ
set_flag mask flags = if has_flag mask flags then flags else flags + mask

abbrev pub clear_flag : ℕ → ℕ → ℕ
clear_flag mask flags = if has_flag mask flags then flags - mask else flags

pub has_flag-set_flag : (n : ℕ) → has_flag flat_fee_applied (set_flag flat_fee_applied n) ≡ true
unfolding has_flag
has_flag-set_flag n = ground arith

pub has_flag-clear_flag : (n : ℕ) → has_flag active (clear_flag active n) ≡ false
unfolding has_flag
has_flag-clear_flag n = ground arith

-- The two bits are apart.
pub clear_active-keeps :
    (n : ℕ) → has_flag flat_fee_applied (clear_flag active n) ≡ has_flag flat_fee_applied n
unfolding has_flag
clear_active-keeps n = ground arith

pub set_flat_fee-keeps : (n : ℕ) → has_flag active (set_flag flat_fee_applied n) ≡ has_flag active n
unfolding has_flag
set_flat_fee-keeps n = ground arith
