-- ===== src/Rental/History.antt =====
-- contracts/leaseflow_contracts/src/lib.rs: the pages of the archived leases.
use lease_flow_protocol_cont.Base.{
  ℕ, zero, suc, ◌-◌, Option, none, some, List, [], ◌∷◌, Map, lookup, leb, ltb, ◌==◌, if◌then◌else◌,
  min, pure, gets, branch, ◌>>=◌, add_u32, sub_u64, length,
}
use lease_flow_protocol_cont.Rental.Types.{HistoricalLease, HistoricalLeasePage}
use lease_flow_protocol_cont.Rental.Store.{RentalStore, Rental}

-- The position after the first entry that is the cursor, or the number of entries.
abbrev pub position_after : ℕ → List ℕ → ℕ
position_after last_id [] = 0
position_after last_id (id ∷ ids) =
    let rest = position_after last_id ids in if id == last_id then 1 else suc rest

abbrev pub start_of : Option ℕ → List ℕ → ℕ
start_of none index = 0
start_of (some last_id) index = position_after last_id index

abbrev pub drop {ℓ} : {A : Type ℓ} → ℕ → List A → List A
drop zero xs = xs
drop (suc n) [] = []
drop (suc n) (x ∷ xs) = drop n xs

abbrev pub take {ℓ} : {A : Type ℓ} → ℕ → List A → List A
take zero xs = []
take (suc n) [] = []
take (suc n) (x ∷ xs) = x ∷ take n xs

abbrev pub get_elem? {ℓ} : {A : Type ℓ} → List A → ℕ → Option A
get_elem? [] n = none
get_elem? (x ∷ xs) zero = some x
get_elem? (x ∷ xs) (suc n) = get_elem? xs n

-- The leases that the ids name, where there is one.
abbrev pub records : Map HistoricalLease → List ℕ → List HistoricalLease
records m [] = []
records m (id ∷ ids) =
    let rest = records m ids in elim (lookup id m) [ none ↦ rest | some h ↦ h ∷ rest ]

module _ {W : Type 0} where
  unfoldable pub get_historical_leases_paginated : Option ℕ → ℕ → Rental W HistoricalLeasePage
  get_historical_leases_paginated cursor limit = do
    index ← gets (λ (s : RentalStore W). s.historical_leases_index)
    stored ← gets (λ (s : RentalStore W). s.historical_leases)
    let total = length index
    let start = start_of cursor index
    branch (leb total start) (pure (record { leases = []; next_cursor = none })) (do
      stop ← add_u32 start limit
      let end = min stop total
      let leases = records stored (take (end - start) (drop start index))
      branch (ltb end total)
          (do
            last ← sub_u64 end 1
            pure (record { leases = leases; next_cursor = get_elem? index last }))
          (pure (record { leases = leases; next_cursor = none })))
