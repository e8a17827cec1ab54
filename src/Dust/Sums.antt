-- ===== src/Dust/Sums.antt =====
-- The sums of amounts in the accounts of contracts/leaseflow_contracts/src/dust_accounting.rs.
use mathlib.Core.Path.{subst}
use lease_flow_protocol_cont.Base.{
  checked, ℕ, ◌≡◌, refl, ap, ◌∙◌, true, false, none, some, List, [], ◌∷◌, ◌++◌, ℤ, pos, ◌+ℤ◌, ◌-ℤ◌,
  ◌*ℤ◌, ◌/ℤ◌, ◌≤ℤ◌, fits, half_128, Map, All, lookup, int_laws, arith, ok, ◌>>=◌, After,
  After-found, After-or_raise, After-bind, After-pure, run-checked, pure, or_raise, eqb_ℤ, ◌==◌,
  if◌then◌else◌, Bool, parts, get_or, Bool-cases, inl, inr,
}
use lease_flow_protocol_cont.Dust.Types.{DustAccounting, Dust, calculation_overflow}
use lease_flow_protocol_cont.Dust.Calls.{
  sum_i128, amounts, expected_share, remove_first, set_first, after_recovery,
}

some_inj {ℓ} : {A : Type ℓ} {a b : A} → some a ≡ some b → a ≡ b
some_inj {a} e = ap (λ o. get_or o a) e

abbrev pub sum_ℤ : List ℤ → ℤ
sum_ℤ [] = pos 0
sum_ℤ (x ∷ xs) = x +ℤ sum_ℤ xs

-- No entry is negative.
abbrev pub IsDust : Map ℤ → Type 0
IsDust = All λ _ z. pos 0 ≤ℤ z

pub sum_nonneg : (m : Map ℤ) → IsDust m → pos 0 ≤ℤ sum_ℤ (amounts m)
sum_nonneg [] h = omega arith
sum_nonneg (e ∷ m) h = omega (int_laws, h.0, sum_nonneg m h.1)

pub sum-snoc :
    (m : Map ℤ) (id : ℕ) (z : ℤ) → sum_ℤ (amounts (m ++ (id, z) ∷ [])) ≡ sum_ℤ (amounts m) +ℤ z
sum-snoc [] id z = omega int_laws
sum-snoc (e ∷ m) id z = omega (int_laws, parts (sum-snoc m id z))

pub IsDust-snoc : (m : Map ℤ) (id : ℕ) (z : ℤ) → IsDust m → pos 0 ≤ℤ z → IsDust (m ++ (id, z) ∷ [])
IsDust-snoc [] id z h k = (k, tt)
IsDust-snoc (e ∷ m) id z h k = (h.0, IsDust-snoc m id z h.1 k)

pub checked_le : (a b : ℤ) → pos 0 ≤ℤ a → a ≤ℤ b → fits half_128 b ≡ true → fits half_128 a ≡ true
checked_le a b h k e = ground arith

pub lookup_le :
    (id : ℕ) (dust : ℤ) (m : Map ℤ) → IsDust m → lookup id m ≡ some dust → dust ≤ℤ sum_ℤ (amounts m)
lookup_le id dust [] h found = absurd cc
lookup_le id dust (e ∷ m) h found = go (id == e.0) (lookup_le id dust m h.1) found
  where
    go :
        (b : Bool)
        → (lookup id m ≡ some dust → dust ≤ℤ sum_ℤ (amounts m))
        → (if b then some e.1 else lookup id m) ≡ some dust
        → dust ≤ℤ e.1 +ℤ sum_ℤ (amounts m)
    go true rest same = omega (int_laws, parts (some_inj same), sum_nonneg m h.1)
    go false rest later = omega (int_laws, rest later, h.0)

-- Where the sum fits, so does every sum on the way.
pub sum_i128-sum :
    (sum : ℤ) (m : Map ℤ) (d : DustAccounting)
    → pos 0 ≤ℤ sum
    → IsDust m
    → fits half_128 (sum +ℤ sum_ℤ (amounts m)) ≡ true
    → sum_i128 sum (amounts m) d ≡ (ok (sum +ℤ sum_ℤ (amounts m)), d)
unfolding sum_i128 pure
sum_i128-sum sum [] d h k e = ap (λ (z : ℤ). (ok z, d)) (omega int_laws)
sum_i128-sum sum (x ∷ m) d h k e =
    run-checked _ _ _ d (
      checked_le (sum +ℤ x.1) (sum +ℤ sum_ℤ (amounts (x ∷ m))) (omega (int_laws, k.0))
        (omega (int_laws, sum_nonneg m k.1)) e)
    ∙ sum_i128-sum (sum +ℤ x.1) m d (omega (int_laws, k.0)) k.1 (rw shift e)
    ∙ ap (λ (z : ℤ). (ok z, d)) shift
  where
    shift : sum +ℤ x.1 +ℤ sum_ℤ (amounts m) ≡ sum +ℤ (x.1 +ℤ sum_ℤ (amounts m))
    shift = omega int_laws

pub sum_of :
    (m : Map ℤ) (d : DustAccounting)
    → IsDust m
    → fits half_128 (sum_ℤ (amounts m)) ≡ true
    → sum_i128 (pos 0) (amounts m) d ≡ (ok (sum_ℤ (amounts m)), d)
sum_of m d h k =
    sum_i128-sum (pos 0) m d (omega arith) h (rw from_zero k) ∙ ap (λ (z : ℤ). (ok z, d)) from_zero
  where
    from_zero : pos 0 +ℤ sum_ℤ (amounts m) ≡ sum_ℤ (amounts m)
    from_zero = omega int_laws

eqb_zero : (z : ℤ) → eqb_ℤ z (pos 0) ≡ true → z ≡ pos 0
eqb_zero z h = ground arith

module _ (id : ℕ) where
  pub sum-remove_first :
      (dust : ℤ) (m : Map ℤ)
      → lookup id m ≡ some dust
      → sum_ℤ (amounts m) ≡ dust +ℤ sum_ℤ (amounts (remove_first id m))
  sum-remove_first dust [] found = absurd cc
  sum-remove_first dust (e ∷ m) found = go (id == e.0) (sum-remove_first dust m) found
    where
      go :
          (b : Bool)
          → (lookup id m ≡ some dust
              → sum_ℤ (amounts m) ≡ dust +ℤ sum_ℤ (amounts (remove_first id m)))
          → (if b then some e.1 else lookup id m) ≡ some dust
          → e.1 +ℤ sum_ℤ (amounts m)
            ≡ dust +ℤ sum_ℤ (amounts (if b then m else e ∷ remove_first id m))
      go true rest same = ap (λ z. z +ℤ sum_ℤ (amounts m)) (some_inj same)
      go false rest later = omega (int_laws, parts (rest later))

  pub sum-set_first :
      (dust remaining : ℤ) (m : Map ℤ)
      → lookup id m ≡ some dust
      → sum_ℤ (amounts m) +ℤ remaining ≡ dust +ℤ sum_ℤ (amounts (set_first id remaining m))
  sum-set_first dust remaining [] found = absurd cc
  sum-set_first dust remaining (e ∷ m) found = go (id == e.0) (sum-set_first dust remaining m) found
    where
      go :
          (b : Bool)
          → (lookup id m ≡ some dust
              → sum_ℤ (amounts m) +ℤ remaining ≡ dust +ℤ sum_ℤ (amounts (set_first id remaining m)))
          → (if b then some e.1 else lookup id m) ≡ some dust
          → e.1 +ℤ sum_ℤ (amounts m) +ℤ remaining
            ≡ dust
              +ℤ sum_ℤ (amounts (if b then (id, remaining) ∷ m else e ∷ set_first id remaining m))
      go true rest same = omega (int_laws, parts (some_inj same))
      go false rest later = omega (int_laws, parts (rest later))

  pub IsDust-after_recovery :
      (remaining : ℤ) (m : Map ℤ)
      → pos 0 ≤ℤ remaining
      → IsDust m
      → IsDust (after_recovery id remaining m)
  IsDust-after_recovery remaining m h k = go (eqb_ℤ remaining (pos 0))
    where
      removed : (m : Map ℤ) → IsDust m → IsDust (remove_first id m)
      removed [] k = tt
      removed (e ∷ m) k = ground (arith, k.0, k.1, removed m k.1)

      set : (m : Map ℤ) → IsDust m → IsDust (set_first id remaining m)
      set [] k = tt
      set (e ∷ m) k = ground (arith, h, k.0, k.1, set m k.1)

      go : (b : Bool) → IsDust (if b then remove_first id m else set_first id remaining m)
      go true = removed m k
      go false = set m k

  -- Recovery of `amount` from an entry takes it from the sum.
  pub sum-after_recovery :
      (amount dust : ℤ) (m : Map ℤ)
      → lookup id m ≡ some dust
      → sum_ℤ (amounts m) -ℤ amount ≡ sum_ℤ (amounts (after_recovery id (dust -ℤ amount) m))
  sum-after_recovery amount dust m found = elim (Bool-cases (eqb_ℤ (dust -ℤ amount) (pos 0))) [
    | inl zero_left ↦
        let all : dust -ℤ amount ≡ pos 0 = eqb_zero _ zero_left in
        rw zero_left omega (int_laws, parts all, parts (sum-remove_first dust m found))
    | inr some_left ↦
        rw some_left omega (int_laws, parts (sum-set_first dust (dust -ℤ amount) m found))
  ]

module _ {B : Type 0} {Q : B → DustAccounting → Type 0} {d : DustAccounting} where
  pub After-safe :
      (z : ℤ) (f : ℤ → Dust B)
      → (fits half_128 z ≡ true → After Q d (f z))
      → After Q d (or_raise (checked z) calculation_overflow >>= f)
  After-safe z f h = After-found (checked z) _ f (go (fits half_128 z) h)
    where
      go :
          (b : Bool)
          → (b ≡ true → After Q d (f z))
          → (a : ℤ) → (if b then some z else none) ≡ some a
          → After Q d (f a)
      go true k a e = subst (λ w. After Q d (f w)) (some_inj e) (k refl)
      go false k a e = absurd cc

module _ {B : Type 0} {Q : B → DustAccounting → Type 0} {d : DustAccounting} where
  pub After-expected :
      (total : ℤ) (bps : ℕ) (f : ℤ → Dust B)
      → After Q d (f (total *ℤ pos bps /ℤ pos 10000))
      → After Q d (expected_share total bps >>= f)
  After-expected total bps f h =
      After-bind (expected_share total bps) f (After-safe (total *ℤ pos bps) _ λ _. After-pure _ h)

module _ {Q : ℤ → DustAccounting → Type 0} {d : DustAccounting} where
  pub After-safe_last :
      (z : ℤ)
      → (fits half_128 z ≡ true → Q z d)
      → After Q d (or_raise (checked z) calculation_overflow)
  After-safe_last z h = After-or_raise (checked z) _ (go (fits half_128 z) h)
    where
      go : (b : Bool) → (b ≡ true → Q z d) → (a : ℤ) → (if b then some z else none) ≡ some a → Q a d
      go true k a e = subst (λ w. Q w d) (some_inj e) (k refl)
      go false k a e = absurd cc
