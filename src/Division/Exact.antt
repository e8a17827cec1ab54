-- ===== src/Division/Exact.antt =====
-- contracts/leaseflow_contracts/src/division_safety.rs: the results of the divisions of natural
-- numbers, and what they add to the counts.
use native.Mathlib.Nat.{mod-lt, div-add-mod', div-le_self}
use lease_flow_protocol_cont.Base.{
  checked-pos, checked-add, checked-fits, leb_of, ℕ, ◌+◌, ◌*◌, ◌/◌, ◌%◌, ◌≤◌, ◌<◌, ◌≡◌, refl, ap,
  ◌∙◌, Bool, true, false, not, ◌||◌, inl, inr, Bool-cases, pos, ◌+ℤ◌, fits, half_128, ltb_ℤ, eqb_ℤ,
  ltb, if◌then◌else◌, ok, panic, u64_max, arith, checked, pure, modify, branch, in_int, trap,
  trap_unless, div_i128, run-bind, run-guard, run-gets, run-found, run-checked, run-then, run-else,
  run-check, run-taken, or_raise, ltb→lt,
}
use lease_flow_protocol_cont.Division.Types.{DivisionSafety, DivisionFailure, calculation_overflow}
use lease_flow_protocol_cont.Division.Calls.{
  rem_i128, check_inputs, track_remainder, verify_fixed_point_properties,
  verify_fixed_point_division_safety, verify_ceiling_properties, verify_ceiling_division_safety,
}

-- The counts after one more division.
abbrev pub counted : ℕ → DivisionSafety → DivisionSafety
counted remainder d = record d {
  division_dust = d.division_dust +ℤ pos remainder;
  division_count = d.division_count + 1;
}

-- The counts can take the remainder.
abbrev pub HasSpace : ℕ → DivisionSafety → Type 0
HasSpace remainder d =
    (fits half_128 (d.division_dust +ℤ pos remainder) ≡ true) × (d.division_count < u64_max)

-- The quotient rounded up.
abbrev pub ceiling : ℕ → ℕ → ℕ
ceiling n m = if ltb 0 (n % m) then n / m + 1 else n / m

run-track_remainder :
    (remainder : ℕ) (d : DivisionSafety)
    → HasSpace remainder d
    → track_remainder (pos remainder) d ≡ (ok tt, counted remainder d)
unfolding track_remainder modify
run-track_remainder remainder d h =
    run-gets _ _ d
    ∙ run-found _ _ _ d (checked-fits (d.division_dust +ℤ pos remainder) h.0)
    ∙ run-bind _ _ refl
    ∙ run-gets _ _ _
    ∙ run-checked _ _ _ _ (leb_of _ _ (omega (arith, h.1)))

module _ (n m : ℕ) (d : DivisionSafety) (positive : 0 < m) (small : n + m < half_128) where
  run-check_inputs : check_inputs (pos n) (pos m) d ≡ (ok tt, d)
  unfolding check_inputs
  run-check_inputs = run-guard _ _ _ d (ground arith) ∙ run-check _ _ d ∙ rw signs refl
    where
      signs : ltb_ℤ (pos n) (pos 0) || ltb_ℤ (pos m) (pos 0) ≡ false
      signs = ground arith

  run-quotient :
      (q : ℕ)
      → q < half_128
      → branch {E = DivisionFailure} (eqb_ℤ (pos m) (pos 0)) trap (in_int half_128 (pos q)) d
        ≡ (ok (pos q), d)
  unfolding trap_unless
  run-quotient q h =
      run-else _ _ _ d nonzero ∙ ap (λ (b : Bool). ((if b then ok (pos q) else panic), d)) (fit q h)
    where
      nonzero : eqb_ℤ (pos m) (pos 0) ≡ false
      nonzero = ground arith

      fit : (q : ℕ) → q < half_128 → fits half_128 (pos q) ≡ true
      fit q h = ground arith

  quotient_le : n / m ≤ n
  quotient_le = div-le_self n m

  rest_lt : n % m < m
  rest_lt = mod-lt n positive

  run-div : div_i128 {E = DivisionFailure} (pos n) (pos m) d ≡ (ok (pos (n / m)), d)
  run-div = run-quotient (n / m) (omega (arith, quotient_le))

  run-rem : rem_i128 (pos n) (pos m) d ≡ (ok (pos (n % m)), d)
  run-rem = run-quotient (n % m) (omega (arith, rest_lt))

  whole : n / m * m + n % m ≡ n
  whole = div-add-mod' n m

  run-fixed_point :
      verify_fixed_point_properties (pos n) (pos m) (pos (n / m)) (pos (n % m)) d ≡ (ok tt, d)
  unfolding verify_fixed_point_properties
  run-fixed_point =
      run-guard _ _ _ d (ground arith)
      ∙ run-guard _ _ _ d (ground (arith, rest_lt))
      ∙ run-found _ _ _ d (checked-pos (n / m * m) (omega (arith, whole)))
      ∙ run-found _ _ _ d (checked-add (n / m * m) (n % m) (omega (arith, whole)))
      ∙ run-check _ _ d
      ∙ rw agrees refl
    where
      agrees : not (eqb_ℤ (pos (n / m * m + n % m)) (pos n)) ≡ false
      agrees = ground (arith, whole)

  -- A division of n by m > 0, where n + m is an i128 and the counts can take the remainder, succeeds
  -- with the quotient; one more division and the remainder are counted, and nothing else changes.
  pub verify_fixed_point_division_safety_lem :
      HasSpace (n % m) d
      → verify_fixed_point_division_safety (pos n) (pos m) d ≡ (ok (pos (n / m)), counted (n % m) d)
  unfolding verify_fixed_point_division_safety pure
  verify_fixed_point_division_safety_lem space =
      run-bind _ _ run-check_inputs
      ∙ run-bind _ _ run-div
      ∙ run-bind _ _ run-rem
      ∙ run-bind _ _ run-fixed_point
      ∙ run-bind _ _ (run-track_remainder (n % m) d space)

  -- The quotient rounded up is the least number whose product with m is at least n.
  ceiling-least : (n ≤ ceiling n m * m) × (ceiling n m * m < n + m)
  ceiling-least = elim (Bool-cases (ltb 0 (n % m))) [
    | inl rest ↦ rw rest (grind (arith, whole, rest_lt, ltb→lt 0 (n % m) rest))
    | inr none_left ↦ rw none_left (grind (arith, whole, no_rest (n % m) none_left))
  ]
    where
      no_rest : (a : ℕ) → ltb 0 a ≡ false → a ≡ 0
      no_rest a h = ground arith

  run-round_up :
      branch
        (ltb_ℤ (pos 0) (pos (n % m)))
        (or_raise (checked (pos (n / m) +ℤ pos 1)) calculation_overflow)
        (pure (pos (n / m)))
        d
      ≡ (ok (pos (ceiling n m)), d)
  unfolding pure
  run-round_up = elim (Bool-cases (ltb 0 (n % m))) [
    | inl rest ↦
        run-then _ _ _ d (tested (n % m) true rest)
        ∙ run-taken _ _ d (checked-add (n / m) 1 (omega (arith, quotient_le, positive)))
        ∙ rw rest refl
    | inr none_left ↦ run-else _ _ _ d (tested (n % m) false none_left) ∙ rw none_left refl
  ]
    where
      tested : (a : ℕ) (b : Bool) → ltb 0 a ≡ b → ltb_ℤ (pos 0) (pos a) ≡ b
      tested a b h = ground arith

  run-ceiling :
      verify_ceiling_properties (pos n) (pos m) (pos (n / m)) (pos (ceiling n m)) (pos (n % m)) d
      ≡ (ok tt, d)
  unfolding verify_ceiling_properties
  run-ceiling =
      run-guard _ _ _ d (ground arith)
      ∙ run-found _ _ _ d (checked-add (n / m) 1 (omega (arith, quotient_le, positive)))
      ∙ run-guard _ _ _ d (ground arith)
      ∙ run-guard _ _ _ d (ground arith)
      ∙ run-found _ _ _ d (checked-pos (ceiling n m * m) (omega (arith, ceiling-least.1)))
      ∙ run-check _ _ d
      ∙ rw enough refl
    where
      below : (a b : ℕ) → b ≤ a → ltb_ℤ (pos a) (pos b) ≡ false
      below a b h = ground arith

      enough : ltb_ℤ (pos (ceiling n m * m)) (pos n) ≡ false
      enough = below (ceiling n m * m) n ceiling-least.0

  -- A division of n by m > 0 that rounds up, where n + m is an i128 and the counts can take the
  -- remainder, succeeds with the least number whose product with m is n or more; one more division
  -- and the remainder are counted, and nothing else changes.
  pub verify_ceiling_division_safety_lem :
      HasSpace (n % m) d
      → (verify_ceiling_division_safety (pos n) (pos m) d
          ≡ (ok (pos (ceiling n m)), counted (n % m) d))
        × (n ≤ ceiling n m * m)
        × (ceiling n m * m < n + m)
  unfolding verify_ceiling_division_safety pure
  verify_ceiling_division_safety_lem space = (
    run-bind _ _ run-check_inputs
        ∙ run-bind _ _ run-div
        ∙ run-bind _ _ run-rem
        ∙ run-bind _ _ run-round_up
        ∙ run-bind _ _ run-ceiling
        ∙ run-bind _ _ (run-track_remainder (n % m) d space),
    ceiling-least.0,
    ceiling-least.1,
  )
