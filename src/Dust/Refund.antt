-- ===== src/Dust/Refund.antt =====
-- contracts/leaseflow_contracts/src/dust_accounting.rs: the refund of a sum to several signers.
use mathlib.Core.Path.{subst}
use lease_flow_protocol_cont.Base.{
  leb_of, checked, ℕ, ◌+◌, ◌*◌, ◌≤◌, ◌<◌, ◌≡◌, refl, sym, ap, ◌∙◌, true, false, inl, inr,
  Bool-cases, not, some, [], ◌∷◌, ◌++◌, ℤ, pos, ◌+ℤ◌, ◌-ℤ◌, ◌≤ℤ◌, fits, half_128, ltb_ℤ, eqb_ℤ, ltb,
  Map, All, lookup, Res, ok, ◌==◌, u64_max, int_laws, arith, parts, mul_le, pure, modify, run-bind,
  run-guard, run-gets, run-found, run-checked, run-then, run-else, run-present, lt→ltb, negsuc,
}
use lease_flow_protocol_cont.Dust.Types.{DustFailure, DustAccounting, MultiSignerDustResult}
use lease_flow_protocol_cont.Dust.Calls.{
  amounts, sum_bps, record_dust, note_dust, track_signers, calculate_multi_signer_dust,
}
use lease_flow_protocol_cont.Dust.Sums.{sum_ℤ, sum_of}
use lease_flow_protocol_cont.Dust.Shares.{
  bps_sum, share_of, shares_from, HasRoom, share_le, sum-shares_from, IsDust-shares_from,
  run-expected, run-share_out,
}

-- The signer of the entry is among the ratios, and its share is a part of the total.
abbrev IsPart : ℕ → Map ℕ → ℕ → ℤ → Type 0
IsPart total ratios signer share =
    ((bps : ℕ) × (lookup signer ratios ≡ some bps) × (bps ≤ 10000))
    × (pos 0 ≤ℤ share)
    × (share ≤ℤ pos total)

lookup-some :
    (signer : ℕ) (before : Map ℕ) (ratio : ℕ × ℕ) (after : Map ℕ)
    → signer ≡ ratio.0
    → bps_sum (before ++ ratio ∷ after) ≤ 10000
    → (bps : ℕ) × (lookup signer (before ++ ratio ∷ after) ≡ some bps) × (bps ≤ 10000)
lookup-some signer [] ratio after e h = (ratio.1, ground arith, omega (arith, h))
lookup-some signer (first ∷ before) ratio after e h =
    let (bps, found, le) = lookup-some signer before ratio after e (omega (arith, h)) in
    elim (Bool-cases (signer == first.0)) [
      | inl same ↦ (first.1, rw same refl, omega (arith, h))
      | inr other ↦ (bps, rw other found, le)
    ]

bps_le :
    (before : Map ℕ) (ratio : ℕ × ℕ) (after : Map ℕ) → ratio.1 ≤ bps_sum (before ++ ratio ∷ after)
bps_le [] ratio after = omega arith
bps_le (first ∷ before) ratio after = omega (arith, bps_le before ratio after)

snoc-append :
    (before : Map ℕ) (ratio : ℕ × ℕ) (after : Map ℕ)
    → (before ++ ratio ∷ []) ++ after ≡ before ++ ratio ∷ after
snoc-append [] ratio after = refl
snoc-append (first ∷ before) ratio after = ap (λ m. first ∷ m) (snoc-append before ratio after)

shares_from-IsPart :
    (total : ℕ) (allocated : ℕ) (all before after : Map ℕ)
    → all ≡ before ++ after
    → bps_sum all ≤ 10000
    → All (IsPart total all) (shares_from total allocated after)
shares_from-IsPart total allocated all before [] e h = tt
shares_from-IsPart total allocated all before (ratio ∷ []) e h = (
  (
    subst (λ m. (bps : ℕ) × (lookup ratio.0 m ≡ some bps) × (bps ≤ 10000)) (sym e)
        (lookup-some ratio.0 before ratio [] refl (subst (λ m. bps_sum m ≤ 10000) e h)),
    omega arith,
    omega arith,
  ),
  tt,
)
shares_from-IsPart total allocated all before (ratio ∷ next ∷ ratios) e h =
    let found =
      lookup-some ratio.0 before ratio (next ∷ ratios) refl (subst (λ m. bps_sum m ≤ 10000) e h) in
    (
      (
        subst (λ m. (bps : ℕ) × (lookup ratio.0 m ≡ some bps) × (bps ≤ 10000)) (sym e) found,
        omega arith,
        omega (
          arith,
          share_le total ratio.1 (
              omega
                (arith, bps_le before ratio (next ∷ ratios), subst (λ m. bps_sum m ≤ 10000) e h)),
        ),
      ),
      shares_from-IsPart total (allocated + share_of total ratio.1) all (before ++ ratio ∷ [])
          (next ∷ ratios) (e ∙ sym (snoc-append before ratio (next ∷ ratios))) h,
    )

run-note_dust :
    (signer : ℕ) (dust : ℤ) (d : DustAccounting)
    → (d' : DustAccounting) × (note_dust signer dust d ≡ (ok tt, d'))
unfolding note_dust modify pure
run-note_dust signer dust d = elim (Bool-cases (ltb_ℤ (pos 0) dust)) [
  | inl some_dust ↦ (_, run-then _ _ _ d some_dust)
  | inr no_dust_left ↦ (_, run-else _ _ _ d no_dust_left)
]

fits-sub :
    (a n : ℕ) (b : ℤ)
    → a ≤ n
    → pos 0 ≤ℤ b
    → b ≤ℤ pos n
    → n < half_128
    → fits half_128 (pos a -ℤ b) ≡ true
unfolding ◌-ℤ◌
fits-sub a n (pos b) h low high k = ground arith
fits-sub a n (negsuc b) h low high k = absurd (omega arith)

checked-same : (z : ℤ) → fits half_128 z ≡ true → checked (z +ℤ pos 0) ≡ some z
checked-same z h = let same : z +ℤ pos 0 ≡ z = omega int_laws in rw same rw h refl

module _ (total : ℕ) (small : total * 10000 < half_128) where
  -- The rest of the loop goes on from the state that one share leaves.
  run-entry :
      (ratios : Map ℕ) (entry : ℕ × ℤ) (shares : Map ℤ) (d d' : DustAccounting) (bps : ℕ)
      → lookup entry.0 ratios ≡ some bps
      → bps ≤ 10000
      → pos 0 ≤ℤ entry.1
      → entry.1 ≤ℤ pos total
      → note_dust entry.0 (pos (share_of total bps) -ℤ entry.1) d ≡ (ok tt, d')
      → track_signers (pos total) ratios (entry ∷ shares) d
        ≡ track_signers (pos total) ratios shares d'
  unfolding track_signers
  run-entry ratios entry shares d d' bps found le low high noted =
      run-present _ _ d found
      ∙ run-bind _ _ (run-expected total d small bps le)
      ∙ run-checked _ _ _ d (
          fits-sub (share_of total bps) total entry.1 (share_le total bps le) low high
            (omega (arith, small)))
      ∙ run-bind _ _ noted

  -- The loop over the shares ends without a failure.
  run-track_signers :
      (ratios : Map ℕ) (shares : Map ℤ) (d : DustAccounting)
      → All (IsPart total ratios) shares
      → (after : DustAccounting) × (track_signers (pos total) ratios shares d ≡ (ok tt, after))
  unfolding track_signers pure
  run-track_signers ratios [] d h = (d, refl)
  run-track_signers ratios (entry ∷ shares) d h =
      let ((bps, found, le), low, high) = h.0 in
      let (d', noted) = run-note_dust entry.0 (pos (share_of total bps) -ℤ entry.1) d in
      let (after, run) = run-track_signers ratios shares d' h.1 in
      (after, run-entry ratios entry shares d d' bps found le low high noted ∙ run)

  run-record_dust :
      (id : ℕ) (d : DustAccounting)
      → fits half_128 d.total_dust ≡ true
      → d.dust_operations < u64_max
      → (after : DustAccounting) × (record_dust id (pos 0) d ≡ (ok tt, after))
  unfolding record_dust modify
  run-record_dust id d fit count = (
    _,
    run-gets _ _ d
        ∙ run-found _ _ _ d (checked-same d.total_dust fit)
        ∙ run-bind _ _ refl
        ∙ run-gets _ _ _
        ∙ run-checked _ _ _ _ (leb_of _ _ (omega (arith, count))),
  )

run-sum_bps :
    (sum : ℕ) (ratios : Map ℕ) (d : DustAccounting)
    → sum + bps_sum ratios ≤ 10000
    → sum_bps sum ratios d ≡ (ok (sum + bps_sum ratios), d)
unfolding sum_bps pure
run-sum_bps sum [] d h = ap (λ n. (ok n, d)) (omega arith)
run-sum_bps sum (ratio ∷ ratios) d h =
    run-checked _ _ _ d (leb_of _ _ (omega (arith, h)))
    ∙ run-sum_bps (sum + ratio.1) ratios d (omega (arith, h))
    ∙ ap (λ n. (ok n, d)) (omega arith)

-- A refund of `total`, where `total * 10000` is an i128, to at least one signer, whose basis points
-- add up to no more than 10000, succeeds in accounts with an i128 as their total and a count of
-- operations that can grow: each signer but the last gets its part rounded down, the last what is
-- left, no dust is counted, and the shares add up to the total.
pub calculate_multi_signer_dust_lem :
    (d : DustAccounting) (total : ℕ) (ratio : ℕ × ℕ) (ratios : Map ℕ) (id : ℕ)
    → total * 10000 < half_128
    → bps_sum (ratio ∷ ratios) ≤ 10000
    → fits half_128 d.total_dust ≡ true
    → d.dust_operations < u64_max
    → ((calculate_multi_signer_dust (pos total) (ratio ∷ ratios) id d).0
        ≡ ok (record {
          individual_shares = shares_from total 0 (ratio ∷ ratios);
          dust_amount = pos 0;
          lease_id = id;
          verification_passed = true;
        }))
      × (sum_ℤ (amounts (shares_from total 0 (ratio ∷ ratios))) ≡ pos total)
unfolding calculate_multi_signer_dust pure
calculate_multi_signer_dust_lem d total ratio ratios id small bps fit count =
    let shares = shares_from total 0 (ratio ∷ ratios) in
    let room : HasRoom total 0 (bps_sum (ratio ∷ ratios)) =
      (omega (arith, mul_le total (bps_sum (ratio ∷ ratios)) 10000 bps), bps) in
    let add_up : sum_ℤ (amounts shares) ≡ pos total =
      omega (int_laws, parts (sum-shares_from total 0 ratio ratios room)) in
    let (d1, recorded) = run-record_dust total small id d fit count in
    let (d2, tracked) =
      run-track_signers total small (ratio ∷ ratios) shares d1
        (shares_from-IsPart total 0 (ratio ∷ ratios) [] (ratio ∷ ratios) refl bps) in
    (
      ap (λ (r : Res DustFailure MultiSignerDustResult × DustAccounting). r.0)
          (run-guard _ _ _ d (positive total)
            ∙ run-bind _ _ (run-sum_bps 0 (ratio ∷ ratios) d (omega (arith, bps)))
            ∙ run-guard _ _ _ d (within (0 + bps_sum (ratio ∷ ratios)) (omega (arith, bps)))
            ∙ run-bind _ _ (run-share_out total d small 0 ratio ratios room)
            ∙ run-bind _ _ (
                sum_of shares d (IsDust-shares_from total 0 (ratio ∷ ratios))
                  (rw add_up fits_total))
            ∙ run-guard _ _ _ d (agrees _ _ add_up)
            ∙ run-bind _ _ recorded
            ∙ run-bind _ _ tracked),
      add_up,
    )
  where
    positive : (n : ℕ) → ltb_ℤ (pos n) (pos 0) ≡ false
    positive n = ground arith

    within : (n : ℕ) → n ≤ 10000 → ltb 10000 n ≡ false
    within n h = ground arith

    fits_total : fits half_128 (pos total) ≡ true
    fits_total = lt→ltb total half_128 (omega (arith, small))

    agrees : (a b : ℤ) → a ≡ b → not (eqb_ℤ a b) ≡ false
    agrees a b e = ground arith
