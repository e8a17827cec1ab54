-- ===== src/Dust/Books.antt =====
-- contracts/leaseflow_contracts/src/dust_accounting.rs: the sum of the dust of the leases, over
-- every sequence of operations that succeed.
use mathlib.Core.Path.{subst}
use lease_flow_protocol_cont.Base.{
  ℕ, ◌+◌, ◌≡◌, refl, ap, ◌∙◌, true, false, List, [], ◌∷◌, ◌++◌, ℤ, pos, ◌-ℤ◌, ◌+ℤ◌, ◌*ℤ◌, ◌/ℤ◌,
  ◌≤ℤ◌, fits, half_128, ltb_ℤ, Map, ok, ⊤, int_laws, arith, parts, After, After-pure, After-bind,
  After-gets, After-guard, After-found, After-checked, After-branch, After-modify, After-modified,
  After-map, After-or_trap, ◌>>=◌, sym, pure, IfOk,
}
use lease_flow_protocol_cont.Dust.Types.{DustAccounting, Dust, no_dust}
use lease_flow_protocol_cont.Dust.Calls.{
  amounts, sum_bps, sum_i128, share_out, record_dust, note_dust, track_signers,
  calculate_multi_signer_dust, refuse_negative, calculate_partial_settlement_dust, recover_dust,
  reset,
}
use lease_flow_protocol_cont.Dust.Sums.{
  sum_ℤ, IsDust, sum-snoc, IsDust-snoc, sum-after_recovery, IsDust-after_recovery, After-safe,
  After-safe_last, After-expected,
}

-- The total is the sum of the dust of the leases and an i128; no entry is negative.
pub record IsBalanced (d : DustAccounting) : Type 0 where
  pub total : d.total_dust ≡ sum_ℤ (amounts d.lease_dust)
  pub bounded : fits half_128 d.total_dust ≡ true
  pub leases : IsDust d.lease_dust
  pub signers : IsDust d.signer_dust

abbrev pub Balances : {A : Type 0} → DustAccounting → Dust A → Type 0
Balances s m = After (λ _ d. IsBalanced d) s m

-- An action that leaves the accounts alone.
abbrev pub Reads : {A : Type 0} → DustAccounting → Dust A → Type 0
Reads s m = After (λ _ d. d ≡ s) s m

module _ {A B : Type 0} {Q : B → DustAccounting → Type 0} {s : DustAccounting} where
  pub after_facts :
      {P : A → Type 0} (m : Dust A) (f : A → Dust B)
      → After (λ a d. P a × (d ≡ s)) s m
      → ((a : A) → P a → After Q s (f a))
      → After Q s (m >>= f)
  after_facts m f h k =
      After-bind m f
        (After-map (λ a d facts. subst (λ d. After Q d (f a)) (sym facts.1) (k a facts.0)) h)

  pub After-Reads :
      (m : Dust A) (f : A → Dust B) → Reads s m → ((a : A) → After Q s (f a)) → After Q s (m >>= f)
  After-Reads m f h k =
      after_facts {P = λ _. Unit} m f (After-map (λ _ _ same. (tt, same)) h) (λ a _. k a)

sum_bps-Reads : (sum : ℕ) (ratios : Map ℕ) (s : DustAccounting) → Reads s (sum_bps sum ratios)
unfolding sum_bps
sum_bps-Reads sum [] s = After-pure sum refl
sum_bps-Reads sum (ratio ∷ ratios) s =
    After-checked _ _ _ λ _. sum_bps-Reads (sum + ratio.1) ratios s

sum_i128-Reads : (sum : ℤ) (xs : List ℤ) (s : DustAccounting) → Reads s (sum_i128 sum xs)
unfolding sum_i128
sum_i128-Reads sum [] s = After-pure sum refl
sum_i128-Reads sum (x ∷ xs) s = After-checked _ _ _ λ _. sum_i128-Reads (sum +ℤ x) xs s

pub refuse_negative-Reads : (xs : List ℤ) (s : DustAccounting) → Reads s (refuse_negative xs)
unfolding refuse_negative
refuse_negative-Reads [] s = After-pure tt refl
refuse_negative-Reads (x ∷ xs) s = After-guard _ _ _ λ _. refuse_negative-Reads xs s

-- A signer that is not the last gets its expected share, so that no dust is counted.
pub share_out-dust :
    (total : ℤ) (ratios : Map ℕ) (allocated dust : ℤ) (s : DustAccounting)
    → After (λ r d. (r.1 ≡ dust) × (d ≡ s)) s (share_out total ratios allocated dust)
unfolding share_out
share_out-dust total [] allocated dust s = After-pure _ (refl, refl)
share_out-dust total (ratio ∷ []) allocated dust s =
    After-checked _ _ _
      λ _. After-safe (allocated +ℤ (total -ℤ allocated)) _ λ _. After-pure _ (refl, refl)
share_out-dust total (ratio ∷ next ∷ ratios) allocated dust s =
    let share = total *ℤ pos ratio.1 /ℤ pos 10000 in
    let none_left : dust +ℤ (share -ℤ share) ≡ dust = omega int_laws in
    After-expected total ratio.1 _ (
      After-safe (allocated +ℤ share) _ λ _. After-bind _ _ (
        After-expected total ratio.1 _ (
          After-checked _ _ _ λ _. After-safe_last (dust +ℤ (share -ℤ share)) λ _. After-bind _ _ (
            After-map (λ r d same. After-pure _ (same.0 ∙ none_left, same.1))
              (share_out-dust total (next ∷ ratios) (allocated +ℤ share) (dust +ℤ (share -ℤ share))
                s)))))

module _ (s : DustAccounting) (h : IsBalanced s) where
  record_dust-Balances : (id : ℕ) (dust : ℤ) → pos 0 ≤ℤ dust → Balances s (record_dust id dust)
  unfolding record_dust
  record_dust-Balances id dust k = After-bind _ _ (
      After-gets _ (
        After-safe (s.total_dust +ℤ dust) _ λ fit. After-modified _ _ (
          After-bind _ _ (
            After-gets _ (
              After-checked _ _ _ λ _. After-modify _ (record {
                total = omega (int_laws, parts h.total, parts (sum-snoc s.lease_dust id dust));
                bounded = fit;
                leases = IsDust-snoc s.lease_dust id dust h.leases k;
                signers = h.signers;
              }))))))

  pub recover_dust-Balances : (id : ℕ) (amount : ℤ) → Balances s (recover_dust id amount)
  unfolding recover_dust
  recover_dust-Balances id amount = After-guard _ _ _ λ _. After-bind _ _ (
      After-gets _ (
        After-found _ _ _ λ dust found. After-guard _ _ _ λ covered. After-bind _ _ (
          After-gets _ (
            After-safe (s.total_dust -ℤ amount) _ λ fit. After-modified _ _ (
              After-bind _ _ (
                After-gets _ (
                  After-safe (s.dust_recovered +ℤ amount) _ λ _. After-modified _ _ (
                    After-safe (dust -ℤ amount) _ λ _. After-modify _ (record {
                      total =
                          ap (λ (z : ℤ). z -ℤ amount) h.total
                          ∙ sum-after_recovery id amount dust s.lease_dust found;
                      bounded = fit;
                      leases =
                          IsDust-after_recovery id (dust -ℤ amount) s.lease_dust
                            (omega (int_laws, nonneg_left dust amount covered)) h.leases;
                      signers = h.signers;
                    })))))))))
    where
      nonneg_left : (a b : ℤ) → ltb_ℤ a b ≡ false → b ≤ℤ a
      nonneg_left a b e = ground arith

track_signers-Balances :
    (total : ℤ) (ratios : Map ℕ) (shares : Map ℤ) (s : DustAccounting)
    → IsBalanced s
    → Balances s (track_signers total ratios shares)
unfolding track_signers note_dust
track_signers-Balances total ratios [] s h = After-pure tt h
track_signers-Balances total ratios (entry ∷ shares) s h = After-bind _ _ (
    After-or_trap _ λ bps _. After-expected total bps _ (
      After-checked _ _ _ λ _.
        let dust = total *ℤ pos bps /ℤ pos 10000 -ℤ entry.1 in
        After-bind _ _ (
          After-branch (ltb_ℤ (pos 0) dust) _ _
            (λ positive. After-modify _ (
              track_signers-Balances total ratios shares
                (record s { signer_dust = s.signer_dust ++ (entry.0, dust) ∷ [] })
                (record {
                  total = h.total;
                  bounded = h.bounded;
                  leases = h.leases;
                  signers = IsDust-snoc s.signer_dust entry.0 dust h.signers (nonneg dust positive);
                })))
            (λ _. After-pure tt (track_signers-Balances total ratios shares s h)))))
  where
    nonneg : (z : ℤ) → ltb_ℤ (pos 0) z ≡ true → pos 0 ≤ℤ z
    nonneg z e = ground arith

module _ (s : DustAccounting) (h : IsBalanced s) where
  pub calculate_multi_signer-Balances :
      (total : ℤ) (ratios : Map ℕ) (id : ℕ)
      → Balances s (calculate_multi_signer_dust total ratios id)
  unfolding calculate_multi_signer_dust
  calculate_multi_signer-Balances total ratios id = After-guard _ _ _ λ _.
      After-Reads _ _ (sum_bps-Reads 0 ratios s) λ bps. After-guard _ _ _ λ _.
        after_facts _ _ (share_out-dust total ratios (pos 0) (pos 0) s) λ split none_left.
          After-Reads _ _ (sum_i128-Reads (pos 0) (amounts split.0) s) λ actual.
            After-guard _ _ _ λ _. After-bind _ _ (
              After-map
                (λ _ d k. After-bind _ _ (
                  After-map (λ _ _ l. After-pure _ l)
                    (track_signers-Balances total ratios split.0 d k)))
                (record_dust-Balances s h id split.1 (rw none_left omega arith)))

  pub calculate_partial_settlement-Balances :
      (available : ℤ) (settlements : List ℤ) (id : ℕ)
      → Balances s (calculate_partial_settlement_dust available settlements id)
  unfolding calculate_partial_settlement_dust
  calculate_partial_settlement-Balances available settlements id = After-guard _ _ _ λ _.
      After-Reads _ _ (refuse_negative-Reads settlements s) λ _.
        After-Reads _ _ (sum_i128-Reads (pos 0) settlements s) λ settlement.
          After-guard _ _ _ λ covered. After-checked _ _ _ λ _. After-bind _ _ (
            After-map (λ _ _ k. After-pure _ k)
              (record_dust-Balances s h id (available -ℤ settlement)
                (omega (int_laws, covered_le settlement available covered))))
    where
      covered_le : (a b : ℤ) → ltb_ℤ b a ≡ false → a ≤ℤ b
      covered_le a b e = ground arith

pub no_dust-IsBalanced : IsBalanced no_dust
no_dust-IsBalanced = record { total = refl; bounded = refl; leases = tt; signers = tt }

pub data DustCall : Type 0 where
  splits : ℤ → Map ℕ → ℕ → DustCall
  settles : ℤ → List ℤ → ℕ → DustCall
  recovers : ℕ → ℤ → DustCall
  resets : DustCall

abbrev pub discard : {A : Type 0} → Dust A → Dust ⊤
discard m = m >>= λ _. pure tt

abbrev pub dispatch : DustCall → Dust ⊤
dispatch (splits total ratios id) = discard (calculate_multi_signer_dust total ratios id)
dispatch (settles available settlements id) =
    discard (calculate_partial_settlement_dust available settlements id)
dispatch (recovers id amount) = recover_dust id amount
dispatch resets = reset

-- The states that operations without a failure reach.
pub data Reach : DustAccounting → Type 0 where
  start : Reach no_dust
  next : {s d : DustAccounting} (c : DustCall) → Reach s → dispatch c s ≡ (ok tt, d) → Reach d

discard-Balances :
    {A : Type 0} (s : DustAccounting) (m : Dust A) → Balances s m → Balances s (discard m)
discard-Balances s m h = After-bind _ _ (After-map (λ _ _ k. After-pure tt k) h)

dispatch-Balances : (c : DustCall) (s : DustAccounting) → IsBalanced s → Balances s (dispatch c)
unfolding reset
dispatch-Balances (splits total ratios id) s h =
    discard-Balances s _ (calculate_multi_signer-Balances s h total ratios id)
dispatch-Balances (settles available settlements id) s h =
    discard-Balances s _ (calculate_partial_settlement-Balances s h available settlements id)
dispatch-Balances (recovers id amount) s h = recover_dust-Balances s h id amount
dispatch-Balances resets s h = After-modify _ no_dust-IsBalanced

-- In every state that operations without a failure reach from new accounts, the total dust is the
-- sum of the dust of the leases and an i128, and no lease and no signer has negative dust.
pub Reach-IsBalanced : {d : DustAccounting} → Reach d → IsBalanced d
Reach-IsBalanced start = no_dust-IsBalanced
Reach-IsBalanced (next c r run) =
    subst (IfOk λ _ d. IsBalanced d) run (dispatch-Balances c _ (Reach-IsBalanced r)).holds
