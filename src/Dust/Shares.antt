-- ===== src/Dust/Shares.antt =====
-- contracts/leaseflow_contracts/src/dust_accounting.rs: the shares of the signers of a refund.
use lease_flow_protocol_cont.Base.{
  checked-pos, checked-add, run-taken, ℕ, ◌+◌, ◌-◌, ◌*◌, ◌/◌, ◌≤◌, ◌<◌, ◌≡◌, ap, ◌∙◌, true, [], ◌∷◌,
  ℤ, pos, ◌+ℤ◌, fits, half_128, Map, ok, sub_i128, -ℤ_pos, int_laws, arith, parts, mul_le, ◌>>=◌,
  pure, run-bind, run-found, run-checked,
}
use lease_flow_protocol_cont.Dust.Types.{Dust, DustAccounting}
use lease_flow_protocol_cont.Dust.Calls.{amounts, expected_share, dust_of_share, share_out}
use lease_flow_protocol_cont.Dust.Sums.{sum_ℤ, IsDust}

abbrev pub bps_sum : Map ℕ → ℕ
bps_sum [] = 0
bps_sum (ratio ∷ ratios) = ratio.1 + bps_sum ratios

-- The part of `total` that a signer's basis points stand for, rounded down; the last signer gets
-- what the others have left.
abbrev pub share_of : ℕ → ℕ → ℕ
share_of total bps = total * bps / 10000

abbrev pub shares_from : ℕ → ℕ → Map ℕ → Map ℤ
shares_from total allocated [] = []
shares_from total allocated (ratio ∷ []) = (ratio.0, pos (total - allocated)) ∷ []
shares_from total allocated (ratio ∷ next ∷ ratios) =
    (ratio.0, pos (share_of total ratio.1))
    ∷ shares_from total (allocated + share_of total ratio.1) (next ∷ ratios)

run-sub :
    {B : Type 0} (a b : ℕ) (f : ℤ → Dust B) (d : DustAccounting)
    → b ≤ a
    → a < half_128
    → (sub_i128 (pos a) (pos b) >>= f) d ≡ f (pos (a - b)) d
run-sub a b f d h l =
    run-checked _ _ f d (rw (-ℤ_pos a b h) (fit (a - b) (omega arith)))
    ∙ ap (λ z. f z d) (-ℤ_pos a b h)
  where
    fit : (n : ℕ) → n < half_128 → fits half_128 (pos n) ≡ true
    fit n h = ground arith

module _ (total : ℕ) where
  -- What is allocated leaves room for the shares that follow.
  abbrev pub HasRoom : ℕ → ℕ → Type 0
  HasRoom allocated bps = (10000 * allocated + total * bps ≤ 10000 * total) × (bps ≤ 10000)

  room_after :
      (allocated bps rest : ℕ)
      → HasRoom allocated (bps + rest)
      → HasRoom (allocated + share_of total bps) rest
  room_after allocated bps rest h = (grind (arith, h.0), omega (arith, h.1))

  pub share_le : (bps : ℕ) → bps ≤ 10000 → share_of total bps ≤ total
  share_le bps h = omega (arith, mul_le total bps 10000 h)

  pub sum-shares_from :
      (allocated : ℕ) (ratio : ℕ × ℕ) (ratios : Map ℕ)
      → HasRoom allocated (bps_sum (ratio ∷ ratios))
      → pos allocated +ℤ sum_ℤ (amounts (shares_from total allocated (ratio ∷ ratios))) ≡ pos total
  sum-shares_from allocated ratio [] h = omega (int_laws, h.0)
  sum-shares_from allocated ratio (next ∷ ratios) h =
      let rest =
        sum-shares_from (allocated + share_of total ratio.1) next ratios
          (room_after allocated ratio.1 (bps_sum (next ∷ ratios)) h) in
      omega (int_laws, parts rest)

  pub IsDust-shares_from :
      (allocated : ℕ) (ratios : Map ℕ) → IsDust (shares_from total allocated ratios)
  IsDust-shares_from allocated [] = tt
  IsDust-shares_from allocated (ratio ∷ []) = (omega arith, tt)
  IsDust-shares_from allocated (ratio ∷ next ∷ ratios) =
      (omega arith, IsDust-shares_from (allocated + share_of total ratio.1) (next ∷ ratios))

  module _ (d : DustAccounting) (small : total * 10000 < half_128) where
    pub run-expected :
        (bps : ℕ)
        → bps ≤ 10000
        → expected_share (pos total) bps d ≡ (ok (pos (share_of total bps)), d)
    unfolding pure
    run-expected bps h =
        run-found _ _ _ d (checked-pos (total * bps) (omega (arith, mul_le total bps 10000 h)))

    run-dust :
        (bps : ℕ)
        → bps ≤ 10000
        → dust_of_share (pos total) bps (pos (share_of total bps)) (pos 0) d ≡ (ok (pos 0), d)
    run-dust bps h =
        let share = share_of total bps in
        run-bind _ _ (run-expected bps h)
        ∙ run-sub share share _ d (omega arith) (omega (arith, share_le bps h))
        ∙ run-taken _ _ d (checked-add 0 (share - share) (omega arith))
        ∙ ap (λ n. (ok (pos n), d)) (omega arith)

    pub run-share_out :
        (allocated : ℕ) (ratio : ℕ × ℕ) (ratios : Map ℕ)
        → HasRoom allocated (bps_sum (ratio ∷ ratios))
        → share_out (pos total) (ratio ∷ ratios) (pos allocated) (pos 0) d
          ≡ (ok (shares_from total allocated (ratio ∷ ratios), pos 0), d)
    unfolding share_out pure
    run-share_out allocated ratio [] h =
        run-sub total allocated _ d (omega (arith, h.0)) (omega arith)
        ∙ run-found _ _ _ d (checked-add allocated (total - allocated) (omega (arith, h.0)))
    run-share_out allocated ratio (next ∷ ratios) h =
        let le : ratio.1 ≤ 10000 = omega (arith, h.1) in
        let room = room_after allocated ratio.1 (bps_sum (next ∷ ratios)) h in
        let share = share_of total ratio.1 in
        run-bind _ _ (run-expected ratio.1 le)
        ∙ run-found _ _ _ d (checked-add allocated share (omega (arith, room.0)))
        ∙ run-bind _ _ (run-dust ratio.1 le)
        ∙ run-bind _ _ (run-share_out (allocated + share) next ratios room)
