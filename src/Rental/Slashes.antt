-- ===== src/Rental/Slashes.antt =====
-- contracts/leaseflow_contracts/src/lib.rs: what an oracle's slash takes and pays, and that its
-- payload is used once.
use lease_flow_protocol_cont.Base.{
  ℕ, ◌-◌, ◌*◌, ◌/◌, mul_le, ◌≡◌, ◌≢◌, ◌≤◌, ◌<◌, refl, ◌∙◌, arith, true, false, some, not, ◌||◌,
  ◌&&◌, lookup, lookup-insert_self, lookup-insert_ne, ℤ, pos, -ℤ_pos, Address, Env, ◌>>◌, After,
  After-bind, After-gets, After-guard, After-checked, After-branch, After-modify, After-modified,
  After-pure, After-raise, After-map, After-attempt_any, After-of_result, After-or_trap, ok,
  of_result,
}
use lease_flow_protocol_cont.Velocity.Types.{VelocityStore}
use lease_flow_protocol_cont.Rental.Types.{
  terminated, expired, LeaseInstance, OraclePayload, DamageSeverity, normal_wear_and_tear, minor,
  moderate, major, severe, catastrophic,
}
use lease_flow_protocol_cont.Rental.LeaseFlags.{has_flag-clear_flag}
use lease_flow_protocol_cont.Rental.Store.{
  World, RentalStore, is_status, is_settled, acquire_reentrancy_lock, release_reentrancy_lock,
}
use lease_flow_protocol_cont.Rental.Oracle.{is_oracle_whitelisted}
use lease_flow_protocol_cont.Rental.Slash.{
  calculate_penalty_percentage, slash_penalty, slash_refund, severity_code, slashed, settle_slash,
  flag_tenant, hold_massive_slash, execute_deposit_slash_inner, execute_deposit_slash,
}
use lease_flow_protocol_cont.Rental.Split.{deposits}
use lease_flow_protocol_cont.Rental.Acceptance.{Accepted, nonce_of, accept_payload-Accepted}
use lease_flow_protocol_cont.Rental.Rules.{After-loaded, After-guarded}
use lease_flow_protocol_cont.Rental.Payouts.{Paid, After-payouts}
use lease_flow_protocol_cont.Rental.Keeps.{After-return_nft}
use lease_flow_protocol_cont.Rental.Endings.{IsClosed, Paid-kept}

-- The share of a damage, rounded down.
penalty_units :
    (d : ℕ) (v : DamageSeverity)
    → d < 1000000000000000000000000000000000000
    → slash_penalty (pos d) v ≡ pos (d * calculate_penalty_percentage v / 100)
unfolding slash_penalty calculate_penalty_percentage
penalty_units d normal_wear_and_tear h = ground arith
penalty_units d minor h = ground arith
penalty_units d moderate h = ground arith
penalty_units d major h = ground arith
penalty_units d severe h = ground arith
penalty_units d catastrophic h = ground arith

percentage_le :
    (v v' : DamageSeverity)
    → severity_code v ≤ severity_code v'
    → calculate_penalty_percentage v ≤ calculate_penalty_percentage v'
unfolding calculate_penalty_percentage
percentage_le normal_wear_and_tear v' h = omega arith
percentage_le minor v' h = grind arith
percentage_le moderate v' h = grind arith
percentage_le major v' h = grind arith
percentage_le severe v' h = grind arith
percentage_le catastrophic v' h = grind arith

percentage_bound : (v : DamageSeverity) → calculate_penalty_percentage v ≤ 100
unfolding calculate_penalty_percentage
percentage_bound v = grind arith

share_le : (d a b : ℕ) → a ≤ b → d * a / 100 ≤ d * b / 100
share_le d a b h = let m = mul_le d a b h in omega (arith, m)

-- For deposits from 0 to 10^36: the penalty of a damage is its percentage of them, rounded down, and
-- at most the deposits, the refund is the rest of them, and a damage of a higher grade has no lower
-- penalty.
pub slash_penalty-slash_refund :
    (d : ℕ) (v worse : DamageSeverity)
    → d < 1000000000000000000000000000000000000
    → severity_code v ≤ severity_code worse
    → let share : DamageSeverity → ℕ = λ x. d * calculate_penalty_percentage x / 100 in
      (slash_penalty (pos d) v ≡ pos (share v))
      × (slash_refund (pos d) v ≡ pos (d - share v))
      × (share v ≤ d)
      × (share v ≤ share worse)
unfolding slash_refund
slash_penalty-slash_refund d v worse h le =
    let whole = share_le d (calculate_penalty_percentage v) 100 (percentage_bound v) in
    let bounded : d * calculate_penalty_percentage v / 100 ≤ d = omega (arith, whole) in
    (
      penalty_units d v h,
      rw (penalty_units d v h, -ℤ_pos d (d * calculate_penalty_percentage v / 100) bounded)
          (ground arith),
      bounded,
      share_le d (calculate_penalty_percentage v) (calculate_penalty_percentage worse)
          (percentage_le v worse le),
    )

-- What a slash by the payload leaves.
pub record Slashed {W : Type 0} (world : World W) (self : Address) (env : Env) (p : OraclePayload)
    (l : LeaseInstance) (s d : RentalStore W) : Type 0 where
  pub listed : is_oracle_whitelisted p.oracle_pubkey s ≡ true
  pub signed : world.signature_holds p.oracle_pubkey p.lease_id p.signature ≡ true
  pub past : p.timestamp ≤ env.timestamp
  pub recent : env.timestamp - p.timestamp ≤ 86400
  pub fresh : nonce_of s p.oracle_pubkey < p.nonce
  pub used : nonce_of d p.oracle_pubkey ≡ p.nonce
  pub unused : (o : ℕ) → o ≢ p.oracle_pubkey → nonce_of d o ≡ nonce_of s o
  pub over : is_status l.status terminated || is_status l.status expired ≡ true
  pub unsettled : is_settled l.deposit_status ≡ false
  pub paid :
      Paid world self l.payment_token l.tenant l.landlord
        (slash_refund (deposits l) p.damage_severity)
        (slash_penalty (deposits l) p.damage_severity)
        s.tokens
        d.tokens
  pub stored : lookup p.lease_id d.leases ≡ some (slashed l)
  pub closes : IsClosed l.status (slashed l)

module _ {W : Type 0} (world : World W) (self : Address) (env : Env) (p : OraclePayload)
    (l : LeaseInstance) (st : self ≢ l.tenant) (sl : self ≢ l.landlord)
    (tl : l.tenant ≢ l.landlord) where
  -- The payments of a slash, with what they leave alone.
  settle_slash-pays :
      (s : RentalStore W) (total penalty refund : ℤ)
      → After
          (λ u d.
            Paid world self l.payment_token l.tenant l.landlord refund penalty s.tokens d.tokens
            × (lookup p.lease_id d.leases ≡ some (slashed l))
            × (d.oracle_nonces ≡ s.oracle_nonces))
          s
          (settle_slash world self env p l total penalty refund)
  unfolding settle_slash flag_tenant
  settle_slash-pays s total penalty refund = After-bind _ _ (
      After-branch _ _ _
        (λ _. After-modified _ _ (
          After-modify _ (
            After-payouts world self l.payment_token l.tenant l.landlord _ _ _ st sl tl λ w k.
              After-modified _ _ (
                After-guarded _ _ λ _ _. After-guarded _ _ λ _ _. After-return_nft _ _ _ _ λ _ _ e.
                  After-guarded _ _ λ _ _.
                    After-modify _
                      (Paid-kept world e k, lookup-insert_self p.lease_id _ s.leases, refl)))))
        (λ _. After-pure _ (
          After-payouts world self l.payment_token l.tenant l.landlord _ _ _ st sl tl λ w k.
            After-modified _ _ (
              After-guarded _ _ λ _ _. After-guarded _ _ λ _ _. After-return_nft _ _ _ _ λ _ _ e.
                After-guarded _ _ λ _ _.
                  After-modify _
                    (Paid-kept world e k, lookup-insert_self p.lease_id _ s.leases, refl)))))

  module _ (s : RentalStore W) (found : lookup p.lease_id s.leases ≡ some l) where
    still_there :
        {c : RentalStore W}
        → Accepted world env p (record s { locked = true }) c
        → lookup p.lease_id c.leases ≡ some l
    still_there a = rw a.leases found

    slashed_by :
        {c d : RentalStore W}
        → Accepted world env p (record s { locked = true }) c
        → not (is_status l.status terminated) && not (is_status l.status expired) ≡ false
        → is_settled l.deposit_status ≡ false
        → Paid world self l.payment_token l.tenant l.landlord
            (slash_refund (deposits l) p.damage_severity)
            (slash_penalty (deposits l) p.damage_severity)
            c.tokens
            d.tokens
        → lookup p.lease_id d.leases ≡ some (slashed l)
        → d.oracle_nonces ≡ c.oracle_nonces
        → Slashed world self env p l s d
    slashed_by {c} {d} a over unsettled paid stored nonces =
        let all = nonces ∙ a.nonces in
        record {
          listed = a.listed;
          signed = a.signed;
          past = a.past;
          recent = a.recent;
          fresh = a.fresh;
          used = rw (all, lookup-insert_self p.oracle_pubkey p.nonce s.oracle_nonces) refl;
          unused =
              λ o ne. rw (all, lookup-insert_ne o p.oracle_pubkey p.nonce s.oracle_nonces ne) refl;
          over = ground (arith, over);
          unsettled = unsettled;
          paid = rw a.tokens at paid;
          stored = stored;
          closes = record {
            status_of = refl;
            settled = refl;
            inactive = has_flag-clear_flag l.flags;
          };
        }

    -- Of a lease whose tenant, landlord and this contract are three addresses: if a slash succeeds,
    -- the oracle was on the list, signed for the lease, and gave a time of the last day and a nonce
    -- above its last one, which is now its last, while the nonces of the others stay; the lease was
    -- terminated or expired and not settled, and is now stored as settled and inactive; and of its
    -- deposits the landlord got the penalty and the tenant the refund, from the contract's balance,
    -- and no other balance changed.
    pub execute_deposit_slash-Slashed :
        After (λ u d. Slashed world self env p l s d) s (execute_deposit_slash world self env p)
    unfolding execute_deposit_slash execute_deposit_slash_inner acquire_reentrancy_lock
        hold_massive_slash
    execute_deposit_slash-Slashed = After-bind _ _ (
        After-bind _ _ (
          After-gets _ (
            After-bind _ _ (
              After-or_trap _ λ _ _. After-modify _ (
                After-attempt_any _ _
                  (After-bind _ _ (
                    After-map
                      (λ _ c a. After-loaded p.lease_id l _ (still_there a) (
                        After-guard _ _ _ λ _. After-guard _ _ _ λ over.
                          After-guard _ _ _ λ unsettled. After-guarded _ _ λ _ _.
                            After-guarded _ _ λ _ _. After-checked _ _ _ λ _. After-bind _ _ (
                              After-branch _ _ _
                                (λ _. After-bind _ _ (
                                  After-gets _ (
                                    After-branch _ _ _
                                      (λ _.
                                        After-checked _ _ _ λ _. After-modified _ _ (After-raise _))
                                      (λ _. After-pure _ (finish a over unsettled)))))
                                (λ _. After-pure _ (finish a over unsettled)))))
                      (accept_payload-Accepted world self env p (record s { locked = true }))))
                  (λ e d. After-modified _ _ (After-of_result _ λ _ x. absurd cc)))))))
      where
        finish :
            {c : RentalStore W} {g : VelocityStore}
            → Accepted world env p (record s { locked = true }) c
            → not (is_status l.status terminated) && not (is_status l.status expired) ≡ false
            → is_settled l.deposit_status ≡ false
            → After
                (λ u d.
                  After
                    (λ u e. Slashed world self env p l s e)
                    d
                    (release_reentrancy_lock >> of_result (ok u)))
                (record c { guard = g })
                (settle_slash world self env p l
                  (deposits l)
                  (slash_penalty (deposits l) p.damage_severity)
                  (slash_refund (deposits l) p.damage_severity))
        finish a over unsettled =
            After-map
              (λ _ d k.
                After-modified _ _
                  (After-of_result _ λ _ _. slashed_by a over unsettled k.0 k.1 k.2))
              (settle_slash-pays _ _ _ _)
