-- ===== src/Rental/Keeps/Ended.antt =====
-- Settlements, disputes, terminations and slashes keep the books.
use lease_flow_protocol_cont.Base.{
  ℕ, ◌≡◌, refl, Map, ℤ, pos, ◌*ℤ◌, Address, Env, List, ◌>>◌, After, After-pure, After-gets,
  After-bind, After-guard, After-found, After-checked, After-branch, After-if_some, After-modify,
  After-modified, After-attempt, After-raise_if, After-trap_unless, After-div_i128, Fails-bind,
  Fails-gets, Fails-or_raise, Fails-modify, After-or_trap, After-or_raise,
}
use lease_flow_protocol_cont.Rental.LeaseFlags
use lease_flow_protocol_cont.Rental.LeaseFlags.{has_flag, clear_flag, clear_active-keeps}
use lease_flow_protocol_cont.Rental.Types.{LeaseInstance}
use lease_flow_protocol_cont.Rental.Store.{World, RentalStore, Rental}
use lease_flow_protocol_cont.Rental.Deposit.{
  settle_deposit, reclaim_asset, conclude_lease, dispute_deposit, resolve_dispute, return_nft,
  reclaim, check_release, mutual_deposit_release, init_mutual_release_fb,
}
use lease_flow_protocol_cont.Rental.Termination.{
  thaw_asset, thaw_lease, pay_bounty, bounty, burn_tokens, terminate_lease,
  execute_early_termination,
}
use lease_flow_protocol_cont.Rental.Books.{
  IsConsistent, IsCollected, IsCollected-of, restated, save-Consistent, erase-Consistent,
}
use lease_flow_protocol_cont.Rental.Rules.{
  After-load_lease, After-paid, transferred, nft_sent, After-guarded,
}
use lease_flow_protocol_cont.Rental.Split.{After-early_split}
use lease_flow_protocol_cont.Rental.Keeps.Paid.{KeepsBooks, After-hand_over}

-- A lease may lose its ACTIVE flag.
pub cleared :
    (balances : Map (Map ℤ)) (id : ℕ) (l : LeaseInstance)
    → IsCollected balances id l
    → IsCollected balances id (record l { flags = clear_flag LeaseFlags.active l.flags })
cleared balances id l k = record {
  recorded = k.recorded;
  released = k.released;
  started = k.started;
  covered = k.covered;
  charged = rw (clear_active-keeps l.flags) k.charged;
  bounded = k.bounded;
  unarbitrated = k.unarbitrated;
}

module _ {W A : Type 0} {Q : A → RentalStore W → Type 0} {s : RentalStore W} where
  -- The returned token changes the usage rights and the tokens.
  pub After-return_nft :
      (world : World W) (self : Address) (l : LeaseInstance) (k : Rental W A)
      → ((rights : _) (w : W)
          → world.token_host.balance w ≡ world.token_host.balance s.tokens
          → After Q (record s { usage_rights = rights; tokens = w }) k)
      → After Q s (return_nft world self l >> k)
  unfolding return_nft
  After-return_nft world self l k h = After-bind _ _ (
      After-if_some _ _ _
        (λ nft _.
          After-if_some _ _ _
            (λ id _. After-modified _ _ (nft_sent world self nft id l.landlord (h _)))
            (λ _. After-pure _ (h s.usage_rights s.tokens refl)))
        (λ _. After-pure _ (h s.usage_rights s.tokens refl)))

  pub After-thaw_lease :
      (world : World W) (id : ℕ) (l : LeaseInstance) (k : Rental W A)
      → ((proofs : _) (w : W)
          → world.token_host.balance w ≡ world.token_host.balance s.tokens
          → After Q (record s { freeze_proofs = proofs; tokens = w }) k)
      → After Q s (thaw_lease world id l >> k)
  unfolding thaw_lease thaw_asset
  After-thaw_lease world id l k h = After-bind _ _ (
      After-if_some _ _ _
        (λ registry _.
          After-if_some _ _ _
            (λ asset _.
              After-attempt {R = λ d. d ≡ s} _ _
                (After-bind _ _ (
                  After-gets _ (
                    After-found _ _ _ λ proof _. After-bind _ _ (
                      After-gets _ (
                        After-found _ _ _ λ w e.
                          After-modify _
                            (After-pure _ (h _ w (world.thaw_keeps registry asset proof e))))))))
                (Fails-bind _ _ (Fails-gets _) (
                  After-gets _ (
                    Fails-bind _ _ (Fails-or_raise _ _ refl) (
                      After-or_raise _ _ λ proof _. Fails-bind _ _ (Fails-gets _) (
                        After-gets _ (
                          Fails-bind _ _ (Fails-or_raise _ _ refl)
                            (After-or_raise _ _ λ w _. Fails-modify _)))))))
                (λ e d same. After-pure _ (rw same (h s.freeze_proofs s.tokens refl))))
            (λ _. After-pure _ (h s.freeze_proofs s.tokens refl)))
        (λ _. After-pure _ (h s.freeze_proofs s.tokens refl)))

  pub After-check_release :
      (l : LeaseInstance) (back slash : ℤ) (k : Rental W A)
      → After Q s k
      → After Q s (check_release l back slash >> k)
  unfolding check_release
  After-check_release l back slash k h = After-bind _ _ (
      After-guard _ _ _ λ _.
        After-checked _ _ _
          λ _. After-checked _ _ _ λ _. After-guard _ _ _ λ _. After-raise_if _ _ λ _. h)

module _ {W A : Type 0} {Q : A → RentalStore W → Type 0} {s : RentalStore W} (world : World W)
    (id : ℕ) where
  -- A bounty changes the tokens and the events.
  pub After-bounty :
      (caller : Address) (k : Rental W A)
      → ((w : W) (events : _) → After Q (record s { tokens = w; events = events }) k)
      → After Q s (bounty world id caller >> k)
  unfolding bounty pay_bounty
  After-bounty caller k h = After-bind _ _ (
      After-bind _ _ (
        After-gets _ (
          After-bind _ _ (
            After-gets _ (
              After-bind _ _ (
                After-gets _ (
                  After-if_some _ _ _
                    (λ fee _.
                      After-if_some _ _ _
                        (λ _ _.
                          After-if_some _ _ _
                            (λ _ _. After-checked _ _ _ λ _. After-bind _ _ (
                              After-div_i128 (fee *ℤ pos 1000) (pos 10000) (
                                After-branch _ _ _
                                  (λ _.
                                    After-bind _ _
                                      (transferred _ _ _ _ _ λ w _. After-modify _ (h w _)))
                                  (λ _. After-pure _ (h s.tokens s.events)))))
                            (λ _. After-pure _ (h s.tokens s.events)))
                        (λ _. After-pure _ (h s.tokens s.events)))
                    (λ _. After-pure _ (h s.tokens s.events)))))))))

  -- The burn of the access tokens is another contract's.
  pub After-burn_tokens :
      (l : LeaseInstance) (k : Rental W A)
      → ((w : W) → After Q (record s { tokens = w }) k)
      → After Q s (burn_tokens world id l >> k)
  unfolding burn_tokens
  After-burn_tokens l k h = After-bind _ _ (
      After-if_some _ _ _
        (λ _ _.
          After-bind _ _
            (After-gets _ (After-bind _ _ (After-or_trap _ λ w _. After-modify _ (h w)))))
        (λ _. After-pure _ (h s.tokens)))

module _ {W : Type 0} (env : Env) (s : RentalStore W) (h : IsConsistent s) (id : ℕ) where
  pub settle_deposit-Keeps :
      (caller : Address) (a b c : ℤ) → After KeepsBooks s (settle_deposit env id caller a b c)
  unfolding settle_deposit
  settle_deposit-Keeps caller a b c = After-load_lease _ _ λ l found. After-bind _ _ (
      After-gets _ (
        After-guard _ _ _ λ _.
          After-checked _ _ _
            λ _. After-modify _ (save-Consistent h id _ (IsCollected-of h id found))))

  pub reclaim_asset-Keeps :
      (caller : Address) (reason : List ℕ) → After KeepsBooks s (reclaim_asset env id caller reason)
  unfolding reclaim_asset
  reclaim_asset-Keeps caller reason =
      After-load_lease _ _
        λ l found. After-guard _ _ _ λ _. After-checked _ _ _ λ _. After-modify _ h

  pub conclude_lease-Keeps :
      (landlord : Address) (deduction : ℤ)
      → After KeepsBooks s (conclude_lease env id landlord deduction)
  unfolding conclude_lease
  conclude_lease-Keeps landlord deduction = After-load_lease _ _ λ l found. After-guard _ _ _ λ _.
      After-checked _ _ _ λ _. After-guard _ _ _ λ _.
        After-modified _ _
          (After-trap_unless _ _ λ _. save-Consistent h id _ (restated (IsCollected-of h id found)))

  pub dispute_deposit-Keeps :
      (caller : Address) → After KeepsBooks s (dispute_deposit env id caller)
  unfolding dispute_deposit
  dispute_deposit-Keeps caller = After-load_lease _ _ λ l found. After-guard _ _ _ λ _.
      After-checked _ _ _ λ _.
        After-modified _ _
          (After-modify _ (save-Consistent h id _ (restated (IsCollected-of h id found))))

  pub resolve_dispute-Keeps :
      (arbitrator : Address) (deduction : ℤ)
      → After KeepsBooks s (resolve_dispute env id arbitrator deduction)
  unfolding resolve_dispute
  resolve_dispute-Keeps arbitrator deduction = After-load_lease _ _ λ l found.
      After-guard _ _ _ λ _. After-checked _ _ _ λ _. After-guard _ _ _ λ _.
        After-checked _ _ _ λ _.
          After-modified _ _
            (After-pure _ (save-Consistent h id _ (restated (IsCollected-of h id found))))

  pub init_mutual_release-Keeps :
      (initiator : Address) (back slash : ℤ)
      → After KeepsBooks s (init_mutual_release_fb env id initiator back slash)
  unfolding init_mutual_release_fb
  init_mutual_release-Keeps initiator back slash = After-load_lease _ _ λ l found.
      After-guard _ _ _ λ _. After-checked _ _ _ λ _. After-check_release _ _ _ _ (
        After-modified _ _
          (After-modify _ (save-Consistent h id _ (restated (IsCollected-of h id found)))))

  module _ (world : World W) (self : Address) where
    pub reclaim-Keeps : (caller : Address) → After KeepsBooks s (reclaim world self env id caller)
    unfolding reclaim
    reclaim-Keeps caller = After-load_lease _ _ λ l found. After-bind _ _ (
        After-gets _ (
          After-guard _ _ _ λ _. After-checked _ _ _ λ _. After-guard _ _ _ λ _.
            After-return_nft _ _ _ _ λ _ _ _. After-modified _ _ (
              After-modify _
                (save-Consistent h id _ (restated (cleared _ id l (IsCollected-of h id found)))))))

    pub mutual_deposit_release-Keeps :
        (lessee lessor : Address) (back slash : ℤ)
        → After KeepsBooks s (mutual_deposit_release world self env id lessee lessor back slash)
    unfolding mutual_deposit_release
    mutual_deposit_release-Keeps lessee lessor back slash = After-load_lease _ _ λ l found.
        After-guard _ _ _ λ _. After-checked _ _ _ λ _. After-checked _ _ _ λ _.
          After-check_release _ _ _ _ (
            After-paid _ _ _ _ _ _ λ _. After-paid _ _ _ _ _ _ λ _.
              After-return_nft _ _ _ _ λ _ _ _. After-modified _ _ (
                After-modify _
                  (save-Consistent h id _ (restated (cleared _ id l (IsCollected-of h id found))))))

    pub terminate_lease-Keeps :
        (caller : Address) → After KeepsBooks s (terminate_lease world env id caller)
    unfolding terminate_lease
    terminate_lease-Keeps caller = After-load_lease _ _ λ l found. After-bind _ _ (
        After-gets _ (
          After-guard _ _ _ λ _. After-checked _ _ _ λ _. After-guard _ _ _ λ _.
            After-guard _ _ _ λ _. After-bounty _ _ _ _ λ _ _. After-burn_tokens _ _ _ _ λ _.
              After-thaw_lease _ _ _ _
                λ _ _ _. After-modified _ _ (After-modify _ (erase-Consistent h id))))

    pub early_termination-Keeps :
        (caller : Address) → After KeepsBooks s (execute_early_termination world self env id caller)
    unfolding execute_early_termination
    early_termination-Keeps caller = After-checked _ _ _ λ _. After-load_lease _ _ λ l found.
        After-guard _ _ _ λ _. After-guard _ _ _ λ _. After-guarded _ _ λ _ _.
          After-guarded _ _ λ _ _. After-early_split env l _ λ _ _. After-paid _ _ _ _ _ _ λ _.
            After-paid _ _ _ _ _ _ λ _. After-hand_over _ _ _ _ _ λ _ _. After-guarded _ _ λ _ _.
              After-guarded _ _ λ _ _. After-thaw_lease _ _ _ _ λ _ _ _. After-modified _ _ (
                After-guarded _ _
                  λ _ _. After-modified _ _ (After-modify _ (erase-Consistent h id)))
