-- ===== src/Rental/Acceptance.antt =====
-- contracts/leaseflow_contracts/src/lib.rs: when `execute_deposit_slash` accepts a payload, and what
-- that changes.
use lease_flow_protocol_cont.Base.{
  ℕ, ◌-◌, ◌≤◌, ◌<◌, ◌≡◌, refl, arith, true, false, some, none, Map, ◌||◌, Option, lookup, insert,
  ltb, leb, get_or, Env, Address, ⊤, raise_if, gets, modify, when_some, ◌>>=◌, ◌>>◌, After,
  After-pure, After-raise, After-gets, After-bind, After-guard, After-branch, After-if_some,
  After-modify, After-any, After-or_raise, After-map, After-raise_if,
}
use lease_flow_protocol_cont.Rental.Types.{
  LeaseError, OracleConfig, OraclePayload, FallbackHierarchy,
}
use lease_flow_protocol_cont.Rental.Store.{World, RentalStore, require}
use lease_flow_protocol_cont.Rental.Oracle.{
  set_oracle_config, is_oracle_whitelisted, staleness_check, check_oracle_availability,
  get_oracle_config,
}
use lease_flow_protocol_cont.Rental.Slash.{
  succeeded, bypasses, accept_payload, refuse, refuse_backup, is_oracle_available,
}
use lease_flow_protocol_cont.Rental.Rules.{After-require}

abbrev pub nonce_of : {W : Type 0} → RentalStore W → ℕ → ℕ
nonce_of s oracle = get_or (lookup oracle s.oracle_nonces) 0

pub record Accepted {W : Type 0} (world : World W) (env : Env) (p : OraclePayload)
    (s d : RentalStore W) : Type 0 where
  pub leases : d.leases ≡ s.leases
  pub balances : d.roommate_balances ≡ s.roommate_balances
  pub locked : d.locked ≡ s.locked
  pub tokens : d.tokens ≡ s.tokens
  pub hierarchy : d.fallback_hierarchy ≡ s.fallback_hierarchy
  pub nonces : d.oracle_nonces ≡ insert p.oracle_pubkey p.nonce s.oracle_nonces
  pub listed : is_oracle_whitelisted p.oracle_pubkey s ≡ true
  pub admitted : bypasses p s.fallback_hierarchy ≡ false
  pub fresh : nonce_of s p.oracle_pubkey < p.nonce
  pub past : p.timestamp ≤ env.timestamp
  pub recent : env.timestamp - p.timestamp ≤ 86400
  pub signed : world.signature_holds p.oracle_pubkey p.lease_id p.signature ≡ true

module _ {W : Type 0} (world : World W) (self : Address) (env : Env) (p : OraclePayload) where
  -- An oracle that is not available is refused with an error.
  pub refuse-fails :
      {Q : ⊤ → RentalStore W → Type 0} (s : RentalStore W) (hierarchy : Option FallbackHierarchy)
      → After Q s (refuse world self env p hierarchy)
  unfolding refuse refuse_backup
  refuse-fails s none = After-raise _
  refuse-fails s (some hierarchy) =
      After-branch _ _ _
        (λ _. After-bind _ _ (After-any _ λ _ _. After-bind _ _ (After-any _ λ _ _. After-raise _)))
        (λ _.
          After-branch _ _ _
            (λ _.
              After-branch _ _ _ (λ _. After-bind _ _ (After-any _ λ _ _. After-raise _))
                (λ _. After-bind _ _ (After-any _ λ _ _. After-raise _)))
            (λ _. After-raise _))

  available-rule :
      (s : RentalStore W)
      → After
          (λ a d. (d ≡ s) × (a ≡ true → is_oracle_whitelisted p.oracle_pubkey s ≡ true))
          s
          (is_oracle_available world self env p)
  unfolding is_oracle_available check_oracle_availability get_oracle_config
  available-rule s = After-bind _ _ (
      After-gets _ (
        After-branch _ _ _
          (λ listed. After-bind _ _ (
            After-bind _ _
              (After-gets _ (After-or_raise _ _ λ _ _. After-pure _ (refl, λ _. listed)))))
          (λ _. After-pure _ (refl, λ e. absurd cc))))

  Accepted-by :
      (s : RentalStore W)
      → is_oracle_whitelisted p.oracle_pubkey s ≡ true
      → bypasses p s.fallback_hierarchy ≡ false
      → leb p.nonce (nonce_of s p.oracle_pubkey) ≡ false
      → ltb env.timestamp p.timestamp || ltb 86400 (env.timestamp - p.timestamp) ≡ false
      → world.signature_holds p.oracle_pubkey p.lease_id p.signature ≡ true
      → (configs : Map OracleConfig)
      → Accepted world env p s (record s {
        oracle_configs = configs;
        oracle_nonces = insert p.oracle_pubkey p.nonce s.oracle_nonces;
      })
  Accepted-by s listed admitted fresh timely signed configs = record {
    leases = refl;
    balances = refl;
    locked = refl;
    tokens = refl;
    hierarchy = refl;
    nonces = refl;
    listed = listed;
    admitted = admitted;
    fresh = ground arith;
    past = ground arith;
    recent = ground arith;
    signed = signed;
  }

  -- The checks once the oracle is available.
  accepting :
      (s : RentalStore W)
      → is_oracle_whitelisted p.oracle_pubkey s ≡ true
      → After
          (λ a d. Accepted world env p s d)
          s
          (do
            raise_if (bypasses p s.fallback_hierarchy) LeaseError.oracle_bypass_attempt
            stored_nonce ←
                gets (λ (s : RentalStore W). get_or (lookup p.oracle_pubkey s.oracle_nonces) 0)
            raise_if (leb p.nonce stored_nonce) LeaseError.invalid_nonce
            raise_if
                (ltb env.timestamp p.timestamp || ltb 86400 (env.timestamp - p.timestamp))
                LeaseError.invalid_signature
            require (world.signature_holds p.oracle_pubkey p.lease_id p.signature)
            config ← gets (λ (s : RentalStore W). lookup p.oracle_pubkey s.oracle_configs)
            when_some config λ known. set_oracle_config p.oracle_pubkey (succeeded env known)
            modify (λ (s : RentalStore W). record s {
              oracle_nonces = insert p.oracle_pubkey p.nonce s.oracle_nonces;
            }))
  accepting s listed = After-guard _ _ _ λ admitted. After-bind _ _ (
      After-gets _ (
        After-guard _ _ _ λ fresh. After-guard _ _ _ λ timely. After-require _ _ λ signed.
          let accepted = Accepted-by s listed admitted fresh timely signed in
          After-bind _ _ (
            After-gets _ (
              After-bind _ _ (
                After-if_some _ _ _ (λ known _. After-modify _ (After-modify _ (accepted _)))
                  (λ _. After-pure _ (After-modify _ (accepted s.oracle_configs))))))))

  pub accept_payload-Accepted :
      (s : RentalStore W)
      → After (λ a d. Accepted world env p s d) s (accept_payload world self env p)
  unfolding accept_payload staleness_check
  accept_payload-Accepted s = After-bind _ _ (
      After-guard _ _ _ λ _. After-raise_if _ _ λ _. After-bind _ _ (
        After-gets _ (
          After-bind _ _ (
            After-map
              (λ available d e. rw e.0 (
                After-bind _ _ (
                  After-branch _ _ _ (λ yes. After-pure _ (accepting s (e.1 yes)))
                    (λ _. refuse-fails s _))))
              (available-rule s)))))
