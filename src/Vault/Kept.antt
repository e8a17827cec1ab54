-- ===== src/Vault/Kept.antt =====
-- Each entry point of the vault keeps it solvent.
use lease_flow_protocol_cont.Base.{
  ℕ, ◌≡◌, refl, arith, Bool, false, List, ℤ, Address, Env, After, After-bind, After-gets,
  After-or_trap, After-modify, After-modified, After-pure, After-guard, After-checked,
  After-require_auth, After-branch,
}
use lease_flow_protocol_cont.Vault.Types.{Token, VaultStore}
use lease_flow_protocol_cont.Vault.Calls.{
  initialize, toggle_escrow_freeze, set_dao_security_council, DepositArgs, initialize_deposit,
  execute_oracle_slash, execute_mutual_release, deduct_arrears,
}
use lease_flow_protocol_cont.Vault.Solvency.{
  IsSolvent, keep-IsSolvent, deposit-IsSolvent, withdraw-IsSolvent, After-check_freeze_status,
  After-get_escrow, After-transfer_tokens,
}

module _ {W : Type 0} (token_host : Token W) (self : Address) (s : VaultStore W)
    (h : IsSolvent token_host self s) (env : Env) where
  pub initialize-IsSolvent :
      (admin council : Address)
      → After (λ a d. IsSolvent token_host self d) s (initialize admin council)
  unfolding initialize
  initialize-IsSolvent admin council = After-bind _ _ (
      After-gets _ (
        After-guard _ _ _
          λ _. After-modify _ (record { sorted = tt; amounts = tt; backed = λ t. omega arith })))

  pub toggle-IsSolvent :
      (member : Address) (freeze : Bool) (reason : List ℕ)
      → After (λ a d. IsSolvent token_host self d) s (toggle_escrow_freeze env member freeze reason)
  unfolding toggle_escrow_freeze
  toggle-IsSolvent member freeze reason = After-bind _ _ (
      After-gets _ (
        After-bind _ _ (
          After-or_trap _ λ council _. After-guard _ _ _ λ _. After-require_auth env _ _ λ _.
            After-bind _ _ (
              After-gets _ (
                After-branch _ _ _
                  (λ _.
                    After-modified _ _
                      (After-modify _ (keep-IsSolvent token_host self s h _ refl refl)))
                  (λ _.
                    After-branch _ _ _
                      (λ _. After-bind _ _ (
                        After-gets _ (
                          After-checked _ _ _ λ _.
                            After-modified _ _
                              (After-modify _ (keep-IsSolvent token_host self s h _ refl refl)))))
                      (λ _. After-pure _ h)))))))

  pub set_council-IsSolvent :
      (admin council : Address)
      → After (λ a d. IsSolvent token_host self d) s (set_dao_security_council env admin council)
  unfolding set_dao_security_council
  set_council-IsSolvent admin council = After-bind _ _ (
      After-gets _ (
        After-bind _ _ (
          After-or_trap _ λ stored _. After-guard _ _ _ λ _.
            After-require_auth env _ _
              λ _. After-modify _ (keep-IsSolvent token_host self s h _ refl refl))))

  pub deposit_keeps-IsSolvent :
      (args : DepositArgs)
      → env.auth self ≡ false
      → After (λ a d. IsSolvent token_host self d) s (initialize_deposit token_host self env args)
  unfolding initialize_deposit
  deposit_keeps-IsSolvent args foreign = After-check_freeze_status _ (
      After-require_auth env _ _ λ signed. After-checked _ _ _ λ _. After-modified _ _ (
        After-transfer_tokens _ _ _ _ _ _ λ w m. After-modified _ _ (
          After-pure _ (
            deposit-IsSolvent token_host self s h _ env.sequence _ args.depositor refl (λ e. cc)
              m))))

  pub slash_keeps-IsSolvent :
      (oracle : Address) (id : ℕ) (amount : ℤ) (to : Address)
      → After
          (λ a d. IsSolvent token_host self d)
          s
          (execute_oracle_slash token_host self env oracle id amount to)
  unfolding execute_oracle_slash
  slash_keeps-IsSolvent oracle id amount to = After-check_freeze_status _ (
      After-require_auth env _ _ λ _. After-get_escrow _ _ λ e found. After-guard _ _ _ λ _.
        After-guard _ _ _ λ le. After-checked _ _ _ λ _. After-modified _ _ (
          After-transfer_tokens _ _ _ _ _ _ λ w m.
            After-modify _ (
              withdraw-IsSolvent token_host self s h _ id e _ to amount found refl le refl refl m)))

  pub release_keeps-IsSolvent :
      (releaser : Address) (id : ℕ) (amount : ℤ) (to : Address)
      → After
          (λ a d. IsSolvent token_host self d)
          s
          (execute_mutual_release token_host self env releaser id amount to)
  unfolding execute_mutual_release
  release_keeps-IsSolvent releaser id amount to = After-check_freeze_status _ (
      After-require_auth env _ _ λ _. After-get_escrow _ _ λ e found. After-guard _ _ _ λ _.
        After-guard _ _ _ λ _. After-guard _ _ _ λ le. After-checked _ _ _ λ _. After-modified _ _ (
          After-transfer_tokens _ _ _ _ _ _ λ w m.
            After-modify _ (
              withdraw-IsSolvent token_host self s h _ id e _ to amount found refl le refl refl m)))

  pub deduct_keeps-IsSolvent :
      (collector : Address) (id : ℕ) (amount : ℤ) (to : Address)
      → After
          (λ a d. IsSolvent token_host self d)
          s
          (deduct_arrears token_host self env collector id amount to)
  unfolding deduct_arrears
  deduct_keeps-IsSolvent collector id amount to = After-check_freeze_status _ (
      After-require_auth env _ _ λ _. After-get_escrow _ _ λ e found. After-guard _ _ _ λ _.
        After-guard _ _ _ λ le. After-checked _ _ _ λ _. After-modified _ _ (
          After-transfer_tokens _ _ _ _ _ _ λ w m.
            After-modify _ (
              withdraw-IsSolvent token_host self s h _ id e _ to amount found refl le refl refl m)))
