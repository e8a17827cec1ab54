-- ===== src/Vault/Freeze.antt =====
-- The emergency freeze: what it stops, and what the council's two calls do.
use lease_flow_protocol_cont.Base.{
  ℕ, ◌-◌, ◌≤◌, ◌≡◌, refl, arith, true, false, none, some, List, ◌∷◌, ℤ, Address, Env, ok, err,
  ◌>>=◌, ◌>>◌,
}
use lease_flow_protocol_cont.Vault.Types.{ContractError, VaultEvent, Token, VaultStore}
use lease_flow_protocol_cont.Vault.Calls.{
  is_escrow_frozen, check_freeze_status, toggle_escrow_freeze, DepositArgs, initialize_deposit,
  execute_oracle_slash, execute_mutual_release, deduct_arrears,
}

module _ {W : Type 0} where
  -- While the vault is frozen, the deposit, the slash, the release and the deduction of arrears
  -- each answer that it is frozen and change nothing, whatever their arguments and signatures.
  pub is_escrow_frozen-refuses :
      (token_host : Token W) (self : Address) (env : Env) (s : VaultStore W)
      → s.is_escrow_frozen ≡ some true
      → (args : DepositArgs) (by : Address) (id : ℕ) (amount : ℤ) (to : Address)
      → (initialize_deposit token_host self env args s ≡ (err ContractError.escrow_frozen, s))
        × (execute_oracle_slash token_host self env by id amount to s
            ≡ (err ContractError.escrow_frozen, s))
        × (execute_mutual_release token_host self env by id amount to s
            ≡ (err ContractError.escrow_frozen, s))
        × (deduct_arrears token_host self env by id amount to s
            ≡ (err ContractError.escrow_frozen, s))
  unfolding initialize_deposit execute_oracle_slash execute_mutual_release deduct_arrears
      check_freeze_status ◌>>=◌
  is_escrow_frozen-refuses token_host self env s h args by id amount to =
      rw h (refl, refl, refl, refl)

  -- On a vault that is not frozen, the council, which signs both calls, freezes it and lifts the
  -- freeze at the same or a later time: both calls succeed, the flag is false and the time of the
  -- freeze is gone, the second event reports the length of the freeze, and everything else is as
  -- before.
  pub toggle_escrow_freeze-toggle_escrow_freeze :
      (first second : Env) (council : Address) (reason why : List ℕ) (s : VaultStore W)
      → s.dao_security_council ≡ some council
      → is_escrow_frozen s ≡ false
      → first.auth council ≡ true
      → second.auth council ≡ true
      → first.timestamp ≤ second.timestamp
      → (toggle_escrow_freeze first council true reason
            >> toggle_escrow_freeze second council false why)
          s
        ≡ (
          ok tt,
          record s {
            is_escrow_frozen = some false;
            freeze_timestamp = none;
            events =
                VaultEvent.emergency_escrow_freeze_lifted council
                  (second.timestamp - first.timestamp)
                  second.timestamp
                ∷ VaultEvent.emergency_escrow_freeze_activated council first.timestamp reason
                ∷ s.events;
          },
        )
  unfolding toggle_escrow_freeze ◌>>=◌
  toggle_escrow_freeze-toggle_escrow_freeze first second council reason why s set clear a b le =
      ground arith
