-- ===== src/Vault/Steps.antt =====
-- The vault's entry points as steps, what every sequence of them keeps, and the freeze.
use lease_flow_protocol_cont.Base.{
  ℕ, ◌≤◌, ◌≡◌, arith, Bool, false, none, List, All, ℤ, Address, Env, ⊤, pure, invoke, invoke_keeps,
  ◌>>◌, After, After-map, After-bind, After-pure,
}
use lease_flow_protocol_cont.Vault.Types.{pending, Token, VaultStore, Vaulted}
use lease_flow_protocol_cont.Vault.Calls.{
  entries, initialize, toggle_escrow_freeze, set_dao_security_council, DepositArgs,
  initialize_deposit, execute_oracle_slash, execute_mutual_release, deduct_arrears,
}
use lease_flow_protocol_cont.Vault.Solvency.{IsSolvent}
use lease_flow_protocol_cont.Vault.Kept.{
  initialize-IsSolvent, toggle-IsSolvent, set_council-IsSolvent, deposit_keeps-IsSolvent,
  slash_keeps-IsSolvent, release_keeps-IsSolvent, deduct_keeps-IsSolvent,
}

-- Every entry has the status "pending".
abbrev pub IsPending : {W : Type 0} → VaultStore W → Type 0
IsPending s = All (λ id e. e.status ≡ pending) (entries s)

pub data VaultRequest : Type 0 where
  initializes : Address → Address → VaultRequest
  deposits : DepositArgs → VaultRequest
  slashes : Address → ℕ → ℤ → Address → VaultRequest
  releases : Address → ℕ → ℤ → Address → VaultRequest
  deducts : Address → ℕ → ℤ → Address → VaultRequest
  toggles : Address → Bool → List ℕ → VaultRequest
  sets_council : Address → Address → VaultRequest

module _ {W : Type 0} (token_host : Token W) (self : Address) where
  -- One entry point, its result dropped.
  unfoldable pub dispatch : Env → VaultRequest → Vaulted W ⊤
  dispatch env (initializes admin council) = initialize admin council
  dispatch env (deposits args) = initialize_deposit token_host self env args >> pure tt
  dispatch env (slashes oracle id amount to) =
      execute_oracle_slash token_host self env oracle id amount to
  dispatch env (releases releaser id amount to) =
      execute_mutual_release token_host self env releaser id amount to
  dispatch env (deducts collector id amount to) =
      deduct_arrears token_host self env collector id amount to
  dispatch env (toggles member freeze reason) = toggle_escrow_freeze env member freeze reason
  dispatch env (sets_council admin council) = set_dao_security_council env admin council

  -- A call in a transaction that the vault itself has not signed, or a change of the token
  -- contracts by others, who take nothing from the vault.
  pub data Step (s : VaultStore W) : VaultStore W → Type 0 where
    call :
        (env : Env) (r : VaultRequest)
        → env.auth self ≡ false
        → Step s (invoke (dispatch env r) s).1
    outside :
        (w : W)
        → ((t : Address) → token_host.balance s.tokens t self ≤ token_host.balance w t self)
        → Step s (record s { tokens = w })

  pub data Reach (s : VaultStore W) : VaultStore W → Type 0 where
    here : Reach s s
    next : {d e : VaultStore W} → Reach s d → Step d e → Reach s e

  dispatch-IsSolvent :
      (env : Env) (r : VaultRequest) (s : VaultStore W)
      → env.auth self ≡ false
      → IsSolvent token_host self s
      → After (λ a d. IsSolvent token_host self d) s (dispatch env r)
  unfolding dispatch
  dispatch-IsSolvent env (initializes admin council) s f h =
      initialize-IsSolvent token_host self s h env admin council
  dispatch-IsSolvent env (deposits args) s f h =
      After-bind _ _ (
        After-map (λ _ d k. After-pure _ k)
          (deposit_keeps-IsSolvent token_host self s h env args f))
  dispatch-IsSolvent env (slashes oracle id amount to) s f h =
      slash_keeps-IsSolvent token_host self s h env oracle id amount to
  dispatch-IsSolvent env (releases releaser id amount to) s f h =
      release_keeps-IsSolvent token_host self s h env releaser id amount to
  dispatch-IsSolvent env (deducts collector id amount to) s f h =
      deduct_keeps-IsSolvent token_host self s h env collector id amount to
  dispatch-IsSolvent env (toggles member freeze reason) s f h =
      toggle-IsSolvent token_host self s h env member freeze reason
  dispatch-IsSolvent env (sets_council admin council) s f h =
      set_council-IsSolvent token_host self s h env admin council

  Step-IsSolvent :
      {s d : VaultStore W} → Step s d → IsSolvent token_host self s → IsSolvent token_host self d
  Step-IsSolvent {s = s} (call env r f) h =
      invoke_keeps (IsSolvent token_host self) (dispatch env r) s h (dispatch-IsSolvent env r s f h)
  Step-IsSolvent (outside w more) h = record {
    sorted = h.sorted;
    amounts = h.amounts;
    backed = λ t. omega (arith, h.backed t, more t);
  }

  -- A vault that starts without entries stays solvent through every sequence of calls, in
  -- transactions that it does not sign itself, and of changes of the token contracts by others that
  -- take nothing from it: in each token it holds at least what its entries add up to, and no entry
  -- is negative.
  pub Reach-IsSolvent :
      {s d : VaultStore W} → s.escrow_entries ≡ none → Reach s d → IsSolvent token_host self d
  Reach-IsSolvent e here = rw e (record { sorted = tt; amounts = tt; backed = λ t. omega arith })
  Reach-IsSolvent e (next r t) = Step-IsSolvent t (Reach-IsSolvent e r)
