-- ===== src/Vault/Custody.antt =====
-- What becomes of a deposit: no entry point gives an entry the status that paying it out asks for.
use lease_flow_protocol_cont.Base.{
  ℕ, ◌≡◌, refl, arith, false, none, some, List, All-insert, All-lookup, not, Bool, lookup, ℤ,
  Address, Env, invoke_keeps, After, After-map, After-bind, After-gets, After-or_trap, After-modify,
  After-modified, After-pure, After-guard, After-checked, After-require_auth, After-branch,
}
use lease_flow_protocol_cont.Vault.Types.{pending, EscrowEntry, Token, VaultStore}
use lease_flow_protocol_cont.Vault.Calls.{
  entries, is_locked, initialize, toggle_escrow_freeze, set_dao_security_council, DepositArgs,
  initialize_deposit, execute_oracle_slash, execute_mutual_release, deduct_arrears,
}
use lease_flow_protocol_cont.Vault.Solvency.{
  After-check_freeze_status, After-get_escrow, After-transfer_tokens,
}
use lease_flow_protocol_cont.Vault.Steps.{
  IsPending, VaultRequest, initializes, deposits, slashes, releases, deducts, toggles, sets_council,
  dispatch, call, outside, Reach, here, next,
}

module _ {W : Type 0} (s : VaultStore W) (h : IsPending s) (env : Env) where
  initialize-IsPending :
      (admin council : Address) → After (λ a d. IsPending d) s (initialize admin council)
  unfolding initialize
  initialize-IsPending admin council =
      After-bind _ _ (After-gets _ (After-guard _ _ _ λ _. After-modify _ tt))

  toggle-IsPending :
      (member : Address) (freeze : Bool) (reason : List ℕ)
      → After (λ a d. IsPending d) s (toggle_escrow_freeze env member freeze reason)
  unfolding toggle_escrow_freeze
  toggle-IsPending member freeze reason = After-bind _ _ (
      After-gets _ (
        After-bind _ _ (
          After-or_trap _ λ council _. After-guard _ _ _ λ _. After-require_auth env _ _ λ _.
            After-bind _ _ (
              After-gets _ (
                After-branch _ _ _ (λ _. After-modified _ _ (After-modify _ h))
                  (λ _.
                    After-branch _ _ _
                      (λ _. After-bind _ _ (
                        After-gets _
                          (After-checked _ _ _ λ _. After-modified _ _ (After-modify _ h))))
                      (λ _. After-pure _ h)))))))

  set_council-IsPending :
      (admin council : Address)
      → After (λ a d. IsPending d) s (set_dao_security_council env admin council)
  unfolding set_dao_security_council
  set_council-IsPending admin council = After-bind _ _ (
      After-gets _ (
        After-bind _ _ (
          After-or_trap _
            λ stored _. After-guard _ _ _ λ _. After-require_auth env _ _ λ _. After-modify _ h)))

  not_locked :
      (id : ℕ) {e : EscrowEntry} {A : Type 0}
      → lookup id (entries s) ≡ some e
      → not (is_locked e.status) ≡ false
      → A
  not_locked id {e} found locked =
      let p : e.status ≡ pending = All-lookup (λ id e. e.status ≡ pending) id (entries s) h found in
      absurd (ground arith)

module _ {W : Type 0} (token_host : Token W) (self : Address) (s : VaultStore W) (h : IsPending s)
    (env : Env) where
  deposit-IsPending :
      (args : DepositArgs)
      → After (λ a d. IsPending d) s (initialize_deposit token_host self env args)
  unfolding initialize_deposit
  deposit-IsPending args = After-check_freeze_status _ (
      After-require_auth env _ _ λ _. After-checked _ _ _ λ _. After-modified _ _ (
        After-transfer_tokens _ _ _ _ _ _ λ w m.
          After-modified _ _
            (After-pure _ (All-insert (λ id e. e.status ≡ pending) _ _ (entries s) h refl))))

  module _ (by : Address) (id : ℕ) (amount : ℤ) (to : Address) where
    slash-refused : After (λ a d. ⊥) s (execute_oracle_slash token_host self env by id amount to)
    unfolding execute_oracle_slash
    slash-refused = After-check_freeze_status _ (
        After-require_auth env _ _ λ _.
          After-get_escrow _ _
            λ e found. After-guard _ _ _ λ locked. not_locked s h env id found locked)

    release-refused :
        After (λ a d. ⊥) s (execute_mutual_release token_host self env by id amount to)
    unfolding execute_mutual_release
    release-refused = After-check_freeze_status _ (
        After-require_auth env _ _ λ _. After-get_escrow _ _ λ e found.
          After-guard _ _ _ λ _. After-guard _ _ _ λ locked. not_locked s h env id found locked)

    deduct-refused : After (λ a d. ⊥) s (deduct_arrears token_host self env by id amount to)
    unfolding deduct_arrears
    deduct-refused = After-check_freeze_status _ (
        After-require_auth env _ _ λ _.
          After-get_escrow _ _
            λ e found. After-guard _ _ _ λ locked. not_locked s h env id found locked)

module _ {W : Type 0} (token_host : Token W) (self : Address) where
  dispatch-IsPending :
      (env : Env) (r : VaultRequest) (s : VaultStore W)
      → IsPending s
      → After (λ a d. IsPending d) s (dispatch token_host self env r)
  unfolding dispatch
  dispatch-IsPending env (initializes admin council) s h =
      initialize-IsPending s h env admin council
  dispatch-IsPending env (deposits args) s h =
      After-bind _ _
        (After-map (λ _ d k. After-pure _ k) (deposit-IsPending token_host self s h env args))
  dispatch-IsPending env (slashes oracle id amount to) s h =
      After-map (λ _ d never. absurd never)
        (slash-refused token_host self s h env oracle id amount to)
  dispatch-IsPending env (releases releaser id amount to) s h =
      After-map (λ _ d never. absurd never)
        (release-refused token_host self s h env releaser id amount to)
  dispatch-IsPending env (deducts collector id amount to) s h =
      After-map (λ _ d never. absurd never)
        (deduct-refused token_host self s h env collector id amount to)
  dispatch-IsPending env (toggles member freeze reason) s h =
      toggle-IsPending s h env member freeze reason
  dispatch-IsPending env (sets_council admin council) s h =
      set_council-IsPending s h env admin council

  Reach-IsPending :
      {s d : VaultStore W} → s.escrow_entries ≡ none → Reach token_host self s d → IsPending d
  Reach-IsPending e here = rw e tt
  Reach-IsPending e (next {d = d} r (call env q f)) =
      let h = Reach-IsPending e r in
      invoke_keeps IsPending (dispatch token_host self env q) d h (dispatch-IsPending env q d h)
  Reach-IsPending e (next r (outside w more)) = Reach-IsPending e r

  -- However a vault that started without entries is called, by transactions that it does not sign
  -- itself, no entry can ever be paid out: in every state that is reached, slashing, release and
  -- the deduction of arrears do not succeed, whoever calls them, for every entry and amount.
  pub Reach-stuck :
      {s d : VaultStore W}
      → s.escrow_entries ≡ none
      → Reach token_host self s d
      → (env : Env) (by : Address) (id : ℕ) (amount : ℤ) (to : Address)
      → After (λ a e. ⊥) d (execute_oracle_slash token_host self env by id amount to)
        × After (λ a e. ⊥) d (execute_mutual_release token_host self env by id amount to)
        × After (λ a e. ⊥) d (deduct_arrears token_host self env by id amount to)
  Reach-stuck e r env by id amount to =
      let h = Reach-IsPending e r in
      (
        slash-refused token_host self _ h env by id amount to,
        release-refused token_host self _ h env by id amount to,
        deduct-refused token_host self _ h env by id amount to,
      )
