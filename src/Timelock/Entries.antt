-- ===== src/Timelock/Entries.antt =====
-- What each entry point of the timelock does to sound storage.
use lease_flow_protocol_cont.Base.{
  ℕ, ◌≡◌, inl, inr, refl, arith, true, some, List, lookup, lookup-insert_self, Address, Env, ◌>>◌,
  After, After-pure, After-gets, After-bind, After-guard, After-checked, After-modified,
  After-modify, After-require_auth, ◌>>=◌, After-raise_if, After-or_raise, length-snoc,
}
use lease_flow_protocol_cont.Timelock.Types.{approved, UpgradeProposal, TimelockStore, Timelocked}
use lease_flow_protocol_cont.Timelock.Calls.{
  find_proposal, require_signer, is_signer, initialize_timelock, add_signer, remove_signer,
  propose_upgrade, approve_upgrade, execute_upgrade, cancel_upgrade,
}
use lease_flow_protocol_cont.Timelock.Invariant.{
  IsSound, Evolves, is_status-eq, IsDistinct-snoc, replace-Evolves,
}
use lease_flow_protocol_cont.Timelock.Evolving.{
  IsGood-of, set_of, signers-Evolves, set-Evolves, add-Evolves,
}

pub After-require_signer :
    {A : Type 0} {Q : A → TimelockStore → Type 0} {s : TimelockStore} (a : Address)
    (k : Timelocked A)
    → (is_signer s a ≡ true → After Q s k)
    → After Q s (require_signer a >> k)
unfolding require_signer
After-require_signer a k h =
    After-bind _ _ (After-bind _ _ (After-gets _ (After-raise_if _ _ λ e. h (ground arith))))

pub After-find_proposal :
    {A : Type 0} {Q : A → TimelockStore → Type 0} {s : TimelockStore} (id : ℕ)
    (f : UpgradeProposal → Timelocked A)
    → ((p : UpgradeProposal) → lookup id s.proposals ≡ some p → After Q s (f p))
    → After Q s (find_proposal id >>= f)
After-find_proposal id f h = After-bind _ _ (After-bind _ _ (After-gets _ (After-or_raise _ _ h)))

module _ (env : Env) (s : TimelockStore) (h : IsSound s) where
  pub initialize-Evolves :
      (admin : Address) (duration approvals : ℕ)
      → After
          (λ a d. Evolves env.timestamp s d)
          s
          (initialize_timelock env admin duration approvals)
  unfolding initialize_timelock
  initialize-Evolves admin duration approvals = After-require_auth env _ _ λ _. After-bind _ _ (
      After-gets _ (
        After-guard _ _ _ λ e.
          After-modified _ _
            (After-modify _ (set-Evolves env.timestamp s h _ e refl refl (ground arith) refl))))

  pub add_signer-Evolves :
      (caller new_signer : Address)
      → After (λ a d. Evolves env.timestamp s d) s (add_signer env caller new_signer)
  unfolding add_signer
  add_signer-Evolves caller new_signer = After-require_auth env _ _ λ _.
      After-require_signer _ _ λ k.
        After-modified _ _
          (After-modify _ (signers-Evolves env.timestamp s h _ _ (set_of caller h k)))

  pub remove_signer-Evolves :
      (caller signer : Address)
      → After (λ a d. Evolves env.timestamp s d) s (remove_signer env caller signer)
  unfolding remove_signer
  remove_signer-Evolves caller signer = After-require_auth env _ _ λ _.
      After-require_signer _ _ λ k.
        After-modified _ _
          (After-modify _ (signers-Evolves env.timestamp s h _ _ (set_of caller h k)))

  pub propose-Evolves :
      (proposer : Address) (hash : ℕ) (description : List ℕ)
      → After (λ a d. Evolves env.timestamp s d) s (propose_upgrade env proposer hash description)
  unfolding propose_upgrade
  propose-Evolves proposer hash description = After-require_auth env _ _ λ _.
      After-require_signer _ _ λ k. After-bind _ _ (
        After-gets _ (
          After-checked _ _ _ λ _. After-checked _ _ _ λ _. After-modified _ _ (
            After-modified _ _ (
              After-pure _ (
                add-Evolves env.timestamp s h _ _ (set_of proposer h k) refl refl refl refl refl
                  (record {
                    id_lt = omega arith;
                    count = refl;
                    distinct = tt;
                    required_pos = h.floor;
                    quorum = λ e. cc;
                    delay = refl;
                  }))))))

  pub approve-Evolves :
      (approver : Address) (id : ℕ)
      → After (λ a d. Evolves env.timestamp s d) s (approve_upgrade env approver id)
  unfolding approve_upgrade
  approve-Evolves approver id = After-require_auth env _ _ λ _. After-require_signer _ _ λ k.
      After-find_proposal _ _ λ p found. After-guard _ _ _ λ open₁. After-guard _ _ _ λ open₂.
        After-guard _ _ _ λ fresh. After-checked _ _ _ λ _. After-modified _ _ (
          After-modify _ (
            let g = IsGood-of h found in
            replace-Evolves _ _ _ id p _ h found (ground arith)
              (record {
                id_lt = g.id_lt;
                count = omega (arith, g.count, length-snoc p.approvals approver);
                distinct = IsDistinct-snoc _ _ g.distinct fresh;
                required_pos = g.required_pos;
                quorum = ground (arith, g.quorum);
                delay = g.delay;
              })
              refl refl refl refl refl (inl refl)))

  pub execute-Evolves :
      (executor : Address) (id : ℕ)
      → After (λ a d. Evolves env.timestamp s d) s (execute_upgrade env executor id)
  unfolding execute_upgrade
  execute-Evolves executor id = After-require_auth env _ _ λ _. After-find_proposal _ _ λ p found.
      After-guard _ _ _ λ ready. After-guard _ _ _ λ late. After-bind _ _ (
        After-gets _ (
          After-modified _ _ (
            After-modified _ _ (
              After-modified _ _ (
                After-modify _ (
                  let g = IsGood-of h found in
                  let was : p.status ≡ approved = is_status-eq _ _ (ground arith) in
                  replace-Evolves _ _ _ id p _ h found (rw was refl)
                    (record {
                      id_lt = g.id_lt;
                      count = g.count;
                      distinct = g.distinct;
                      required_pos = g.required_pos;
                      quorum = λ _. g.quorum (rw was refl);
                      delay = g.delay;
                    })
                    refl refl refl refl refl
                    (inr (record {
                      id = id;
                      proposal = p;
                      found = found;
                      hash = refl;
                      marked = lookup-insert_self id _ s.proposals;
                      was_approved = was;
                      enough = omega (arith, g.count, g.quorum (rw was refl));
                      distinct = g.distinct;
                      waited = ground (arith, g.delay);
                    }))))))))

  pub cancel-Evolves :
      (canceller : Address) (id : ℕ) (reason : List ℕ)
      → After (λ a d. Evolves env.timestamp s d) s (cancel_upgrade env canceller id reason)
  unfolding cancel_upgrade
  cancel-Evolves canceller id reason = After-require_auth env _ _ λ _. After-require_signer _ _ λ k.
      After-find_proposal _ _ λ p found. After-guard _ _ _ λ open₁. After-guard _ _ _ λ open₂.
        After-modified _ _ (
          After-modify _ (
            let g = IsGood-of h found in
            replace-Evolves _ _ _ id p _ h found (ground arith)
              (record {
                id_lt = g.id_lt;
                count = g.count;
                distinct = g.distinct;
                required_pos = g.required_pos;
                quorum = λ e. cc;
                delay = g.delay;
              })
              refl refl refl refl refl (inl refl)))
