-- ===== src/Timelock/Approvals.antt =====
-- contracts/leaseflow_contracts/src/timelock_upgrade.rs: where the approvals of a proposal come from.
use lease_flow_protocol_cont.Base.{
  ℕ, ◌≡◌, ◌⊎◌, inl, inr, refl, arith, true, some, List, [], ◌∷◌, ◌++◌, lookup, insert,
  lookup-insert, ◌==◌, Address, Env, mem, After, After-pure, After-gets, After-bind, After-guard,
  After-checked, After-modified, After-modify, After-require_auth, Bool-cases, Bool, Map, get_or,
  if◌then◌else◌, ap, sym, ◌∙◌,
}
use lease_flow_protocol_cont.Timelock.Types.{UpgradeProposal, TimelockStore}
use lease_flow_protocol_cont.Timelock.Calls.{
  is_signer, initialize_timelock, add_signer, remove_signer, propose_upgrade, approve_upgrade,
  execute_upgrade, cancel_upgrade,
}
use lease_flow_protocol_cont.Timelock.Entries.{After-require_signer, After-find_proposal}

-- The proposal `id` is stored with an approval of `a`.
abbrev pub HasApproval : Map UpgradeProposal → Address → ℕ → Type 0
HasApproval m a id = (p : UpgradeProposal) × (lookup id m ≡ some p) × (mem a p.approvals ≡ true)

-- Every approval in `d` was in `s`, except one of `b` for the proposal `k`.
abbrev pub Inherits : TimelockStore → TimelockStore → Type 0
Inherits s d = (a : Address) (id : ℕ) → HasApproval d.proposals a id → HasApproval s.proposals a id

pub record IsSigned (env : Env) (s : TimelockStore) (a : Address) : Type 0 where
  pub authorised : env.auth a ≡ true
  pub known : is_signer s a ≡ true

abbrev pub InheritsBut : Env → TimelockStore → Address → ℕ → TimelockStore → Type 0
InheritsBut env s b k d =
    (a : Address) (id : ℕ)
    → HasApproval d.proposals a id
    → HasApproval s.proposals a id ⊎ ((a ≡ b) × (id ≡ k) × IsSigned env s a)

insert-cases :
    (id k : ℕ) (q r : UpgradeProposal) (m : Map UpgradeProposal)
    → lookup id (insert k q m) ≡ some r
    → ((id ≡ k) × (r ≡ q)) ⊎ (lookup id m ≡ some r)
insert-cases id k q r m h = elim (Bool-cases (id == k)) [
  | inl this ↦
      let e : some q ≡ some r =
        ap (λ (b : Bool). if b then some q else lookup id m) (sym this)
        ∙ sym (lookup-insert id k q m)
        ∙ h in
      inl (ground arith, ap (λ o. get_or o q) (sym e))
  | inr other ↦ inr (
      ap (λ (b : Bool). if b then some q else lookup id m) (sym other)
      ∙ sym (lookup-insert id k q m)
      ∙ h)
]

-- A proposal is replaced by one with the same approvals.
HasApproval-insert :
    (m : Map UpgradeProposal) (k : ℕ) (p q : UpgradeProposal)
    → lookup k m ≡ some p
    → q.approvals ≡ p.approvals
    → (a : Address) (id : ℕ) → HasApproval (insert k q m) a id
    → HasApproval m a id
HasApproval-insert m k p q found same a id (r, there, has) = elim (insert-cases id k q r m there) [
  | inl (this, is) ↦ (
    p,
    ap (λ j. lookup j m) this ∙ found,
    ap (λ xs. mem a xs) (sym (ap (λ (x : UpgradeProposal). x.approvals) is ∙ same)) ∙ has,
  )
  | inr kept ↦ (r, kept, has)
]

mem-snoc_cases :
    (a b : Address) (xs : List Address) → mem a (xs ++ b ∷ []) ≡ true → (mem a xs ≡ true) ⊎ (a ≡ b)
mem-snoc_cases a b [] h = inr (ground arith)
mem-snoc_cases a b (x ∷ xs) h = ground (arith, mem-snoc_cases a b xs)

module _ (env : Env) (s : TimelockStore) where
  pub initialize-Inherits :
      (admin : Address) (duration approvals : ℕ)
      → After (λ _ d. Inherits s d) s (initialize_timelock env admin duration approvals)
  unfolding initialize_timelock
  initialize-Inherits admin duration approvals = After-require_auth env _ _ λ _.
      After-bind _ _
        (After-gets _ (After-guard _ _ _ λ _. After-modified _ _ (After-modify _ λ a id h. h)))

  pub add_signer-Inherits :
      (caller new_signer : Address)
      → After (λ _ d. Inherits s d) s (add_signer env caller new_signer)
  unfolding add_signer
  add_signer-Inherits caller new_signer =
      After-require_auth env _ _
        λ _. After-require_signer _ _ λ _. After-modified _ _ (After-modify _ λ a id h. h)

  pub remove_signer-Inherits :
      (caller signer : Address) → After (λ _ d. Inherits s d) s (remove_signer env caller signer)
  unfolding remove_signer
  remove_signer-Inherits caller signer =
      After-require_auth env _ _
        λ _. After-require_signer _ _ λ _. After-modified _ _ (After-modify _ λ a id h. h)

  pub propose-Inherits :
      (proposer : Address) (hash : ℕ) (description : List ℕ)
      → After (λ _ d. Inherits s d) s (propose_upgrade env proposer hash description)
  unfolding propose_upgrade
  propose-Inherits proposer hash description = After-require_auth env _ _ λ _.
      After-require_signer _ _ λ _. After-bind _ _ (
        After-gets _ (
          After-checked _ _ _ λ _. After-checked _ _ _ λ _. After-modified _ _ (
            After-modified _ _ (
              After-pure _ λ a id h. elim (insert-cases id _ _ h.0 s.proposals h.1) [
                | inl (this, is) ↦
                    absurd (
                      no_approval a
                        (ap (λ (x : UpgradeProposal). mem a x.approvals) (sym is) ∙ h.2))
                | inr kept ↦ (h.0, kept, h.2)
              ]))))
    where
      no_approval : (a : Address) → mem a [] ≡ true → ⊥
      no_approval a h = cc

  pub execute-Inherits :
      (executor : Address) (k : ℕ) → After (λ _ d. Inherits s d) s (execute_upgrade env executor k)
  unfolding execute_upgrade
  execute-Inherits executor k = After-require_auth env _ _ λ _. After-find_proposal _ _ λ p found.
      After-guard _ _ _ λ _. After-guard _ _ _ λ _. After-bind _ _ (
        After-gets _ (
          After-modified _ _ (
            After-modified _ _ (
              After-modified _ _
                (After-modify _ (HasApproval-insert s.proposals k p _ found refl))))))

  pub cancel-Inherits :
      (canceller : Address) (k : ℕ) (reason : List ℕ)
      → After (λ _ d. Inherits s d) s (cancel_upgrade env canceller k reason)
  unfolding cancel_upgrade
  cancel-Inherits canceller k reason = After-require_auth env _ _ λ _. After-require_signer _ _ λ _.
      After-find_proposal _ _ λ p found. After-guard _ _ _ λ _.
        After-guard _ _ _
          λ _. After-modified _ _ (After-modify _ (HasApproval-insert s.proposals k p _ found refl))

  pub approve-Inherits :
      (approver : Address) (k : ℕ)
      → After (λ _ d. InheritsBut env s approver k d) s (approve_upgrade env approver k)
  unfolding approve_upgrade
  approve-Inherits approver k = After-require_auth env _ _ λ signed.
      After-require_signer _ _ λ known. After-find_proposal _ _ λ p found. After-guard _ _ _ λ _.
        After-guard _ _ _ λ _. After-guard _ _ _ λ _. After-checked _ _ _ λ _. After-modified _ _ (
          After-modify _ λ a id h. elim (insert-cases id k _ h.0 s.proposals h.1) [
            | inl (this, is) ↦
                let has : mem a (p.approvals ++ approver ∷ []) ≡ true =
                  ap (λ (x : UpgradeProposal). mem a x.approvals) (sym is) ∙ h.2 in
                elim (mem-snoc_cases a approver p.approvals has) [
                  | inl before ↦ inl (p, ap (λ j. lookup j s.proposals) this ∙ found, before)
                  | inr new ↦ inr (
                    new,
                    this,
                    record {
                      authorised = ap env.auth new ∙ signed;
                      known = ap (λ b. is_signer s b) new ∙ known;
                    },
                  )
                ]
            | inr kept ↦ inl (h.0, kept, h.2)
          ])
