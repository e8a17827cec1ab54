-- ===== src/Rental/Keeps/Settings.antt =====
-- The settings of the admin, the registries and the oracles keep the books.
use lease_flow_protocol_cont.Base.{
  ℕ, refl, Bool, Address, Env, ℤ, After, After-bind, After-gets, After-guard, After-found,
  After-modify, After-modified, After-or_raise,
}
use lease_flow_protocol_cont.Rental.Store.{World, RentalStore}
use lease_flow_protocol_cont.Rental.Admin.{
  initialize, set_admin, set_platform_fee, add_whitelisted_registry, remove_whitelisted_registry,
}
use lease_flow_protocol_cont.Rental.Oracle.{
  whitelist_oracle, remove_oracle, set_fallback_hierarchy, reset_oracle_status, get_oracle_config,
}
use lease_flow_protocol_cont.Rental.Books.{IsConsistent}
use lease_flow_protocol_cont.Rental.Rules.{After-require_admin}
use lease_flow_protocol_cont.Rental.Keeps.Paid.{KeepsBooks}

module _ {W : Type 0} (env : Env) (s : RentalStore W) (h : IsConsistent s) (admin : Address) where
  pub initialize-Keeps : After KeepsBooks s (initialize admin)
  unfolding initialize
  initialize-Keeps = After-modify _ h

  pub set_admin-Keeps : After KeepsBooks s (set_admin admin)
  unfolding set_admin
  set_admin-Keeps = After-bind _ _ (After-gets _ (After-guard _ _ _ λ _. After-modify _ h))

  pub set_platform_fee-Keeps :
      (amount : ℤ) (token recipient : Address)
      → After KeepsBooks s (set_platform_fee env admin amount token recipient)
  unfolding set_platform_fee
  set_platform_fee-Keeps amount token recipient = After-require_admin _ _ _ λ _. After-modify _ h

  pub add_registry-Keeps :
      (world : World W) (registry : Address)
      → After KeepsBooks s (add_whitelisted_registry world env admin registry)
  unfolding add_whitelisted_registry
  add_registry-Keeps world registry = After-require_admin _ _ _ λ _.
      After-bind _ _
        (After-gets _ (After-found _ _ _ λ _ _. After-guard _ _ _ λ _. After-modify _ h))

  pub remove_registry-Keeps :
      (registry : Address) → After KeepsBooks s (remove_whitelisted_registry env admin registry)
  unfolding remove_whitelisted_registry
  remove_registry-Keeps registry = After-require_admin _ _ _ λ _. After-modify _ h

  pub whitelist_oracle-Keeps : (oracle : ℕ) → After KeepsBooks s (whitelist_oracle env admin oracle)
  unfolding whitelist_oracle
  whitelist_oracle-Keeps oracle = After-require_admin _ _ _ λ _. After-modify _ h

  pub remove_oracle-Keeps : (oracle : ℕ) → After KeepsBooks s (remove_oracle env admin oracle)
  unfolding remove_oracle
  remove_oracle-Keeps oracle = After-require_admin _ _ _ λ _. After-modify _ h

  pub reset_oracle-Keeps : (oracle : ℕ) → After KeepsBooks s (reset_oracle_status env admin oracle)
  unfolding reset_oracle_status get_oracle_config
  reset_oracle-Keeps oracle = After-require_admin _ _ _ λ _.
      After-bind _ _ (After-bind _ _ (After-gets _ (After-or_raise _ _ λ _ _. After-modify _ h)))

  -- The hierarchy that the admin sets is not active.
  pub set_hierarchy-Keeps :
      (first second : ℕ) (dao : Bool)
      → After KeepsBooks s (set_fallback_hierarchy env admin first second dao)
  unfolding set_fallback_hierarchy
  set_hierarchy-Keeps first second dao = After-require_admin _ _ _ λ _. After-bind _ _ (
      After-gets _ (
        After-guard _ _ _ λ _. After-bind _ _ (
          After-gets _ (
            After-guard _ _ _ λ _. After-guard _ _ _ λ _. After-modified _ _ (
              After-modified _ _ (
                After-modify _ (record {
                  books = h.books;
                  counts = h.counts;
                  unlocked = h.unlocked;
                  inactive = refl;
                })))))))
