-- ===== src/Rental/Admin.antt =====
-- contracts/leaseflow_contracts/src/lib.rs: the admin, the platform's fee and the registries.
use lease_flow_protocol_cont.Base.{
  true, not, some, insert, erase, is_some, ℤ, Address, Env, ⊤, gets, modify, raise_if, or_raise,
  ◌>>=◌, ◌>>◌,
}
use lease_flow_protocol_cont.Rental.Types.{LeaseError}
use lease_flow_protocol_cont.Rental.Store.{World, RentalStore, Rental, require_admin}

module _ {W : Type 0} where
  -- Nobody's authorisation is asked for, and an admin that is there is replaced.
  unfoldable pub initialize : Address → Rental W ⊤
  initialize admin = modify (λ (s : RentalStore W). record s { admin = some admin })

  unfoldable pub set_admin : Address → Rental W ⊤
  set_admin admin = do
    taken ← gets (λ (s : RentalStore W). is_some s.admin)
    raise_if taken LeaseError.unauthorised
    modify (λ (s : RentalStore W). record s { admin = some admin })

  unfoldable pub set_platform_fee : Env → Address → ℤ → Address → Address → Rental W ⊤
  set_platform_fee env admin fee_amount fee_token fee_recipient = do
    require_admin env admin
    modify (λ (s : RentalStore W). record s {
      platform_fee_amount = some fee_amount;
      platform_fee_token = some fee_token;
      platform_fee_recipient = some fee_recipient;
    })

  unfoldable pub add_whitelisted_registry : World W → Env → Address → Address → Rental W ⊤
  add_whitelisted_registry world env admin registry = do
    require_admin env admin
    w ← gets (λ (s : RentalStore W). s.tokens)
    whitelisted ← or_raise (world.registry_info w registry) LeaseError.asset_registry_invalid
    raise_if (not whitelisted) LeaseError.asset_registry_invalid
    modify (λ (s : RentalStore W). record s {
      whitelisted_registries = insert registry true s.whitelisted_registries;
    })

  unfoldable pub remove_whitelisted_registry : Env → Address → Address → Rental W ⊤
  remove_whitelisted_registry env admin registry = do
    require_admin env admin
    modify (λ (s : RentalStore W). record s {
      whitelisted_registries = erase registry s.whitelisted_registries;
    })
