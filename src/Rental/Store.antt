-- ===== src/Rental/Store.antt =====
-- contracts/leaseflow_contracts/src/lib.rs: the contract's storage, the contracts that it calls, and
-- the helpers of its entry points.
use lease_flow_protocol_cont.Base.{
  ℕ, ◌≡◌, Bool, true, false, not, Option, none, some, List, [], ◌∷◌, ◌++◌, Map, lookup, insert,
  erase, ◌==◌, if◌then◌else◌, ℤ, pos, ltb_ℤ, Address, Env, Token, Res, ok, err, panic, Action, ⊤,
  pure, gets, modify, raise_if, or_raise, or_trap, branch, ◌>>=◌, ◌>>◌, get_or, require_auth,
}
use lease_flow_protocol_cont.Velocity.Types.{VelocityError, VelocityStore, Guarded}
use lease_flow_protocol_cont.Rental.Types.{
  DepositStatus, LeaseStatus, pending, active, expired, terminated, dao_arbitration,
  MaintenanceStatus, nothing, reported, fixed, verified, LeaseInstance, HistoricalLease,
  OracleConfig, FallbackHierarchy, LeaseError, RentalEvent,
}

-- The other contracts, whose states are one state `W`, the contract's own address among their
-- callers. No answer stands for a call that traps; `registry_info` answers whether a registry says
-- that it is whitelisted, and `freeze_asset` gives a proof. The managers of access tokens, which
-- the contract calls at a termination, and `add_to_active_leases_index`, which the source calls and
-- does not define, stand here too.
pub record World (W : Type 0) : Type 0 where
  pub token_host : Token W
  pub nft_transfer : W → Address → Address → Address → ℕ → Option W
  pub path_payment : W → Address → Address → Address → ℤ → ℕ → List Address → Option (ℤ × W)
  pub registry_info : W → Address → Option Bool
  pub verify_ownership : W → Address → ℕ → Address → Bool
  pub freeze_asset : W → Address → ℕ → Option (ℕ × W)
  pub thaw_asset : W → Address → ℕ → ℕ → Option W
  pub revoke_tokens : W → ℕ → ℕ → Option W
  pub add_to_active_leases_index : ℕ → List ℕ → Res LeaseError (List ℕ)
  pub signature_holds : ℕ → ℕ → ℕ → Bool
  pub nft_keeps :
      {w w' : W} (c a b : Address) (id : ℕ)
      → nft_transfer w c a b id ≡ some w'
      → token_host.balance w' ≡ token_host.balance w
  pub thaw_keeps :
      {w w' : W} (c : Address) (id proof : ℕ)
      → thaw_asset w c id proof ≡ some w'
      → token_host.balance w' ≡ token_host.balance w

-- The storage: a field for each kind of key, where a missing value is `none` and a missing vector
-- is empty (a proof stands for the two keys of a frozen asset, which come and go together), the host's temporary lock, the velocity guard's keys, and the events, latest first.
pub record RentalStore (W : Type 0) : Type 0 where
  pub leases : Map LeaseInstance
  pub historical_leases : Map HistoricalLease
  pub historical_leases_index : List ℕ
  pub active_leases_index : List ℕ
  pub authorized_payers : Map (Map Bool)
  pub roommate_balances : Map (Map ℤ)
  pub usage_rights : Map (Map ⊤)
  pub freeze_proofs : Map (Map (Map ℕ))
  pub whitelisted_registries : Map Bool
  pub admin : Option Address
  pub platform_fee_amount : Option ℤ
  pub platform_fee_token : Option Address
  pub platform_fee_recipient : Option Address
  pub whitelisted_oracles : Map Bool
  pub oracle_nonces : Map ℕ
  pub oracle_configs : Map OracleConfig
  pub fallback_hierarchy : Option FallbackHierarchy
  pub tenant_flags : Map Bool
  pub security_council : Bool
  pub pending_slashes : Map ℤ
  pub locked : Bool
  pub guard : VelocityStore
  pub tokens : W
  pub events : List RentalEvent

abbrev pub Rental : Type 0 → Type 0 → Type 0
Rental W A = Action (RentalStore W) LeaseError A

abbrev pub status_code : LeaseStatus → ℕ
status_code pending = 0
status_code active = 1
status_code expired = 2
status_code LeaseStatus.disputed = 3
status_code terminated = 4
status_code dao_arbitration = 5

abbrev pub is_status : LeaseStatus → LeaseStatus → Bool
is_status a b = status_code a == status_code b

abbrev pub maintenance_code : MaintenanceStatus → ℕ
maintenance_code nothing = 0
maintenance_code reported = 1
maintenance_code fixed = 2
maintenance_code verified = 3

abbrev pub is_settled : DepositStatus → Bool
is_settled DepositStatus.held = false
is_settled DepositStatus.settled = true
is_settled DepositStatus.disputed = false

abbrev pub lookup2 : {V : Type 0} → ℕ → ℕ → Map (Map V) → Option V
lookup2 j k m = lookup k (get_or (lookup j m) [])

abbrev pub insert2 : {V : Type 0} → ℕ → ℕ → V → Map (Map V) → Map (Map V)
insert2 j k v m = insert j (insert k v (get_or (lookup j m) [])) m

abbrev pub erase2 : {V : Type 0} → ℕ → ℕ → Map (Map V) → Map (Map V)
erase2 j k m = insert j (erase k (get_or (lookup j m) [])) m

abbrev pub of_velocity : VelocityError → LeaseError
of_velocity VelocityError.velocity_limit_exceeded = LeaseError.velocity_limit_exceeded
of_velocity VelocityError.lease_not_found = LeaseError.lease_not_found
of_velocity VelocityError.unauthorised = LeaseError.unauthorised

abbrev pub guard_result : {A : Type 0} → Res VelocityError A → Res LeaseError A
guard_result (ok a) = ok a
guard_result (err e) = err (of_velocity e)
guard_result panic = panic

module _ {W : Type 0} where
  abbrev pub publish : RentalEvent → Rental W ⊤
  publish e = modify (λ s. record s { events = e ∷ s.events })

  -- `load_lease_instance_by_id(..).ok_or(LeaseNotFound)?`
  unfoldable pub load_lease : ℕ → Rental W LeaseInstance
  load_lease lease_id = gets (λ (s : RentalStore W). lookup lease_id s.leases) >>= λ o.
      or_raise o LeaseError.lease_not_found

  abbrev pub save_lease_instance : ℕ → LeaseInstance → Rental W ⊤
  save_lease_instance lease_id lease =
      modify (λ s. record s { leases = insert lease_id lease s.leases })

  abbrev pub archive_lease : Env → ℕ → LeaseInstance → Address → Rental W ⊤
  archive_lease env lease_id lease caller = modify (λ s. record s {
    historical_leases =
        insert lease_id
          (record { lease = lease; terminated_by = caller; terminated_at = env.timestamp })
          s.historical_leases;
    historical_leases_index = s.historical_leases_index ++ lease_id ∷ [];
    leases = erase lease_id s.leases;
  })

  unfoldable pub acquire_reentrancy_lock : Rental W ⊤
  acquire_reentrancy_lock = do
    locked ← gets (λ (s : RentalStore W). s.locked)
    or_trap (if locked then none else some tt)
    modify (λ s. record s { locked = true })

  abbrev pub release_reentrancy_lock : Rental W ⊤
  release_reentrancy_lock = modify (λ s. record s { locked = false })

  -- Whether the stored admin is the caller.
  abbrev pub is_admin : Address → RentalStore W → Bool
  is_admin caller s = elim s.admin [ none ↦ false | some admin ↦ admin == caller ]

  -- The check of the entry points that the admin alone may call.
  unfoldable pub require_admin : Env → Address → Rental W ⊤
  require_admin env admin = do
    stored ← gets (λ (s : RentalStore W). s.admin)
    stored_admin ← or_raise stored LeaseError.unauthorised
    raise_if (not (admin == stored_admin)) LeaseError.unauthorised
    require_auth env admin

  -- `require!(condition, ..)` panics.
  abbrev pub require : Bool → Rental W ⊤
  require condition = or_trap (if condition then some tt else none)

  unfoldable pub transfer_tokens : World W → Address → Address → Address → ℤ → Rental W ⊤
  transfer_tokens world token from to amount = do
    w ← gets (λ (s : RentalStore W). s.tokens)
    w' ← or_trap (world.token_host.transfer w token from to amount)
    modify (λ s. record s { tokens = w' })

  -- `if amount > 0 { .. transfer .. }`
  unfoldable pub pay_out : World W → Address → Address → Address → ℤ → Rental W ⊤
  pay_out world token from to amount =
      branch (ltb_ℤ (pos 0) amount) (transfer_tokens world token from to amount) (pure tt)

  -- `transfer_from` of a lease's token, held by the contract.
  unfoldable pub send_nft : World W → Address → Address → ℕ → Address → Rental W ⊤
  send_nft world self nft id to = do
    w ← gets (λ (s : RentalStore W). s.tokens)
    w' ← or_trap (world.nft_transfer w nft self to id)
    modify (λ s. record s { tokens = w' })

  abbrev pub delete_usage_rights : Address → ℕ → Rental W ⊤
  delete_usage_rights nft id =
      modify (λ s. record s { usage_rights = erase2 nft id s.usage_rights })

  -- A call of the velocity guard, on its part of the storage.
  unfoldable pub guarded : {A : Type 0} → Guarded A → Rental W A
  guarded m s = let (r, g) = m s.guard in (guard_result r, record s { guard = g })
