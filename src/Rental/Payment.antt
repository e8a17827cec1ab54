-- ===== src/Rental/Payment.antt =====
-- contracts/leaseflow_contracts/src/lib.rs: rent payments, payers, withdrawals, and the landlord's
-- settings of a lease.
use lease_flow_protocol_cont.Base.{
  ℕ, Bool, false, not, ◌&&◌, none, some, ◌==◌, ℤ, pos, leb_ℤ, Address, Env, ⊤, pure, gets, modify,
  raise_if, or_raise, branch, when_some, ◌>>=◌, ◌>>◌, add_i128, sub_i128, get_or, require_auth,
}
use lease_flow_protocol_cont.Rental.LeaseFlags
use lease_flow_protocol_cont.Rental.LeaseFlags.{has_flag, clear_flag}
use lease_flow_protocol_cont.Rental.Types.{terminated, LeaseInstance, LeaseError, RentalEvent}
use lease_flow_protocol_cont.Rental.Store.{
  World, RentalStore, Rental, publish, load_lease, save_lease_instance, archive_lease, require,
  transfer_tokens, send_nft, lookup2, insert2,
}

-- What a payment of the `payer` adds to the lease's books.
abbrev pub credit : LeaseInstance → ℤ → ℤ → LeaseInstance
credit lease cumulative_payments rent_paid = record lease {
  cumulative_payments = cumulative_payments;
  rent_paid = rent_paid;
}

abbrev pub bought_out : LeaseInstance → LeaseInstance
bought_out lease = record lease {
  flags = clear_flag LeaseFlags.active lease.flags;
  status = terminated;
}

-- Whether the payments reach the price.
abbrev pub is_bought_out : LeaseInstance → Bool
is_bought_out lease = elim lease.buyout_price [
  | none ↦ false
  | some price ↦ leb_ℤ price lease.cumulative_payments
]

module _ {W : Type 0} where
  unfoldable pub get_lease_instance : ℕ → Rental W LeaseInstance
  get_lease_instance lease_id = load_lease lease_id

  unfoldable pub set_lease_instance_buyout_price : Env → ℕ → Address → ℤ → Rental W ⊤
  set_lease_instance_buyout_price env lease_id landlord buyout_price = do
    lease ← load_lease lease_id
    raise_if (not (lease.landlord == landlord)) LeaseError.unauthorised
    require_auth env landlord
    save_lease_instance lease_id (record lease { buyout_price = some buyout_price })

  abbrev pub is_authorized : ℕ → Address → RentalStore W → Bool
  is_authorized lease_id payer s = get_or (lookup2 lease_id payer s.authorized_payers) false

  -- `if let (Some(nft), Some(id)) = ..` and its transfer.
  unfoldable pub hand_over : World W → Address → LeaseInstance → Address → Rental W ⊤
  hand_over world self lease to =
      when_some lease.nft_contract
        λ nft. when_some lease.token_id λ id. send_nft world self nft id to

  unfoldable pub book_payment : ℕ → Address → LeaseInstance → ℤ → Rental W LeaseInstance
  book_payment lease_id payer lease payment_amount = do
    balances ← gets (λ (s : RentalStore W). s.roommate_balances)
    payer_bal ← add_i128 (get_or (lookup2 lease_id payer balances) (pos 0)) payment_amount
    modify (λ (s : RentalStore W). record s {
      roommate_balances = insert2 lease_id payer payer_bal s.roommate_balances;
    })
    cumulative_payments ← add_i128 lease.cumulative_payments payment_amount
    rent_paid ← add_i128 lease.rent_paid payment_amount
    pure (credit lease cumulative_payments rent_paid)

  unfoldable pub pay_lease_instance_rent : World W → Address → Env → ℕ → Address → ℤ → Rental W ⊤
  pay_lease_instance_rent world self env lease_id payer payment_amount = do
    require_auth env payer
    lease ← load_lease lease_id
    require (has_flag LeaseFlags.active lease.flags)
    authorized ← gets (is_authorized lease_id payer)
    raise_if (not (payer == lease.tenant) && not authorized) LeaseError.unauthorised
    transfer_tokens world lease.payment_token payer self payment_amount
    paid ← book_payment lease_id payer lease payment_amount
    publish (RentalEvent.rent_paid_partial lease_id payer payment_amount)
    publish (
        RentalEvent.rent_payment_executed lease_id payer payment_amount env.timestamp
          lease.lessor_reference_id)
    branch (is_bought_out paid)
        (do
          hand_over world self paid paid.tenant
          archive_lease env lease_id (bought_out paid) self)
        (save_lease_instance lease_id paid)

  unfoldable pub set_withdrawal_address : Env → ℕ → Address → Rental W ⊤
  set_withdrawal_address env lease_id withdrawal_address = do
    lease ← load_lease lease_id
    require_auth env lease.landlord
    save_lease_instance lease_id (record lease { withdrawal_address = some withdrawal_address })

  unfoldable pub withdraw_rent : Env → ℕ → Rental W ⊤
  withdraw_rent env lease_id = do
    lease ← load_lease lease_id
    require_auth env lease.landlord
    or_raise lease.withdrawal_address LeaseError.withdrawal_address_not_set
    withdrawable_amount ← sub_i128 lease.rent_paid lease.rent_withdrawn
    rent_withdrawn ← add_i128 lease.rent_withdrawn withdrawable_amount
    save_lease_instance lease_id (record lease { rent_withdrawn = rent_withdrawn })

  unfoldable pub add_authorized_payer : Env → ℕ → Address → Address → Rental W ⊤
  add_authorized_payer env lease_id landlord roommate = do
    lease ← load_lease lease_id
    raise_if (not (lease.landlord == landlord)) LeaseError.unauthorised
    require_auth env landlord
    modify (λ (s : RentalStore W). record s {
      authorized_payers = insert2 lease_id roommate Bool.true s.authorized_payers;
    })
    publish (RentalEvent.roommate_added lease_id roommate)

  abbrev pub get_roommate_balance : RentalStore W → ℕ → Address → ℤ
  get_roommate_balance s lease_id roommate =
      get_or (lookup2 lease_id roommate s.roommate_balances) (pos 0)
