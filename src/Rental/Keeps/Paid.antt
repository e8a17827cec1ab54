-- ===== src/Rental/Keeps/Paid.antt =====
-- Creation, rent payments, repairs and late fees keep the books.
use lease_flow_protocol_cont.Base.{
  ℕ, ◌≡◌, refl, arith, ℤ, pos, ◌+ℤ◌, int_laws, parts, Address, Env, ◌>>=◌, ◌>>◌, After, After-pure,
  After-gets, After-bind, After-guard, After-found, After-checked, After-branch, After-if_some,
  After-modify, After-modified,
}
use lease_flow_protocol_cont.Rental.LeaseFlags.{has_flag-set_flag}
use lease_flow_protocol_cont.Rental.Types.{LeaseInstance}
use lease_flow_protocol_cont.Rental.Store.{World, RentalStore, Rental}
use lease_flow_protocol_cont.Rental.Payment.{
  set_lease_instance_buyout_price, pay_lease_instance_rent, book_payment, credit, hand_over,
  set_withdrawal_address, withdraw_rent, add_authorized_payer,
}
use lease_flow_protocol_cont.Rental.Maintenance.{
  set_inspector, report_maintenance_issue, submit_repair_proof, verify_repair, charge_flat_fee,
  charge_seconds, charge_late_fees, check_tenant_default,
}
use lease_flow_protocol_cont.Rental.Books.{
  IsConsistent, IsCollected, IsCollected-of, save-Consistent, erase-Consistent, credit-Consistent,
  credited, collected-credited, late_fee_split,
}
use lease_flow_protocol_cont.Rental.Rules.{
  After-load_lease, After-require, After-transfer_tokens, nft_sent,
}

abbrev pub KeepsBooks : {W A : Type 0} → A → RentalStore W → Type 0
KeepsBooks a s = IsConsistent s

module _ {W A : Type 0} {Q : A → RentalStore W → Type 0} {s : RentalStore W} where
  pub After-hand_over :
      (world : World W) (self : Address) (l : LeaseInstance) (to : Address) (k : Rental W A)
      → ((w : W)
          → world.token_host.balance w ≡ world.token_host.balance s.tokens
          → After Q (record s { tokens = w }) k)
      → After Q s (hand_over world self l to >> k)
  unfolding hand_over
  After-hand_over world self l to k h = After-bind _ _ (
      After-if_some _ _ _
        (λ nft _.
          After-if_some _ _ _ (λ id _. nft_sent world self nft id to h)
            (λ _. After-pure _ (h s.tokens refl)))
        (λ _. After-pure _ (h s.tokens refl)))

  pub After-book_payment :
      (lease_id payer : ℕ) (l : LeaseInstance) (amount : ℤ) (f : LeaseInstance → Rental W A)
      (units : ℕ)
      → amount ≡ pos units
      → After Q
          (record s { roommate_balances = credited lease_id payer units s.roommate_balances })
          (f (credit l (l.cumulative_payments +ℤ pos units) (l.rent_paid +ℤ pos units)))
      → After Q s (book_payment lease_id payer l amount >>= f)
  unfolding book_payment
  After-book_payment lease_id payer l amount f units e h = rw e (
      After-bind _ _ (
        After-bind _ _ (
          After-gets _ (
            After-checked _ _ _ λ _.
              After-modified _ _
                (After-checked _ _ _ λ _. After-checked _ _ _ λ _. After-pure _ h)))))

  -- The late fees of a lease that is balanced.
  After-charge_flat_fee :
      (balances : _) (id : ℕ) (l : LeaseInstance) (f : LeaseInstance → Rental W A)
      → IsCollected balances id l
      → ((l' : LeaseInstance) → IsCollected balances id l' → After Q s (f l'))
      → After Q s (charge_flat_fee l >>= f)
  unfolding charge_flat_fee
  After-charge_flat_fee balances id l f k h = After-bind _ _ (
      After-branch _ _ _ (λ _. After-pure _ (h l k))
        λ fresh. After-checked _ _ _ λ _. After-pure _ (
          h _ (record {
            recorded = k.recorded;
            released = k.released;
            started = k.started;
            covered = k.covered;
            charged =
                rw (has_flag-set_flag l.flags)
                  (let old = rw fresh at k.charged in omega (int_laws, parts old));
            bounded = k.bounded;
            unarbitrated = k.unarbitrated;
          })))

  After-charge_seconds :
      (balances : _) (id n : ℕ) (l : LeaseInstance) (f : LeaseInstance → Rental W A)
      → IsCollected balances id l
      → ((l' : LeaseInstance) → IsCollected balances id l' → After Q s (f l'))
      → After Q s (charge_seconds n l >>= f)
  unfolding charge_seconds
  After-charge_seconds balances id n l f k h = After-bind _ _ (
      After-branch _ _ _
        (λ more. After-checked _ _ _ λ _. After-checked _ _ _ λ _. After-pure _ (
          h _ (record {
            recorded = k.recorded;
            released = k.released;
            started = k.started;
            covered = k.covered;
            charged =
                let split =
                  late_fee_split l.seconds_late_charged n l.late_fee_per_sec (ground arith) in
                omega (int_laws, parts k.charged, parts split);
            bounded = k.bounded;
            unarbitrated = k.unarbitrated;
          })))
        (λ _. After-pure _ (h l k)))

module _ {W A : Type 0} {Q : A → RentalStore W → Type 0} {s : RentalStore W} where
  After-charge_late_fees :
      (env : Env) (id : ℕ) (l : LeaseInstance) (f : LeaseInstance → Rental W A)
      → IsCollected s.roommate_balances id l
      → ((l' : LeaseInstance) (events : _)
          → IsCollected s.roommate_balances id l'
          → After Q (record s { events = events }) (f l'))
      → After Q s (charge_late_fees env id l >>= f)
  unfolding charge_late_fees
  After-charge_late_fees env id l f k h = After-bind _ _ (
      After-branch _ _ _
        (λ _. After-charge_flat_fee s.roommate_balances id l _ k λ flat k1.
          After-charge_seconds s.roommate_balances id _ flat _ k1
            λ l' k2. After-modified _ _ (After-pure _ (h l' _ k2)))
        (λ _. After-pure _ (h l s.events k)))

module _ {W : Type 0} (env : Env) (s : RentalStore W) (h : IsConsistent s) (id : ℕ) where
  pub set_buyout_price-Keeps :
      (landlord : Address) (price : ℤ)
      → After KeepsBooks s (set_lease_instance_buyout_price env id landlord price)
  unfolding set_lease_instance_buyout_price
  set_buyout_price-Keeps landlord price = After-load_lease _ _ λ l found. After-guard _ _ _ λ _.
      After-checked _ _ _ λ _. After-modify _ (save-Consistent h id _ (IsCollected-of h id found))

  pub set_withdrawal_address-Keeps :
      (to : Address) → After KeepsBooks s (set_withdrawal_address env id to)
  unfolding set_withdrawal_address
  set_withdrawal_address-Keeps to = After-load_lease _ _ λ l found.
      After-checked _ _ _ λ _. After-modify _ (save-Consistent h id _ (IsCollected-of h id found))

  pub set_inspector-Keeps :
      (landlord inspector : Address) → After KeepsBooks s (set_inspector env id landlord inspector)
  unfolding set_inspector
  set_inspector-Keeps landlord inspector = After-load_lease _ _ λ l found. After-guard _ _ _ λ _.
      After-checked _ _ _ λ _. After-modify _ (save-Consistent h id _ (IsCollected-of h id found))

  pub report_maintenance_issue-Keeps :
      (tenant : Address) → After KeepsBooks s (report_maintenance_issue env id tenant)
  unfolding report_maintenance_issue
  report_maintenance_issue-Keeps tenant = After-load_lease _ _ λ l found. After-guard _ _ _ λ _.
      After-checked _ _ _ λ _.
        After-modified _ _ (After-modify _ (save-Consistent h id _ (IsCollected-of h id found)))

  pub submit_repair_proof-Keeps :
      (landlord : Address) (proof : ℕ)
      → After KeepsBooks s (submit_repair_proof env id landlord proof)
  unfolding submit_repair_proof
  submit_repair_proof-Keeps landlord proof = After-load_lease _ _ λ l found. After-guard _ _ _ λ _.
      After-checked _ _ _ λ _. After-require _ _ λ _.
        After-modified _ _ (After-modify _ (save-Consistent h id _ (IsCollected-of h id found)))

  pub verify_repair-Keeps :
      (inspector : Address) → After KeepsBooks s (verify_repair env id inspector)
  unfolding verify_repair
  verify_repair-Keeps inspector = After-load_lease _ _ λ l found.
      let k = IsCollected-of h id found in
      After-found _ _ _ λ expected _. After-guard _ _ _ λ _. After-checked _ _ _ λ _.
        After-require _ _ λ _. After-checked _ _ _ λ _. After-checked _ _ _ λ _.
          After-modified _ _ (
            After-modify _ (
              save-Consistent h id _ (record {
                recorded = omega (int_laws, parts k.recorded);
                released = refl;
                started = k.started;
                covered = omega (int_laws, k.covered, parts k.released);
                charged = k.charged;
                bounded = omega (int_laws, k.bounded, parts k.released);
                unarbitrated = k.unarbitrated;
              })))

  pub check_tenant_default-Keeps : After KeepsBooks s (check_tenant_default env id)
  unfolding check_tenant_default
  check_tenant_default-Keeps = After-load_lease _ _ λ l found.
      After-charge_late_fees env id l _ (IsCollected-of h id found) λ l' events k.
        After-checked _ _ _ λ _. After-bind _ _ (
          After-branch _ _ _
            (λ _. After-modify _ (After-modified _ _ (After-pure _ (save-Consistent h id l' k))))
            (λ _. After-pure _ (After-modified _ _ (After-pure _ (save-Consistent h id l' k)))))

  pub withdraw_rent-Keeps : After KeepsBooks s (withdraw_rent env id)
  unfolding withdraw_rent
  withdraw_rent-Keeps = After-load_lease _ _ λ l found.
      let k = IsCollected-of h id found in
      After-checked _ _ _ λ _. After-found _ _ _ λ to _. After-checked _ _ _ λ _.
        After-checked _ _ _ λ _. After-modify _ (
          save-Consistent h id _ (record {
            recorded = k.recorded;
            released = k.released;
            started = omega (int_laws, k.started, k.covered);
            covered = omega int_laws;
            charged = k.charged;
            bounded = k.bounded;
            unarbitrated = k.unarbitrated;
          }))

  pub add_authorized_payer-Keeps :
      (landlord roommate : Address)
      → After KeepsBooks s (add_authorized_payer env id landlord roommate)
  unfolding add_authorized_payer
  add_authorized_payer-Keeps landlord roommate = After-load_lease _ _ λ l found.
      After-guard _ _ _ λ _. After-checked _ _ _ λ _. After-modified _ _ (After-modify _ h)

  pub pay_rent-Keeps :
      (world : World W) (self payer : Address) (amount : ℤ)
      → After KeepsBooks s (pay_lease_instance_rent world self env id payer amount)
  unfolding pay_lease_instance_rent
  pay_rent-Keeps world self payer amount = After-checked _ _ _ λ _. After-load_lease _ _ λ l found.
      After-require _ _ λ _. After-bind _ _ (
        After-gets _ (
          After-guard _ _ _ λ _. After-transfer_tokens _ _ _ _ _ _ λ w m.
            After-book_payment id payer l amount _ m.units m.exact (
              After-modified _ _ (
                After-modified _ _ (
                  let grown = credit-Consistent h id payer m.units in
                  let more = collected-credited id payer m.units s.roommate_balances h.counts in
                  let k = IsCollected-of h id found in
                  After-branch _ _ _
                    (λ _.
                      After-hand_over _ _ _ _ _ λ w' _. After-modify _ (erase-Consistent grown id))
                    (λ _. After-modify _ (
                      save-Consistent grown id _ (record {
                        recorded = omega (int_laws, parts k.recorded);
                        released = k.released;
                        started = k.started;
                        covered = omega (int_laws, k.covered);
                        charged = k.charged;
                        bounded = omega (int_laws, k.bounded, more);
                        unarbitrated = k.unarbitrated;
                      }))))))))
