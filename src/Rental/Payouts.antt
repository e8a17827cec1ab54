-- ===== src/Rental/Payouts.antt =====
-- contracts/leaseflow_contracts/src/lib.rs: what the two payouts of a deposit do to the balances.
use lease_flow_protocol_cont.Base.{
  ◌+◌, ◌≡◌, ◌≢◌, refl, sym, ◌∙◌, arith, false, ℤ, pos, pos_part, ltb_ℤ, Address, ◌>>◌, After, parts,
}
use lease_flow_protocol_cont.Rental.Store.{World, RentalStore, Rental, pay_out}
use lease_flow_protocol_cont.Rental.Rules.{After-pay_out}

-- From the contract `self`, the tenant gets `x` units and the landlord `y` of the token, if they
-- are positive, and no other balance changes.
pub record Paid {W : Type 0} (world : World W) (self token tenant landlord : Address) (x y : ℤ)
    (w w' : W) : Type 0 where
  pub to_tenant :
      world.token_host.balance w' token tenant
      ≡ world.token_host.balance w token tenant + pos_part x
  pub to_landlord :
      world.token_host.balance w' token landlord
      ≡ world.token_host.balance w token landlord + pos_part y
  pub from_self :
      world.token_host.balance w' token self + (pos_part x + pos_part y)
      ≡ world.token_host.balance w token self
  pub of_others :
      (h : Address)
      → h ≢ self
      → h ≢ tenant
      → h ≢ landlord
      → world.token_host.balance w' token h ≡ world.token_host.balance w token h
  pub other_tokens :
      (u h : Address) → u ≢ token → world.token_host.balance w' u h ≡ world.token_host.balance w u h

-- One payout, from the contract to somebody else.
record Given {W : Type 0} (world : World W) (self token to : Address) (x : ℤ) (w w' : W)
    : Type 0 where
  got : world.token_host.balance w' token to ≡ world.token_host.balance w token to + pos_part x
  gave : world.token_host.balance w' token self + pos_part x ≡ world.token_host.balance w token self
  rest :
      (h : Address)
      → h ≢ self
      → h ≢ to
      → world.token_host.balance w' token h ≡ world.token_host.balance w token h
  elsewhere :
      (u h : Address) → u ≢ token → world.token_host.balance w' u h ≡ world.token_host.balance w u h

module _ {W A : Type 0} {Q : A → RentalStore W → Type 0} {s : RentalStore W} (world : World W)
    (self token : Address) where
  After-given :
      (to : Address) (x : ℤ) (k : Rental W A)
      → self ≢ to
      → ((w : W) → Given world self token to x s.tokens w → After Q (record s { tokens = w }) k)
      → After Q s (pay_out world token self to x >> k)
  After-given to x k ne h =
      After-pay_out world token self to x k
        (λ none_due. h s.tokens (record {
          got = omega (arith, nothing x none_due);
          gave = omega (arith, nothing x none_due);
          rest = λ h _ _. refl;
          elsewhere = λ u h _. refl;
        }))
        (λ w m. h w (record {
          got = omega (arith, parts m.exact, m.credited ne);
          gave = omega (arith, parts m.exact, m.debited ne, m.enough);
          rest = m.bystanders;
          elsewhere = m.others;
        }))
    where
      nothing : (x : ℤ) → ltb_ℤ (pos 0) x ≡ false → pos_part x ≡ 0
      nothing x e = ground arith

module _ {W A : Type 0} {Q : A → RentalStore W → Type 0} {s : RentalStore W} (world : World W)
    (self token tenant landlord : Address) where
  pub After-payouts :
      (x y : ℤ) (k : Rental W A)
      → self ≢ tenant
      → self ≢ landlord
      → tenant ≢ landlord
      → ((w : W)
          → Paid world self token tenant landlord x y s.tokens w
          → After Q (record s { tokens = w }) k)
      → After Q s (pay_out world token self tenant x >> (pay_out world token self landlord y >> k))
  After-payouts x y k st sl tl h = After-given world self token tenant x _ st λ w g.
      After-given world self token landlord y k sl λ w' g'. h w' (record {
        to_tenant = omega (arith, g.got, g'.rest tenant (λ e. st (sym e)) tl);
        to_landlord = omega (arith, g'.got, g.rest landlord (λ e. sl (sym e)) (λ e. tl (sym e)));
        from_self = omega (arith, g.gave, g'.gave);
        of_others = λ h hs ht hl. g'.rest h hs hl ∙ g.rest h hs ht;
        other_tokens = λ u h ne. g'.elsewhere u h ne ∙ g.elsewhere u h ne;
      })
