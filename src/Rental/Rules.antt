-- ===== src/Rental/Rules.antt =====
-- contracts/leaseflow_contracts/src/lib.rs: postconditions of the helpers of Store, and of the steps
-- that leave the leases and the books.
use lease_flow_protocol_cont.Base.{
  ℕ, ◌≡◌, refl, sym, arith, Bool, true, false, some, lookup, ℤ, pos, ltb_ℤ, Address, Env, Moves,
  Res, ok, err, panic, ⊤, ◌>>=◌, ◌>>◌, IfOk, After, After-pure, After-gets, After-bind, After-guard,
  After-found, After-branch, After-modify, After-or_raise, After-or_trap, After-trap_unless,
}
use lease_flow_protocol_cont.Velocity.Types.{VelocityError, VelocityStore, Guarded}
use lease_flow_protocol_cont.Rental.Types.{LeaseInstance}
use lease_flow_protocol_cont.Rental.Store.{
  World, RentalStore, Rental, load_lease, require, require_admin, transfer_tokens, pay_out,
  send_nft, guarded, guard_result,
}

pub transferred :
    {W : Type 0} {Q : ⊤ → RentalStore W → Type 0} {s : RentalStore W} (world : World W)
    (t a b : Address) (amount : ℤ)
    → ((w : W)
        → Moves world.token_host.balance s.tokens w t a b amount
        → Q tt (record s { tokens = w }))
    → After Q s (transfer_tokens world t a b amount)
unfolding transfer_tokens
transferred world t a b amount h = After-bind _ _ (
    After-gets _ (
      After-bind _ _
        (After-or_trap _ λ w e. After-modify _ (h w (world.token_host.moves t a b amount e)))))

pub nft_sent :
    {W : Type 0} {Q : ⊤ → RentalStore W → Type 0} {s : RentalStore W} (world : World W)
    (self nft : Address) (id : ℕ) (to : Address)
    → ((w : W)
        → world.token_host.balance w ≡ world.token_host.balance s.tokens
        → Q tt (record s { tokens = w }))
    → After Q s (send_nft world self nft id to)
unfolding send_nft
nft_sent world self nft id to h = After-bind _ _ (
    After-gets _ (
      After-bind _ _
        (After-or_trap _ λ w e. After-modify _ (h w (world.nft_keeps nft self to id e)))))

module _ {W A : Type 0} {Q : A → RentalStore W → Type 0} {s : RentalStore W} where
  pub After-load_lease :
      (lease_id : ℕ) (f : LeaseInstance → Rental W A)
      → ((l : LeaseInstance) → lookup lease_id s.leases ≡ some l → After Q s (f l))
      → After Q s (load_lease lease_id >>= f)
  unfolding load_lease
  After-load_lease lease_id f h =
      After-bind _ _ (After-bind _ _ (After-gets _ (After-or_raise _ _ h)))

  pub After-loaded :
      (lease_id : ℕ) (l : LeaseInstance) (f : LeaseInstance → Rental W A)
      → lookup lease_id s.leases ≡ some l
      → After Q s (f l)
      → After Q s (load_lease lease_id >>= f)
  After-loaded lease_id l f found h =
      After-load_lease lease_id f λ l' found'. let same : l ≡ l' = cc in rw (sym same) h

  pub After-require :
      (c : Bool) (k : Rental W A) → (c ≡ true → After Q s k) → After Q s (require c >> k)
  After-require true k h = After-bind _ _ (After-or_trap _ λ _ _. h refl)
  After-require false k h = After-bind _ _ (After-or_trap _ λ _ e. absurd (cc))

  pub After-require_admin :
      (env : Env) (admin : Address) (k : Rental W A)
      → (s.admin ≡ some admin → After Q s k)
      → After Q s (require_admin env admin >> k)
  unfolding require_admin
  After-require_admin env admin k h = After-bind _ _ (
      After-bind _ _ (
        After-gets _ (
          After-found _ _ _
            λ stored found. After-guard _ _ _ λ same. After-trap_unless _ _ λ _. h (ground arith))))

  pub After-transfer_tokens :
      (world : World W) (t a b : Address) (amount : ℤ) (k : Rental W A)
      → ((w : W)
          → Moves world.token_host.balance s.tokens w t a b amount
          → After Q (record s { tokens = w }) k)
      → After Q s (transfer_tokens world t a b amount >> k)
  After-transfer_tokens world t a b amount k h = After-bind _ _ (transferred world t a b amount h)

  pub After-pay_out :
      (world : World W) (t a b : Address) (amount : ℤ) (k : Rental W A)
      → (ltb_ℤ (pos 0) amount ≡ false → After Q s k)
      → ((w : W)
          → Moves world.token_host.balance s.tokens w t a b amount
          → After Q (record s { tokens = w }) k)
      → After Q s (pay_out world t a b amount >> k)
  unfolding pay_out
  After-pay_out world t a b amount k h m = After-bind _ _ (
      After-branch _ _ _ (λ _. transferred world t a b amount m)
        (λ none_due. After-pure _ (h none_due)))

  -- A payout changes the tokens, if anything.
  pub After-paid :
      (world : World W) (t a b : Address) (amount : ℤ) (k : Rental W A)
      → ((w : W) → After Q (record s { tokens = w }) k)
      → After Q s (pay_out world t a b amount >> k)
  After-paid world t a b amount k h =
      After-pay_out world t a b amount k (λ _. h s.tokens) (λ w _. h w)

pub After-guarded_once :
    {W B : Type 0} {Q : B → RentalStore W → Type 0} {s : RentalStore W} (m : Guarded B)
    → ((b : B) (g : VelocityStore) → Q b (record s { guard = g }))
    → After Q s (guarded m)
unfolding guarded
After-guarded_once {W} {B} {Q} {s} m h = record { holds = go (m s.guard) }
  where
    go :
        (r : Res VelocityError B × VelocityStore)
        → IfOk Q (guard_result r.0, record s { guard = r.1 })
    go (ok b, g) = h b g
    go (err e, g) = tt
    go (panic, g) = tt

pub After-guarded :
    {W A B : Type 0} {Q : A → RentalStore W → Type 0} {s : RentalStore W} (m : Guarded B)
    (f : B → Rental W A)
    → ((b : B) (g : VelocityStore) → After Q (record s { guard = g }) (f b))
    → After Q s (guarded m >>= f)
After-guarded m f h = After-bind _ _ (After-guarded_once m h)
