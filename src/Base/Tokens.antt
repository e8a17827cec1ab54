-- ===== src/Base/Tokens.antt =====
-- The token contracts that the contracts call (soroban_sdk::token): any state and operations of
-- theirs that keep the law of a transfer.
use Prim.Native.Nat.{ℕ, ◌+◌, ◌-◌, ◌≤◌}
use mathlib.Core.Path.{◌≡◌}
use mathlib.Core.Logic.{◌≢◌}
use mathlib.Core.Option.{Option, some}
use lease_flow_protocol_cont.Base.Int.{ℤ, pos}
use lease_flow_protocol_cont.Base.Invocation.{Address}

-- What a transfer of `amount` of the token `t` from `a` to `b` does to the balances.
pub record Moves {W : Type 0} (balance : W → Address → Address → ℕ) (w w' : W) (t a b : Address)
    (amount : ℤ) : Type 0 where
  pub units : ℕ
  pub exact : amount ≡ pos units
  pub enough : units ≤ balance w t a
  pub debited : a ≢ b → balance w' t a ≡ balance w t a - units
  pub credited : a ≢ b → balance w' t b ≡ balance w t b + units
  pub to_self : a ≡ b → balance w' t a ≡ balance w t a
  pub bystanders : (h : Address) → h ≢ a → h ≢ b → balance w' t h ≡ balance w t h
  pub others : (u h : Address) → u ≢ t → balance w' u h ≡ balance w u h

-- The token contracts (soroban_sdk::token): the state of all of them, the balance of a holder in a
-- token, and a transfer, which traps on a negative amount or without the funds.
pub record Token (W : Type 0) : Type 0 where
  pub balance : W → Address → Address → ℕ
  pub transfer : W → Address → Address → Address → ℤ → Option W
  pub moves :
      {w w' : W} (t a b : Address) (amount : ℤ)
      → transfer w t a b amount ≡ some w'
      → Moves balance w w' t a b amount
