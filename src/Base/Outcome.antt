-- ===== src/Base/Outcome.antt =====
-- How a contract function ends, and the monad of the functions that read and write contract state.
-- A function that returns `Err` or panics may have written before; `invoke` is the host's
-- call of an entry point, which keeps the writes of a successful call alone.
-- Unfolding `◌>>=◌` unfolds every action of this file.
use Prim.Native.Nat.{ℕ, ◌+◌, ◌-◌, ◌*◌}
use mathlib.Core.Bool.{Bool}
use mathlib.Core.Option.{Option, none, some}
use lease_flow_protocol_cont.Base.Tests.{leb, if◌then◌else◌}
use lease_flow_protocol_cont.Base.Int.{
  ℤ, ◌+ℤ◌, ◌-ℤ◌, ◌*ℤ◌, ◌/ℤ◌, fits, half_64, half_128, pos, eqb_ℤ,
}

abbrev pub ⊤ : Type 0
⊤ = Unit

pub data Res (E A : Type 0) : Type 0 where
  ok : A → Res E A
  err : E → Res E A
  panic : Res E A

abbrev pub Action : Type 0 → Type 0 → Type 0 → Type 0
Action S E A = S → Res E A × S

module _ {S E A : Type 0} where
  unfoldable pub pure : A → Action S E A
  pure a s = (ok a, s)

  unfoldable pub raise : E → Action S E A
  raise e s = (err e, s)

  unfoldable pub trap : Action S E A
  trap s = (panic, s)

  unfoldable pub gets : (S → A) → Action S E A
  gets f s = (ok (f s), s)

  unfoldable pub or_raise : Option A → E → Action S E A
  or_raise none e s = (err e, s)
  or_raise (some a) e s = (ok a, s)

  -- `Option::unwrap`
  unfoldable pub or_trap : Option A → Action S E A
  or_trap none s = (panic, s)
  or_trap (some a) s = (ok a, s)

  -- An action that may trap, and leaves the state alone.
  unfoldable pub trap_unless : Bool → A → Action S E A
  trap_unless b a s = (if b then ok a else panic, s)

  -- The result of an action as a value, for a caller that goes on after an error.
  unfoldable pub attempt : Action S E A → Action S E (Res E A)
  attempt m s =
      let (r, s') = m s in
      elim r [ ok a ↦ (ok (ok a), s') | err e ↦ (ok (err e), s') | panic ↦ (panic, s') ]

  -- `?` on such a value.
  unfoldable pub of_result : Res E A → Action S E A
  of_result r s = (r, s)

  -- `if` between actions, which stays shut with the other actions.
  unfoldable pub branch : Bool → Action S E A → Action S E A → Action S E A
  branch b m n = if b then m else n

-- `if let Some(a) = o { .. } else { .. }`, shut like `branch`.
unfoldable pub if_some :
    {S E A B : Type 0} → Option A → (A → Action S E B) → Action S E B → Action S E B
if_some none f m = m
if_some (some a) f m = f a

module _ {S E : Type 0} where
  unfoldable pub modify : (S → S) → Action S E ⊤
  modify f s = (ok tt, f s)

  unfoldable pub raise_if : Bool → E → Action S E ⊤
  raise_if c e s = (if c then err e else ok tt, s)

infixl 5 ◌>>=◌ ◌>>◌
unfoldable pub ◌>>=◌ : {S E A B : Type 0} → Action S E A → (A → Action S E B) → Action S E B
unfolding pure raise trap gets or_raise or_trap trap_unless attempt of_result branch if_some modify
    raise_if
◌>>=◌ m f s =
    let (r, s') = m s in elim r [ ok a ↦ f a s' | err e ↦ (err e, s') | panic ↦ (panic, s') ]

abbrev pub when_some : {S E A : Type 0} → Option A → (A → Action S E ⊤) → Action S E ⊤
when_some o f = if_some o f (pure tt)

abbrev pub ◌>>◌ : {S E A B : Type 0} → Action S E A → Action S E B → Action S E B
m >> k = m >>= λ _. k

-- The host's call of an entry point: a call that fails leaves no trace.
abbrev pub committed : {S E A : Type 0} → S → Res E A × S → Res E A × S
committed s (ok a, s') = (ok a, s')
committed s (err e, s') = (err e, s)
committed s (panic, s') = (panic, s)

unfoldable pub invoke : {S E A : Type 0} → Action S E A → Action S E A
invoke m s = committed s (m s)

-- Arithmetic traps on overflow (`overflow-checks = true` in Cargo.toml).
abbrev pub u64_max : ℕ
u64_max = 0xffffffffffffffff

abbrev pub u32_max : ℕ
u32_max = 0xffffffff

module _ {S E : Type 0} where
  abbrev pub add_u64 : ℕ → ℕ → Action S E ℕ
  add_u64 a b = trap_unless (leb (a + b) u64_max) (a + b)

  abbrev pub add_u32 : ℕ → ℕ → Action S E ℕ
  add_u32 a b = trap_unless (leb (a + b) u32_max) (a + b)

  abbrev pub sub_u64 : ℕ → ℕ → Action S E ℕ
  sub_u64 a b = trap_unless (leb b a) (a - b)

  abbrev pub mul_u64 : ℕ → ℕ → Action S E ℕ
  mul_u64 a b = trap_unless (leb (a * b) u64_max) (a * b)

  abbrev pub in_int : ℕ → ℤ → Action S E ℤ
  in_int half z = trap_unless (fits half z) z

  abbrev pub add_i64 : ℤ → ℤ → Action S E ℤ
  add_i64 a b = in_int half_64 (a +ℤ b)

  abbrev pub sub_i64 : ℤ → ℤ → Action S E ℤ
  sub_i64 a b = in_int half_64 (a -ℤ b)

  abbrev pub add_i128 : ℤ → ℤ → Action S E ℤ
  add_i128 a b = in_int half_128 (a +ℤ b)

  abbrev pub sub_i128 : ℤ → ℤ → Action S E ℤ
  sub_i128 a b = in_int half_128 (a -ℤ b)

  abbrev pub mul_i128 : ℤ → ℤ → Action S E ℤ
  mul_i128 a b = in_int half_128 (a *ℤ b)

  abbrev pub div_i128 : ℤ → ℤ → Action S E ℤ
  div_i128 a b = branch (eqb_ℤ b (pos 0)) trap (in_int half_128 (a /ℤ b))

-- `checked_add` and its like, on the exact result.
abbrev pub checked : ℤ → Option ℤ
checked z = if fits half_128 z then some z else none
