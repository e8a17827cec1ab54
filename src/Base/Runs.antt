-- ===== src/Base/Runs.antt =====
-- The run of an action from a state, step by step, where each step succeeds.
use Prim.Native.Nat.{ℕ, ◌+◌, ◌<◌}
use native.Mathlib.Omega.{arith}
use lease_flow_protocol_cont.Base.Int.{ℤ, pos, ◌+ℤ◌, fits, half_128, +ℤ_pos}
use mathlib.Core.Path.{◌≡◌, refl, ap}
use mathlib.Core.Bool.{Bool, true, false}
use lease_flow_protocol_cont.Base.Tests.{if◌then◌else◌}
use mathlib.Core.Option.{Option, some}
use lease_flow_protocol_cont.Base.Outcome.{
  Res, ok, err, panic, Action, pure, checked, gets, or_raise, or_trap, trap_unless, branch,
  raise_if, ◌>>=◌, ◌>>◌,
}

module _ {S E A B : Type 0} where
  pub run-bind :
      (m : Action S E A) (f : A → Action S E B) {s s' : S} {a : A}
      → m s ≡ (ok a, s')
      → (m >>= f) s ≡ f a s'
  unfolding ◌>>=◌
  run-bind m f e =
      ap
        (λ (r : Res E A × S).
          let next : Res E B × S = elim r.0 [
            | ok a ↦ f a r.1
            | err e ↦ (err e, r.1)
            | panic ↦ (panic, r.1)
          ] in
          next)
        e

  pub run-checked :
      (b : Bool) (a : A) (f : A → Action S E B) (s : S)
      → b ≡ true
      → (trap_unless b a >>= f) s ≡ f a s
  unfolding ◌>>=◌
  run-checked b a f s e = rw e refl

  pub run-found :
      (o : Option A) (e : E) (f : A → Action S E B) (s : S) {a : A}
      → o ≡ some a
      → (or_raise o e >>= f) s ≡ f a s
  unfolding ◌>>=◌
  run-found o e f s found = rw found refl

  pub run-present :
      (o : Option A) (f : A → Action S E B) (s : S) {a : A}
      → o ≡ some a
      → (or_trap o >>= f) s ≡ f a s
  unfolding ◌>>=◌
  run-present o f s found = rw found refl

  pub run-gets : (g : S → A) (f : A → Action S E B) (s : S) → (gets g >>= f) s ≡ f (g s) s
  unfolding ◌>>=◌
  run-gets g f s = refl

  pub run-pure : (a : A) (f : A → Action S E B) (s : S) → (pure a >>= f) s ≡ f a s
  unfolding ◌>>=◌
  run-pure a f s = refl

module _ {S E A : Type 0} where
  pub run-taken : (o : Option A) (e : E) (s : S) {a : A} → o ≡ some a → or_raise o e s ≡ (ok a, s)
  unfolding or_raise
  run-taken o e s h = rw h refl

  pub run-then : (b : Bool) (m n : Action S E A) (s : S) → b ≡ true → branch b m n s ≡ m s
  unfolding branch
  run-then b m n s e = rw e refl

  pub run-else : (b : Bool) (m n : Action S E A) (s : S) → b ≡ false → branch b m n s ≡ n s
  unfolding branch
  run-else b m n s e = rw e refl

module _ {S E B : Type 0} where
  pub run-guard :
      (c : Bool) (e : E) (k : Action S E B) (s : S) → c ≡ false → (raise_if c e >> k) s ≡ k s
  unfolding ◌>>=◌
  run-guard c e k s h = rw h refl

  pub run-refused :
      (c : Bool) (e : E) (k : Action S E B) (s : S) → c ≡ true → (raise_if c e >> k) s ≡ (err e, s)
  unfolding ◌>>=◌
  run-refused c e k s h = rw h refl

module _ {S E : Type 0} where
  pub run-check : (c : Bool) (e : E) (s : S) → raise_if c e s ≡ ((if c then err e else ok tt), s)
  unfolding raise_if
  run-check c e s = refl

-- The checked results that are in the range.
pub checked-fits : (z : ℤ) → fits half_128 z ≡ true → checked z ≡ some z
checked-fits z e = rw e refl

pub checked-pos : (n : ℕ) → n < half_128 → checked (pos n) ≡ some (pos n)
checked-pos n h = ground arith

pub checked-add : (a b : ℕ) → a + b < half_128 → checked (pos a +ℤ pos b) ≡ some (pos (a + b))
checked-add a b h = rw (+ℤ_pos a b) (checked-pos (a + b) h)
