-- ===== src/Base/Post.antt =====
-- What holds after a call that succeeds: a postcondition, with a rule for each way to build an
-- action. Nothing is said of a call that fails.
use mathlib.Core.Path.{◌≡◌, refl}
use mathlib.Core.Bool.{Bool, true, false}
use mathlib.Core.Option.{Option, none, some}
use lease_flow_protocol_cont.Base.Int.{ℤ, ◌/ℤ◌}
use lease_flow_protocol_cont.Base.Outcome.{
  div_i128, ⊤, Res, ok, err, panic, Action, pure, raise, trap, gets, or_raise, or_trap, trap_unless,
  attempt, of_result, branch, if_some, modify, raise_if, ◌>>=◌, ◌>>◌, invoke, committed,
}

abbrev pub IfOk : {S E A : Type 0} → (A → S → Type 0) → Res E A × S → Type 0
IfOk Q (ok a, s) = Q a s
IfOk Q (err e, s) = Unit
IfOk Q (panic, s) = Unit

pub record After {S E A : Type 0} (Q : A → S → Type 0) (s : S) (m : Action S E A) : Type 0 where
  pub holds : IfOk Q (m s)

module _ {S E A : Type 0} {Q : A → S → Type 0} {s : S} where
  pub After-pure : (a : A) → Q a s → After {E = E} Q s (pure a)
  unfolding pure
  After-pure a h = record { holds = h }

  pub After-raise : (e : E) → After Q s (raise e)
  unfolding raise
  After-raise e = record { holds = tt }

  pub After-trap : After {E = E} Q s trap
  unfolding trap
  After-trap = record { holds = tt }

  pub After-gets : (f : S → A) → Q (f s) s → After {E = E} Q s (gets f)
  unfolding gets
  After-gets f h = record { holds = h }

  pub After-or_raise :
      (o : Option A) (e : E) → ((a : A) → o ≡ some a → Q a s) → After Q s (or_raise o e)
  unfolding or_raise
  After-or_raise none e h = record { holds = tt }
  After-or_raise (some a) e h = record { holds = h a refl }

  pub After-or_trap :
      (o : Option A) → ((a : A) → o ≡ some a → Q a s) → After {E = E} Q s (or_trap o)
  unfolding or_trap
  After-or_trap none h = record { holds = tt }
  After-or_trap (some a) h = record { holds = h a refl }

  pub After-trap_unless :
      (b : Bool) (a : A) → (b ≡ true → Q a s) → After {E = E} Q s (trap_unless b a)
  unfolding trap_unless
  After-trap_unless true a h = record { holds = h refl }
  After-trap_unless false a h = record { holds = tt }

  pub After-of_result : (r : Res E A) → ((a : A) → r ≡ ok a → Q a s) → After Q s (of_result r)
  unfolding of_result
  After-of_result (ok a) h = record { holds = h a refl }
  After-of_result (err e) h = record { holds = tt }
  After-of_result panic h = record { holds = tt }

  pub After-branch :
      (b : Bool) (m n : Action S E A)
      → (b ≡ true → After Q s m)
      → (b ≡ false → After Q s n)
      → After Q s (branch b m n)
  unfolding branch
  After-branch true m n h k = h refl
  After-branch false m n h k = k refl

pub After-if_some :
    {S E A B : Type 0} {Q : B → S → Type 0} {s : S} (o : Option A) (f : A → Action S E B)
    (m : Action S E B)
    → ((a : A) → o ≡ some a → After Q s (f a))
    → (o ≡ none → After Q s m)
    → After Q s (if_some o f m)
unfolding if_some
After-if_some none f m h k = k refl
After-if_some (some a) f m h k = h a refl

module _ {S E : Type 0} {Q : ⊤ → S → Type 0} {s : S} where
  pub After-modify : (f : S → S) → Q tt (f s) → After {E = E} Q s (modify f)
  unfolding modify
  After-modify f h = record { holds = h }

  pub After-raise_if : (c : Bool) (e : E) → (c ≡ false → Q tt s) → After Q s (raise_if c e)
  unfolding raise_if
  After-raise_if true e h = record { holds = tt }
  After-raise_if false e h = record { holds = h refl }

module _ {S E A B : Type 0} {Q : B → S → Type 0} {s : S} where
  pub After-bind :
      (m : Action S E A) (f : A → Action S E B)
      → After (λ a s'. After Q s' (f a)) s m
      → After Q s (m >>= f)
  unfolding ◌>>=◌
  After-bind m f h = record { holds = go (m s) h.holds }
    where
      go :
          (r : Res E A × S)
          → IfOk (λ a s'. After Q s' (f a)) r
          → IfOk Q (
              let step : Res E B × S = elim r.0 [
                | ok a ↦ f a r.1
                | err e ↦ (err e, r.1)
                | panic ↦ (panic, r.1)
              ] in
              step)
      go (ok a, s') k = k.holds
      go (err e, s') k = tt
      go (panic, s') k = tt

-- What holds after an action that ends with an error.
abbrev pub IfErr : {S E A : Type 0} → (S → Type 0) → Res E A × S → Type 0
IfErr R (ok a, s) = Unit
IfErr R (err e, s) = R s
IfErr R (panic, s) = Unit

pub record Fails {S E A : Type 0} (R : S → Type 0) (s : S) (m : Action S E A) : Type 0 where
  pub fails : IfErr R (m s)

module _ {S E A : Type 0} {R : S → Type 0} {s : S} where
  pub Fails-or_raise : (o : Option A) (e : E) → R s → Fails R s (or_raise o e)
  unfolding or_raise
  Fails-or_raise none e h = record { fails = h }
  Fails-or_raise (some a) e h = record { fails = tt }

  pub Fails-gets : (f : S → A) → Fails {E = E} R s (gets f)
  unfolding gets
  Fails-gets f = record { fails = tt }

  pub Fails-any : (m : Action S E A) → ((s' : S) → R s') → Fails R s m
  Fails-any m h = record { fails = go (m s) }
    where
      go : (r : Res E A × S) → IfErr R r
      go (ok a, s') = tt
      go (err e, s') = h s'
      go (panic, s') = tt

pub Fails-modify :
    {S E : Type 0} {R : S → Type 0} {s : S} (f : S → S) → Fails {E = E} R s (modify f)
unfolding modify
Fails-modify f = record { fails = tt }

module _ {S E A B : Type 0} {R : S → Type 0} {s : S} where
  pub Fails-bind :
      (m : Action S E A) (f : A → Action S E B)
      → Fails R s m
      → After (λ a s'. Fails R s' (f a)) s m
      → Fails R s (m >>= f)
  unfolding ◌>>=◌
  Fails-bind m f h k = record { fails = go (m s) h.fails k.holds }
    where
      go :
          (r : Res E A × S)
          → IfErr R r
          → IfOk (λ a s'. Fails R s' (f a)) r
          → IfErr R (
              let step : Res E B × S = elim r.0 [
                | ok a ↦ f a r.1
                | err e ↦ (err e, r.1)
                | panic ↦ (panic, r.1)
              ] in
              step)
      go (ok a, s') p q = q.fails
      go (err e, s') p q = p
      go (panic, s') p q = tt

module _ {S E A B : Type 0} {Q : B → S → Type 0} {s : S} where
  pub After-attempt :
      {R : S → Type 0} (m : Action S E A) (f : Res E A → Action S E B)
      → After (λ a s'. After Q s' (f (ok a))) s m
      → Fails R s m
      → ((e : E) (s' : S) → R s' → After Q s' (f (err e)))
      → After Q s (attempt m >>= f)
  unfolding attempt
  After-attempt {R} m f h x k =
      After-bind (attempt m) f (record { holds = go (m s) h.holds x.fails })
    where
      go :
          (r : Res E A × S)
          → IfOk (λ a s'. After Q s' (f (ok a))) r
          → IfErr R r
          → IfOk
              (λ o s'. After Q s' (f o))
              (let caught : Res E (Res E A) × S = elim r.0 [
                | ok a ↦ (ok (ok a), r.1)
                | err e ↦ (ok (err e), r.1)
                | panic ↦ (panic, r.1)
              ] in
                caught)
      go (ok a, s') p q = p
      go (err e, s') p q = k e s' q
      go (panic, s') p q = tt

  -- The same, whatever the state after an error.
  pub After-attempt_any :
      (m : Action S E A) (f : Res E A → Action S E B)
      → After (λ a s'. After Q s' (f (ok a))) s m
      → ((e : E) (s' : S) → After Q s' (f (err e)))
      → After Q s (attempt m >>= f)
  After-attempt_any m f h k =
      After-attempt {R = λ _. Unit} m f h (Fails-any m λ _. tt) (λ e s' _. k e s')

-- The same for an action that goes on.
module _ {S E B : Type 0} {Q : B → S → Type 0} {s : S} where
  pub After-guard :
      (c : Bool) (e : E) (k : Action S E B)
      → (c ≡ false → After Q s k)
      → After Q s (raise_if c e >> k)
  After-guard c e k h = After-bind (raise_if c e) (λ _. k) (After-raise_if c e h)

  pub After-found :
      {A : Type 0} (o : Option A) (e : E) (f : A → Action S E B)
      → ((a : A) → o ≡ some a → After Q s (f a))
      → After Q s (or_raise o e >>= f)
  After-found o e f h = After-bind (or_raise o e) f (After-or_raise o e h)

  pub After-checked :
      {A : Type 0} (b : Bool) (a : A) (f : A → Action S E B)
      → (b ≡ true → After Q s (f a))
      → After Q s (trap_unless b a >>= f)
  After-checked b a f h = After-bind (trap_unless b a) f (After-trap_unless b a h)

  pub After-modified : (g : S → S) (k : Action S E B) → After Q (g s) k → After Q s (modify g >> k)
  After-modified g k h = After-bind (modify g) (λ _. k) (After-modify g h)

-- A postcondition may be weakened.
pub After-map :
    {S E A : Type 0} {Q R : A → S → Type 0} {s : S} {m : Action S E A}
    → ((a : A) (s' : S) → Q a s' → R a s')
    → After Q s m
    → After R s m
After-map {S} {E} {A} {Q} {R} {s} {m} f h = record { holds = go (m s) h.holds }
  where
    go : (r : Res E A × S) → IfOk Q r → IfOk R r
    go (ok a, s') k = f a s' k
    go (err e, s') k = tt
    go (panic, s') k = tt

-- A postcondition that holds however the action ends.
pub After-any :
    {S E A : Type 0} {Q : A → S → Type 0} {s : S} (m : Action S E A)
    → ((a : A) (s' : S) → Q a s')
    → After Q s m
After-any {S} {E} {A} {Q} {s} m f = record { holds = go (m s) }
  where
    go : (r : Res E A × S) → IfOk Q r
    go (ok a, s') = f a s'
    go (err e, s') = tt
    go (panic, s') = tt

-- The host keeps the writes of a call only if it succeeds.
pub invoke_keeps :
    {S E A : Type 0} (P : S → Type 0) (m : Action S E A) (s : S)
    → P s
    → After (λ a s'. P s') s m
    → P (invoke m s).1
unfolding invoke
invoke_keeps {S} {E} {A} P m s h k = go (m s) k.holds
  where
    go : (r : Res E A × S) → IfOk (λ a s'. P s') r → P (committed s r).1
    go (ok a, s') p = p
    go (err e, s') p = h
    go (panic, s') p = h

pub After-div_i128 :
    {S E : Type 0} {Q : ℤ → S → Type 0} {s : S} (a b : ℤ)
    → Q (a /ℤ b) s
    → After {E = E} Q s (div_i128 a b)
After-div_i128 a b h = After-branch _ _ _ (λ _. After-trap) (λ _. After-trap_unless _ _ λ _. h)
