-- ===== src/Base/Invocation.antt =====
-- What the Soroban host gives to an invocation: the ledger's time and sequence number, and whose
-- authorisation the transaction carries. An `Address` is a number, which is only compared.
use Prim.Native.Nat.{ℕ}
use mathlib.Core.Path.{◌≡◌}
use mathlib.Core.Bool.{Bool, true}
use lease_flow_protocol_cont.Base.Outcome.{⊤, Action, trap_unless, ◌>>◌}
use lease_flow_protocol_cont.Base.Post.{After, After-bind, After-trap_unless}

abbrev pub Address : Type 0
Address = ℕ

pub record Env : Type 0 where
  pub timestamp : ℕ
  pub sequence : ℕ
  pub auth : Address → Bool

-- `address.require_auth()` traps without the authorisation.
abbrev pub require_auth : {S E : Type 0} → Env → Address → Action S E ⊤
require_auth env a = trap_unless (env.auth a) tt

pub After-require_auth :
    {S E A : Type 0} {Q : A → S → Type 0} {s : S} (env : Env) (a : Address) (k : Action S E A)
    → (env.auth a ≡ true → After Q s k)
    → After Q s (require_auth env a >> k)
After-require_auth env a k h =
    After-bind (require_auth env a) (λ _. k) (After-trap_unless (env.auth a) tt h)
