-- ===== src/Base/Bank.antt =====
-- Token contracts that keep a table of balances: an instance of the interface, for the examples.
use Prim.Native.Nat.{ℕ, ◌+◌, ◌-◌, ◌≤◌}
use mathlib.Core.Path.{◌≡◌, refl, sym, ap, ◌∙◌}
use mathlib.Core.Logic.{inl, inr}
use mathlib.Core.Bool.{◌&&◌}
use mathlib.Core.Option.{Option, some, none}
use native.Mathlib.Omega.{arith}
use lease_flow_protocol_cont.Base.Tests.{leb, ◌==◌, if◌then◌else◌, Bool-cases}
use lease_flow_protocol_cont.Base.Int.{ℤ, pos, negsuc}
use lease_flow_protocol_cont.Base.Lists.{get_or}
use lease_flow_protocol_cont.Base.Invocation.{Address}
use lease_flow_protocol_cont.Base.Tokens.{Token, Moves}

abbrev pub Table : Type 0
Table = Address → Address → ℕ

abbrev pub moved : Table → Address → Address → Address → ℕ → Table
moved w t a b n u h =
    if u == t && h == a
    then (if a == b then w u h else w u h - n)
    else if u == t && h == b
    then w u h + n
    else w u h

abbrev pub pay : Table → Address → Address → Address → ℤ → Option Table
pay w t a b (pos n) = if leb n (w t a) then some (moved w t a b n) else none
pay w t a b (negsuc n) = none

pay-some :
    (w : Table) {w' : Table} (t a b : Address) (n : ℕ)
    → pay w t a b (pos n) ≡ some w'
    → (n ≤ w t a) × ((u h : Address) → w' u h ≡ moved w t a b n u h)
pay-some w {w'} t a b n e = elim (Bool-cases (leb n (w t a))) [
  | inl enough ↦
      let eq : some (moved w t a b n) ≡ some w' = sym (ground arith) ∙ e in
      (ground arith, λ u h. sym (ap (λ (o : Option Table). get_or o w u h) eq))
  | inr short ↦ absurd (ground arith)
]

pub pay-Moves :
    {w w' : Table} (t a b : Address) (amount : ℤ)
    → pay w t a b amount ≡ some w'
    → Moves (λ w. w) w w' t a b amount
pay-Moves t a b (negsuc n) e = cc
pay-Moves {w} {w'} t a b (pos n) e =
    let (enough, at) = pay-some w t a b n e in
    record {
      units = n;
      exact = refl;
      enough = enough;
      debited = λ ne. ground (arith, at t a);
      credited = λ ne. ground (arith, at t b);
      to_self = λ same. ground (arith, at t a);
      bystanders = λ h ne ne'. ground (arith, at t h);
      others = λ u h ne. ground (arith, at u h);
    }

abbrev pub bank : Token Table
bank = record { balance = λ w. w; transfer = pay; moves = pay-Moves }
