-- ===== src/Base/Maps.antt =====
-- Soroban's `Map` (and its keyed storage) as an association list in the order of the keys, the
-- order in which the host iterates.
use Prim.Native.Nat.{ℕ, ◌+◌, ◌≤◌, ◌<◌}
use mathlib.Core.Path.{◌≡◌, refl, sym, subst₂}
use mathlib.Core.Logic.{◌≢◌}
use mathlib.Core.Bool.{Bool, true, false}
use mathlib.Core.Option.{Option, none, some}
use mathlib.Core.List.{List, [], ◌∷◌}
use native.Mathlib.Omega.{arith}
use native.Mathlib.Decide.{ℕ_discrete}
use lease_flow_protocol_cont.Base.Tests.{ltb, ◌==◌, if◌then◌else◌}

abbrev pub Map {ℓ} : Type ℓ → Type ℓ
Map V = List (ℕ × V)

module _ {ℓ} {V : Type ℓ} where
  abbrev pub lookup : ℕ → Map V → Option V
  lookup k [] = none
  lookup k ((j, v) ∷ m) = if k == j then some v else lookup k m

  abbrev pub contains : ℕ → Map V → Bool
  contains k m = elim (lookup k m) [ none ↦ false | some _ ↦ true ]

  abbrev pub insert : ℕ → V → Map V → Map V
  insert k v [] = (k, v) ∷ []
  insert k v (e ∷ m) =
      if k == e.0
      then (k, v) ∷ m
      else let rest = insert k v m in if ltb k e.0 then (k, v) ∷ e ∷ m else e ∷ rest

  abbrev pub erase : ℕ → Map V → Map V
  erase k [] = []
  erase k (e ∷ m) = let rest = erase k m in if k == e.0 then rest else e ∷ rest

  pub lookup-insert :
      (j k : ℕ) (v : V) (m : Map V)
      → lookup j (insert k v m) ≡ (if j == k then some v else lookup j m)
  lookup-insert j k v [] = refl
  lookup-insert j k v (e ∷ m) = ground (arith, lookup-insert j k v m)

  pub lookup-insert_self : (k : ℕ) (v : V) (m : Map V) → lookup k (insert k v m) ≡ some v
  lookup-insert_self k v m = ground (arith, lookup-insert k k v m)

  pub lookup-insert_ne :
      (j k : ℕ) (v : V) (m : Map V) → j ≢ k → lookup j (insert k v m) ≡ lookup j m
  lookup-insert_ne j k v m h = ground (arith, lookup-insert j k v m)

  pub insert-insert : (k : ℕ) (v w : V) (m : Map V) → insert k w (insert k v m) ≡ insert k w m
  insert-insert k v w [] = ground arith
  insert-insert k v w (e ∷ m) = ground (arith, insert-insert k v w m)

  pub lookup-erase :
      (j k : ℕ) (m : Map V) → lookup j (erase k m) ≡ (if j == k then none else lookup j m)
  lookup-erase j k [] = ground arith
  lookup-erase j k (e ∷ m) = ground (arith, lookup-erase j k m)

  -- Every value of the map.
  abbrev pub All {κ} : (ℕ → V → Type κ) → Map V → Type κ
  All P [] = Unit
  All P (e ∷ m) = P e.0 e.1 × All P m

  pub All-insert {κ} :
      (P : ℕ → V → Type κ) (k : ℕ) (v : V) (m : Map V) → All P m → P k v → All P (insert k v m)
  All-insert P k v [] h p = (p, tt)
  All-insert P k v (e ∷ m) h p = ground (arith, All-insert P k v m h.1 p)

  pub All-erase {κ} : (P : ℕ → V → Type κ) (k : ℕ) (m : Map V) → All P m → All P (erase k m)
  All-erase P k [] h = tt
  All-erase P k (e ∷ m) h = ground (arith, All-erase P k m h.1)

  pub All-map {κ} :
      (P Q : ℕ → V → Type κ) (m : Map V) → ((k : ℕ) (v : V) → P k v → Q k v) → All P m → All Q m
  All-map P Q [] f h = tt
  All-map P Q (e ∷ m) f h = (f e.0 e.1 h.0, All-map P Q m f h.1)

  pub All-lookup {κ} :
      (P : ℕ → V → Type κ) (k : ℕ) {v : V} (m : Map V) → All P m → lookup k m ≡ some v → P k v
  All-lookup P k [] h e = cc
  All-lookup P k {v} (x ∷ m) h e = elim (ℕ_discrete k x.0) [
    | yes same ↦ let found : x.1 ≡ v = ground arith in subst₂ P (sym same) found h.0
    | no differ ↦ All-lookup P k m h.1 (ground arith)
  ]

  -- The keys ascend.
  abbrev pub IsSorted : Map V → Type 0
  IsSorted [] = Unit
  IsSorted (e ∷ m) = All (λ k v. e.0 < k) m × IsSorted m

  All-lt : (a b : ℕ) (m : Map V) → a ≤ b → All (λ k v. b < k) m → All (λ k v. a < k) m
  All-lt a b [] l h = tt
  All-lt a b (e ∷ m) l h = (omega arith, All-lt a b m l h.1)

  pub insert-IsSorted : (k : ℕ) (v : V) (m : Map V) → IsSorted m → IsSorted (insert k v m)
  insert-IsSorted k v [] h = (tt, tt)
  insert-IsSorted k v (e ∷ m) h =
      ground
        (arith, All-insert (λ j u. e.0 < j) k v m h.0, All-lt k e.0 m, insert-IsSorted k v m h.1)

  lookup-none : (k b : ℕ) (m : Map V) → k ≤ b → All (λ j v. b < j) m → lookup k m ≡ none
  lookup-none k b [] l h = refl
  lookup-none k b (e ∷ m) l h = ground (arith, lookup-none k b m l h.1)

  -- The sum of a weight of the values.
  abbrev pub sum : (V → ℕ) → Map V → ℕ
  sum w [] = 0
  sum w (e ∷ m) = w e.1 + sum w m

  pub sum-insert :
      (w : V → ℕ) (k : ℕ) (v old : V) (m : Map V)
      → IsSorted m
      → lookup k m ≡ some old
      → sum w (insert k v m) + w old ≡ sum w m + w v
  sum-insert w k v old [] s e = cc
  sum-insert w k v old (x ∷ m) s e = ground (arith, sum-insert w k v old m s.1, lookup-none k x.0 m)

  pub sum-insert_new :
      (w : V → ℕ) (k : ℕ) (v : V) (m : Map V)
      → lookup k m ≡ none
      → sum w (insert k v m) ≡ sum w m + w v
  sum-insert_new w k v [] e = omega arith
  sum-insert_new w k v (x ∷ m) e = ground (arith, sum-insert_new w k v m)

  pub sum-lookup_le : (w : V → ℕ) (k : ℕ) (v : V) (m : Map V) → lookup k m ≡ some v → w v ≤ sum w m
  sum-lookup_le w k v [] e = cc
  sum-lookup_le w k v (x ∷ m) e = ground (arith, sum-lookup_le w k v m)
