-- ===== src/Vault/Solvency.antt =====
-- The vault's token balances cover the amounts of its entries, and every call keeps that.
use lease_flow_protocol_cont.Base.{
  ℕ, ◌+◌, ◌≤◌, ◌≡◌, ◌≢◌, sym, arith, false, some, [], ◌∷◌, Map, parts, neg_part_zero, lookup,
  insert, All, All-insert, All-lookup, IsSorted, insert-IsSorted, sum, sum-insert, ◌==◌,
  if◌then◌else◌, ℤ, pos, pos_part, ◌≤ℤ◌, ◌-ℤ◌, ltb_ℤ, int_laws, Address, ◌>>=◌, ◌>>◌, After,
  After-bind, After-gets, After-or_trap, After-or_raise, After-modify, After-raise_if,
}
use native.Mathlib.Decide.{ℕ_discrete}
use lease_flow_protocol_cont.Vault.Types.{
  EscrowEntry, Token, Moves, VaultStore, Vaulted, transfer_tokens,
}
use lease_flow_protocol_cont.Vault.Calls.{entries, check_freeze_status, get_escrow}

ltb_ℤ_false : (a b : ℤ) → ltb_ℤ a b ≡ false → b ≤ℤ a
ltb_ℤ_false a b h = ground arith

-- What an entry claims of a token.
abbrev pub held : Address → EscrowEntry → ℕ
held t e = if e.token == t then pos_part e.amount else 0

held_self : (e : EscrowEntry) → held e.token e ≡ pos_part e.amount
held_self e = ground arith

held_same : (e e' : EscrowEntry) → e'.token ≡ e.token → held e.token e' ≡ pos_part e'.amount
held_same e e' h = ground arith

held_other : (t : Address) (e : EscrowEntry) → e.token ≢ t → held t e ≡ 0
held_other t e h = ground arith

pub record IsSolvent {W : Type 0} (token_host : Token W) (self : Address) (s : VaultStore W)
    : Type 0 where
  pub sorted : IsSorted (entries s)
  pub amounts : All (λ id e. pos 0 ≤ℤ e.amount) (entries s)
  pub backed : (t : Address) → sum (held t) (entries s) ≤ token_host.balance s.tokens t self

pub sum-insert_le :
    {V : Type 0} (w : V → ℕ) (k : ℕ) (v : V) (m : Map V) → sum w (insert k v m) ≤ sum w m + w v
sum-insert_le w k v [] = omega arith
sum-insert_le w k v (x ∷ m) = ground (arith, sum-insert_le w k v m)

module _ {W A : Type 0} {Q : A → VaultStore W → Type 0} {s : VaultStore W} where
  pub After-check_freeze_status :
      (k : Vaulted W A) → After Q s k → After Q s (check_freeze_status >> k)
  unfolding check_freeze_status
  After-check_freeze_status k h =
      After-bind _ _ (After-bind _ _ (After-gets _ (After-raise_if _ _ λ _. h)))

  pub After-get_escrow :
      (id : ℕ) (f : EscrowEntry → Vaulted W A)
      → ((e : EscrowEntry) → lookup id (entries s) ≡ some e → After Q s (f e))
      → After Q s (get_escrow id >>= f)
  After-get_escrow id f h = After-bind _ _ (After-bind _ _ (After-gets _ (After-or_raise _ _ h)))

  pub After-transfer_tokens :
      (token_host : Token W) (t a b : Address) (amount : ℤ) (k : Vaulted W A)
      → ((w : W)
          → Moves token_host.balance s.tokens w t a b amount
          → After Q (record s { tokens = w }) k)
      → After Q s (transfer_tokens token_host t a b amount >> k)
  unfolding transfer_tokens
  After-transfer_tokens token_host t a b amount k h = After-bind _ _ (
      After-bind _ _ (
        After-gets _ (
          After-bind _ _
            (After-or_trap _ λ w e. After-modify _ (h w (token_host.moves t a b amount e))))))

module _ {W : Type 0} (token_host : Token W) (self : Address) (s : VaultStore W)
    (h : IsSolvent token_host self s) where
  -- The entries and the tokens stay.
  pub keep-IsSolvent :
      (d : VaultStore W) → entries d ≡ entries s → d.tokens ≡ s.tokens → IsSolvent token_host self d
  keep-IsSolvent d e f = record {
    sorted = rw e h.sorted;
    amounts = rw e h.amounts;
    backed = λ t. rw (e, f) (h.backed t);
  }

  pub deposit-IsSolvent :
      (d : VaultStore W) (id : ℕ) (e : EscrowEntry) (from : Address)
      → entries d ≡ insert id e (entries s)
      → from ≢ self
      → Moves token_host.balance s.tokens d.tokens e.token from self e.amount
      → IsSolvent token_host self d
  deposit-IsSolvent d id e from eq ne m = record {
    sorted = rw eq (insert-IsSorted id e (entries s) h.sorted);
    amounts = rw eq (
        All-insert (λ id e. pos 0 ≤ℤ e.amount) id e (entries s) h.amounts
          (omega (int_laws, parts m.exact)));
    backed = λ t. rw eq (elim (ℕ_discrete e.token t) [
      | yes here ↦ rw (sym here) (
          omega (
            arith,
            sum-insert_le (held e.token) id e (entries s),
            h.backed e.token,
            parts m.exact,
            m.credited ne,
            held_self e,
          ))
      | no there ↦ omega (
        arith,
        sum-insert_le (held t) id e (entries s),
        h.backed t,
        m.others t self (λ x. there (sym x)),
        held_other t e there,
      )
    ]);
  }

  pub withdraw-IsSolvent :
      (d : VaultStore W) (id : ℕ) (e e' : EscrowEntry) (to : Address) (amount : ℤ)
      → lookup id (entries s) ≡ some e
      → entries d ≡ insert id e' (entries s)
      → ltb_ℤ e.amount amount ≡ false
      → e'.amount ≡ e.amount -ℤ amount
      → e'.token ≡ e.token
      → Moves token_host.balance s.tokens d.tokens e.token self to amount
      → IsSolvent token_host self d
  withdraw-IsSolvent d id e e' to amount found eq le left same m =
      let withdrawn : token_host.balance s.tokens e.token self
          ≤ token_host.balance d.tokens e.token self + m.units =
        elim (ℕ_discrete self to) [
          | yes own ↦ omega (arith, m.to_self own)
          | no other ↦ omega (arith, m.debited other)
        ] in
      let kept : pos 0 ≤ℤ e'.amount =
        omega (int_laws, parts left, parts m.exact, ltb_ℤ_false e.amount amount le) in
      record {
        sorted = rw eq (insert-IsSorted id e' (entries s) h.sorted);
        amounts = rw eq (All-insert (λ id e. pos 0 ≤ℤ e.amount) id e' (entries s) h.amounts kept);
        backed = λ t. rw eq (elim (ℕ_discrete e.token t) [
          | yes here ↦ rw (sym here) (
              omega (
                int_laws,
                sum-insert (held e.token) id e' e (entries s) h.sorted found,
                h.backed e.token,
                parts m.exact,
                parts left,
                held_self e,
                held_same e e' same,
                withdrawn,
                neg_part_zero e'.amount kept,
                neg_part_zero e.amount
                    (All-lookup (λ id e. pos 0 ≤ℤ e.amount) id (entries s) h.amounts found),
                ltb_ℤ_false e.amount amount le,
              ))
          | no there ↦ omega (
            arith,
            sum-insert (held t) id e' e (entries s) h.sorted found,
            h.backed t,
            m.others t self (λ x. there (sym x)),
            held_other t e there,
            held_other t e' (rw same there),
          )
        ]);
      }
