-- ===== src/Vault/Examples.antt =====
-- The theorems on contracts/leaseflow_contracts/src/escrow_vault.rs at concrete calls, with
-- token contracts that keep a table of balances.
use lease_flow_protocol_cont.Base.{
  ℕ, ◌≡◌, refl, arith, true, false, some, none, [], ◌∷◌, ◌==◌, if◌then◌else◌, pos, Env, ok, err,
  invoke, After, ◌>>◌, Table, bank,
}
use lease_flow_protocol_cont.Vault.Types.{VaultStore, ContractError, VaultEvent}
use lease_flow_protocol_cont.Vault.Calls.{
  DepositArgs, initialize_deposit, execute_oracle_slash, execute_mutual_release, deduct_arrears,
  toggle_escrow_freeze,
}
use lease_flow_protocol_cont.Vault.Solvency.{IsSolvent}
use lease_flow_protocol_cont.Vault.Steps.{
  initializes, deposits, dispatch, call, Reach, here, next, Reach-IsSolvent,
}
use lease_flow_protocol_cont.Vault.Custody.{Reach-stuck}
use lease_flow_protocol_cont.Vault.Freeze.{
  is_escrow_frozen-refuses, toggle_escrow_freeze-toggle_escrow_freeze,
}

-- Every transaction is signed by everyone but the vault, whose address is 100.
abbrev at_time : ℕ → Env
at_time t = record { timestamp = t; sequence = t; auth = λ a. if a == 100 then false else true }

-- The holder 1 has 500 units of the token 8.
abbrev start : VaultStore Table
start = record {
  admin = none;
  dao_security_council = none;
  contract_version = none;
  is_escrow_frozen = none;
  freeze_timestamp = none;
  escrow_entries = none;
  tokens = λ u h. if h == 1 then 500 else 0;
  events = [];
}

abbrev args : DepositArgs
args = record {
  depositor = 1;
  beneficiary = 2;
  token = 8;
  amount = pos 300;
  purpose = [];
  lock_duration = 60;
  lease_id = none;
}

abbrev opened : VaultStore Table
opened = (invoke (dispatch bank 100 (at_time 10) (initializes 3 4)) start).1

abbrev deposited : VaultStore Table
deposited = (invoke (dispatch bank 100 (at_time 20) (deposits args)) opened).1

to_deposited : Reach bank 100 start deposited
to_deposited =
    next (next here (call (at_time 10) (initializes 3 4) refl))
      (call (at_time 20) (deposits args) refl)

Reach-IsSolvent_example : IsSolvent bank 100 deposited
Reach-IsSolvent_example = Reach-IsSolvent bank 100 refl to_deposited

-- The entry 20 of the deposit cannot be paid out to its beneficiary.
Reach-stuck_example :
    After (λ a e. ⊥) deposited (execute_oracle_slash bank 100 (at_time 90) 2 20 (pos 300) 2)
    × After (λ a e. ⊥) deposited (execute_mutual_release bank 100 (at_time 90) 2 20 (pos 300) 2)
    × After (λ a e. ⊥) deposited (deduct_arrears bank 100 (at_time 90) 2 20 (pos 300) 2)
Reach-stuck_example = Reach-stuck bank 100 refl to_deposited (at_time 90) 2 20 (pos 300) 2

abbrev frozen : VaultStore Table
frozen = record start { is_escrow_frozen = some true; freeze_timestamp = some 5 }

is_escrow_frozen-refuses_example :
    (initialize_deposit bank 100 (at_time 20) args frozen
      ≡ (err ContractError.escrow_frozen, frozen))
    × (execute_oracle_slash bank 100 (at_time 20) 2 20 (pos 300) 2 frozen
        ≡ (err ContractError.escrow_frozen, frozen))
    × (execute_mutual_release bank 100 (at_time 20) 2 20 (pos 300) 2 frozen
        ≡ (err ContractError.escrow_frozen, frozen))
    × (deduct_arrears bank 100 (at_time 20) 2 20 (pos 300) 2 frozen
        ≡ (err ContractError.escrow_frozen, frozen))
is_escrow_frozen-refuses_example =
    is_escrow_frozen-refuses bank 100 (at_time 20) frozen refl args 2 20 (pos 300) 2

abbrev governed : VaultStore Table
governed = record start { dao_security_council = some 4 }

toggle_escrow_freeze-toggle_escrow_freeze_example :
    (toggle_escrow_freeze (at_time 30) 4 true [] >> toggle_escrow_freeze (at_time 75) 4 false [])
      governed
    ≡ (
      ok tt,
      record governed {
        is_escrow_frozen = some false;
        freeze_timestamp = none;
        events =
            VaultEvent.emergency_escrow_freeze_lifted 4 45 75
            ∷ VaultEvent.emergency_escrow_freeze_activated 4 30 []
            ∷ [];
      },
    )
toggle_escrow_freeze-toggle_escrow_freeze_example =
    toggle_escrow_freeze-toggle_escrow_freeze (at_time 30) (at_time 75) 4 [] [] governed refl refl
      refl refl (omega arith)
