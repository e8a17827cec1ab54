-- ===== src/Velocity/Types.antt =====
-- contracts/leaseflow_contracts/src/velocity_guard.rs: trackers, requests, events and storage.
use lease_flow_protocol_cont.Base.{ℕ, Bool, Option, List, ◌∷◌, Map, Action, Address, modify, ⊤}

pub record VelocityTracker : Type 0 where
  pub lessor : Address
  pub total_leases : ℕ
  pub terminations_24h : ℕ
  pub last_termination_times : List ℕ
  pub is_paused : Bool
  pub pause_timestamp : Option ℕ

-- The texts that the source gives as a reason.
pub data Reason : Type 0 where
  velocity_anomaly_detected pending_dao_review : Reason

pub record DaoApprovalRequest : Type 0 where
  pub lessor : Address
  pub request_id : ℕ
  pub timestamp : ℕ
  pub reason : Reason
  pub terminations_count : ℕ
  pub approved : Bool
  pub approvals : List Address

-- Those of the errors of the contract that the guard returns.
pub data VelocityError : Type 0 where
  velocity_limit_exceeded lease_not_found unauthorised : VelocityError

-- Each with the fields of its event in the source's order.
pub data VelocityEvent : Type 0 where
  termination_velocity_anomaly_detected : Address → ℕ → ℕ → ℕ → ℕ → VelocityEvent
  lessor_paused : Address → Reason → ℕ → VelocityEvent

-- The instance storage: by lessor `DataKey::VelocityTracker` and `DataKey::PausedLessor`, by
-- request `DataKey::DaoApprovalRequest`, and `DataKey::Admin`; and the events, the latest first.
pub record VelocityStore : Type 0 where
  pub trackers : Map VelocityTracker
  pub paused : Map Bool
  pub requests : Map DaoApprovalRequest
  pub admin : Option Address
  pub events : List VelocityEvent

abbrev pub Guarded : Type 0 → Type 0
Guarded A = Action VelocityStore VelocityError A

abbrev pub publish : VelocityEvent → Guarded ⊤
publish e = modify (λ s. record s { events = e ∷ s.events })
