-- ===== src/Velocity/Calls.antt =====
-- contracts/leaseflow_contracts/src/velocity_guard.rs: the guard's operations.
use lease_flow_protocol_cont.Base.{
  ℕ, zero, suc, ◌-◌, ◌/◌, Bool, true, false, not, none, some, List, [], ◌∷◌, ◌++◌, lookup, insert,
  erase, contains, ltb, leb, ◌==◌, if◌then◌else◌, ℤ, pos, negsuc, half_64, Address, Env, ⊤, pure,
  gets, modify, raise, raise_if, or_raise, branch, trap_unless, ◌>>=◌, ◌>>◌, add_u64, sub_u64,
  mul_u64, get_or, mem, length,
}
use lease_flow_protocol_cont.Velocity.Types.{
  VelocityTracker, Reason, velocity_anomaly_detected, pending_dao_review, DaoApprovalRequest,
  VelocityError, VelocityEvent, VelocityStore, Guarded, publish,
}

abbrev pub velocity_window : ℕ
velocity_window = 86400

-- In basis points.
abbrev pub velocity_threshold_percent : ℕ
velocity_threshold_percent = 1000

abbrev pub get_velocity_tracker : Address → Guarded VelocityTracker
get_velocity_tracker lessor = gets (λ (s : VelocityStore). lookup lessor s.trackers) >>= λ o.
    or_raise o VelocityError.lease_not_found

abbrev pub has_velocity_tracker : VelocityStore → Address → Bool
has_velocity_tracker s lessor = contains lessor s.trackers

abbrev pub save_velocity_tracker : Address → VelocityTracker → Guarded ⊤
save_velocity_tracker lessor tracker =
    modify (λ s. record s { trackers = insert lessor tracker s.trackers })

abbrev pub is_lessor_paused : VelocityStore → Address → Bool
is_lessor_paused s lessor = get_or (lookup lessor s.paused) false

-- The loop of `cleanup_old_terminations`: the times from the cutoff on, in order.
abbrev pub recent_times : ℕ → List ℕ → List ℕ
recent_times cutoff [] = []
recent_times cutoff (t ∷ ts) =
    let rest = recent_times cutoff ts in if leb cutoff t then t ∷ rest else rest

unfoldable pub cleanup_old_terminations : Env → VelocityTracker → Guarded VelocityTracker
cleanup_old_terminations env tracker = do
  cutoff_time ← sub_u64 env.timestamp velocity_window
  let kept = recent_times cutoff_time tracker.last_termination_times
  pure (record tracker { last_termination_times = kept; terminations_24h = length kept })

unfoldable pub pause_lessor : Env → Address → Reason → Guarded ⊤
pause_lessor env lessor reason = do
  modify (λ (s : VelocityStore). record s { paused = insert lessor true s.paused })
  tracker ← get_velocity_tracker lessor
  save_velocity_tracker lessor
      (record tracker { is_paused = true; pause_timestamp = some env.timestamp })
  publish (VelocityEvent.lessor_paused lessor reason env.timestamp)

abbrev pub new_request : Env → Address → VelocityTracker → DaoApprovalRequest
new_request env lessor tracker = record {
  lessor = lessor;
  request_id = env.sequence;
  timestamp = env.timestamp;
  reason = velocity_anomaly_detected;
  terminations_count = tracker.terminations_24h;
  approved = false;
  approvals = [];
}

abbrev pub store_request : ℕ → DaoApprovalRequest → Guarded ⊤
store_request request_id request =
    modify (λ s. record s { requests = insert request_id request s.requests })

unfoldable pub trigger_velocity_anomaly : Env → Address → VelocityTracker → ℕ → Guarded ⊤
trigger_velocity_anomaly env lessor tracker velocity_percentage = do
  publish (
      VelocityEvent.termination_velocity_anomaly_detected lessor tracker.terminations_24h
        tracker.total_leases velocity_percentage env.timestamp)
  store_request env.sequence (new_request env lessor tracker)
  pause_lessor env lessor pending_dao_review

unfoldable pub check_velocity_limits : Env → Address → Guarded ⊤
check_velocity_limits env lessor = do
  halted ← gets (λ (s : VelocityStore). is_lessor_paused s lessor)
  raise_if halted VelocityError.velocity_limit_exceeded
  saved ← get_velocity_tracker lessor
  tracker ← cleanup_old_terminations env saved
  branch (ltb 0 tracker.total_leases)
      (do
        scaled ← mul_u64 tracker.terminations_24h 10000
        let velocity_percentage = scaled / tracker.total_leases
        branch (ltb velocity_threshold_percent velocity_percentage)
            (do
              trigger_velocity_anomaly env lessor tracker velocity_percentage
              raise VelocityError.velocity_limit_exceeded)
            (pure tt))
      (pure tt)

unfoldable pub record_termination : Env → Address → ℕ → Guarded ⊤
record_termination env lessor lease_id = do
  tracker ← get_velocity_tracker lessor
  terminations_24h ← add_u64 tracker.terminations_24h 1
  save_velocity_tracker lessor (record tracker {
    last_termination_times = tracker.last_termination_times ++ env.timestamp ∷ [];
    terminations_24h = terminations_24h;
  })

abbrev pub new_tracker : Address → VelocityTracker
new_tracker lessor = record {
  lessor = lessor;
  total_leases = 0;
  terminations_24h = 0;
  last_termination_times = [];
  is_paused = false;
  pause_timestamp = none;
}

unfoldable pub initialize_lessor : Address → Guarded ⊤
initialize_lessor lessor = do
  known ← gets (λ (s : VelocityStore). has_velocity_tracker s lessor)
  branch known (pure tt) (save_velocity_tracker lessor (new_tracker lessor))

-- The new size; the negation of the least i64 traps.
unfoldable pub resized : ℕ → ℤ → Guarded ℕ
resized total_leases (pos zero) = pure total_leases
resized total_leases (pos (suc n)) = add_u64 total_leases (suc n)
resized total_leases (negsuc n) =
    branch (ltb 0 total_leases) (trap_unless (ltb (suc n) half_64) (total_leases - suc n))
      (pure total_leases)

unfoldable pub update_portfolio_size : Address → ℤ → Guarded ⊤
update_portfolio_size lessor delta = do
  tracker ← get_velocity_tracker lessor
  total_leases ← resized tracker.total_leases delta
  save_velocity_tracker lessor (record tracker { total_leases = total_leases })

unfoldable pub resume_lessor : Address → Guarded ⊤
resume_lessor lessor = do
  modify (λ (s : VelocityStore). record s { paused = erase lessor s.paused })
  tracker ← get_velocity_tracker lessor
  save_velocity_tracker lessor (record tracker { is_paused = false; pause_timestamp = none })

unfoldable pub dao_approve_resume : Address → Address → ℕ → Guarded ⊤
dao_approve_resume dao_member lessor request_id = do
  stored ← gets (λ (s : VelocityStore). s.admin)
  dao_multisig ← or_raise stored VelocityError.unauthorised
  raise_if (not (dao_member == dao_multisig)) VelocityError.unauthorised
  found ← gets (λ (s : VelocityStore). lookup request_id s.requests)
  request ← or_raise found VelocityError.lease_not_found
  let known = mem dao_member request.approvals
  let approved = record request { approvals = request.approvals ++ dao_member ∷ [] }
  branch known (pure tt) (store_request request_id approved)
  let current = if known then request else approved
  branch (leb 1 (length current.approvals))
      (do resume_lessor lessor; store_request request_id (record current { approved = true }))
      (pure tt)

unfoldable pub get_velocity_stats : Address → Guarded (ℕ × ℕ × ℕ × Bool)
get_velocity_stats lessor = do
  tracker ← get_velocity_tracker lessor
  velocity_percentage ←
      branch (ltb 0 tracker.total_leases)
        (do scaled ← mul_u64 tracker.terminations_24h 10000; pure (scaled / tracker.total_leases))
        (pure 0)
  pure (tracker.total_leases, tracker.terminations_24h, velocity_percentage, tracker.is_paused)
