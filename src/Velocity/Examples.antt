-- ===== src/Velocity/Examples.antt =====
-- The theorems on contracts/leaseflow_contracts/src/velocity_guard.rs at concrete states.
use lease_flow_protocol_cont.Base.{
  ◌≡◌, refl, arith, true, false, some, none, [], ◌∷◌, Env, err, pos, invoke, ◌>>=◌,
}
use lease_flow_protocol_cont.Velocity.Types.{VelocityTracker, VelocityError, VelocityStore}
use lease_flow_protocol_cont.Velocity.Calls.{
  check_velocity_limits, cleanup_old_terminations, is_lessor_paused,
}
use lease_flow_protocol_cont.Velocity.Limits.{
  IsWithin, check_velocity_limits-IsWithin, check_velocity_limits-invoke,
}
use lease_flow_protocol_cont.Velocity.Steps.{
  IsIdle, initializes, resizes, records, checks, dispatch, call, here, next, Reach-IsIdle,
}

abbrev env : Env
env = record { timestamp = 200000; sequence = 5; auth = λ _. true }

-- Three of twenty leases were terminated a minute ago.
abbrev busy_tracker : VelocityTracker
busy_tracker = record {
  lessor = 1;
  total_leases = 20;
  terminations_24h = 3;
  last_termination_times = 199940 ∷ 199940 ∷ 199940 ∷ [];
  is_paused = false;
  pause_timestamp = none;
}

abbrev busy : VelocityStore
busy = record {
  trackers = (1, busy_tracker) ∷ [];
  paused = [];
  requests = [];
  admin = some 9;
  events = [];
}

check_velocity_limits-invoke_example :
    (is_lessor_paused (check_velocity_limits env 1 busy).1 1 ≡ true)
    × (invoke (check_velocity_limits env 1) busy
        ≡ (err VelocityError.velocity_limit_exceeded, busy))
check_velocity_limits-invoke_example =
    check_velocity_limits-invoke env busy 1 busy_tracker refl refl (omega arith) (omega arith)
      (omega arith) (omega arith)

abbrev empty : VelocityStore
empty = record { trackers = []; paused = []; requests = []; admin = some 9; events = [] }

abbrev after_check : VelocityStore
after_check =
    let s = (invoke (dispatch env (initializes 1)) empty).1 in
    let s = (invoke (dispatch env (resizes 1 (pos 4))) s).1 in
    let s = (invoke (dispatch env (records 1 7)) s).1 in (invoke (dispatch env (checks 1)) s).1

Reach-IsIdle_example : IsIdle after_check
Reach-IsIdle_example =
    Reach-IsIdle (record { tracked = tt; nobody_paused = refl; no_request = refl })
      (next
        (next (next (next here (call env (initializes 1))) (call env (resizes 1 (pos 4))))
          (call env (records 1 7)))
        (call env (checks 1)))

-- Two of twenty leases were terminated.
abbrev calm_tracker : VelocityTracker
calm_tracker = record busy_tracker {
  last_termination_times = 199940 ∷ 199940 ∷ [];
  terminations_24h = 2;
}

abbrev calm : VelocityStore
calm = record busy { trackers = (1, calm_tracker) ∷ [] }

-- The check of this lessor succeeds.
check_velocity_limits-IsWithin_example :
    ((check_velocity_limits env 1 calm).1 ≡ calm) × IsWithin env calm 1
unfolding check_velocity_limits cleanup_old_terminations ◌>>=◌
check_velocity_limits-IsWithin_example = (check_velocity_limits-IsWithin env calm 1).holds
