-- ===== src/Velocity/Limits.antt =====
-- What the check of a lessor's terminations answers, and what of its writes the host keeps.
use lease_flow_protocol_cont.Base.{
  ℕ, ◌-◌, ◌*◌, ◌/◌, ◌≤◌, ◌<◌, ◌≡◌, ◌⊎◌, inl, inr, refl, arith, true, false, some, lookup,
  lookup-insert_self, ltb, u64_max, Address, Env, err, invoke, inl, inr, ◌>>=◌, After, After-pure,
  After-raise, After-gets, After-bind, After-guard, After-checked, After-branch, After-or_raise,
  After-any, length, mul_le,
}
use lease_flow_protocol_cont.Velocity.Types.{VelocityTracker, VelocityError, VelocityStore, Guarded}
use lease_flow_protocol_cont.Velocity.Calls.{
  get_velocity_tracker, is_lessor_paused, recent_times, cleanup_old_terminations, pause_lessor,
  trigger_velocity_anomaly, check_velocity_limits,
}

-- The terminations of the last 24 hours.
abbrev pub recent : Env → VelocityTracker → ℕ
recent env tracker = length (recent_times (env.timestamp - 86400) tracker.last_termination_times)

-- The lessor is not paused, and at most a tenth of the portfolio (in whole basis points) was
-- terminated in the last 24 hours.
pub record IsWithin (env : Env) (s : VelocityStore) (lessor : Address) : Type 0 where
  pub tracker : VelocityTracker
  pub found : lookup lessor s.trackers ≡ some tracker
  pub running : is_lessor_paused s lessor ≡ false
  pub below :
      (tracker.total_leases ≡ 0) ⊎ (recent env tracker * 10000 < 1001 * tracker.total_leases)

module _ {A : Type 0} {Q : A → VelocityStore → Type 0} {s : VelocityStore} where
  pub After-get_velocity_tracker :
      (lessor : Address) (f : VelocityTracker → Guarded A)
      → ((t : VelocityTracker) → lookup lessor s.trackers ≡ some t → After Q s (f t))
      → After Q s (get_velocity_tracker lessor >>= f)
  After-get_velocity_tracker lessor f h =
      After-bind _ _ (After-bind _ _ (After-gets _ (After-or_raise _ _ h)))

quotient_below : (n total : ℕ) → 0 < total → ltb 1000 (n / total) ≡ false → n < 1001 * total
quotient_below n total pos le =
    let q : n / total ≤ 1000 = ground arith in grind (arith, mul_le total (n / total) 1000 q)

-- A check that succeeds changes nothing, and then the lessor has a tracker and is not paused, and
-- the portfolio is empty or the terminations of the last 24 hours are less than 10.01 percent of
-- it.
pub check_velocity_limits-IsWithin :
    (env : Env) (s : VelocityStore) (lessor : Address)
    → After (λ a d. (d ≡ s) × IsWithin env s lessor) s (check_velocity_limits env lessor)
unfolding check_velocity_limits cleanup_old_terminations
check_velocity_limits-IsWithin env s lessor = After-bind _ _ (
    After-gets _ (
      After-guard _ _ _ λ running. After-get_velocity_tracker _ _ λ t found. After-bind _ _ (
        After-checked _ _ _ λ _. After-pure _ (
          After-branch _ _ _
            (λ some_leases. After-checked _ _ _ λ _.
              After-branch _ _ _ (λ _. After-bind _ _ (After-any _ λ _ _. After-raise _))
                (λ low. After-pure _ (
                  refl,
                  record {
                    tracker = t;
                    found = found;
                    running = running;
                    below = inr (quotient_below _ _ (ground arith) low);
                  },
                )))
            (λ empty. After-pure _ (
              refl,
              record { tracker = t; found = found; running = running; below = inl (ground arith) },
            ))))))

-- A lessor who has a tracker, is not paused and terminated at least 10.01 percent of a portfolio
-- in the last 24 hours is refused, at a time after the first day and with a count whose product
-- with 10000 fits u64: the function itself records the pause, but the call returns the error and
-- the host drops its writes, so that the storage is as before the call.
pub check_velocity_limits-invoke :
    (env : Env) (s : VelocityStore) (lessor : Address) (t : VelocityTracker)
    → lookup lessor s.trackers ≡ some t
    → is_lessor_paused s lessor ≡ false
    → 86400 ≤ env.timestamp
    → 0 < t.total_leases
    → recent env t * 10000 ≤ u64_max
    → 1000 < recent env t * 10000 / t.total_leases
    → (is_lessor_paused (check_velocity_limits env lessor s).1 lessor ≡ true)
      × (invoke (check_velocity_limits env lessor) s
          ≡ (err VelocityError.velocity_limit_exceeded, s))
unfolding check_velocity_limits cleanup_old_terminations trigger_velocity_anomaly pause_lessor ◌>>=◌
    invoke
check_velocity_limits-invoke env s lessor t found running late some_leases small high =
    (ground (arith, lookup-insert_self lessor true s.paused), ground arith)
