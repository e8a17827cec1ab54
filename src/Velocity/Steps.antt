-- ===== src/Velocity/Steps.antt =====
-- The guard's operations as steps, each a call of its own, and what every sequence of them keeps.
use lease_flow_protocol_cont.Base.{
  ℕ, zero, suc, ◌≡◌, refl, arith, false, some, [], lookup, insert, All, All-insert, All-lookup, ℤ,
  pos, negsuc, Address, Env, ⊤, invoke, invoke_keeps, After, After-pure, After-gets, After-bind,
  After-guard, After-found, After-checked, After-branch, After-modify, After-map, After-trap_unless,
  length, length-snoc,
}
use lease_flow_protocol_cont.Velocity.Types.{
  VelocityTracker, DaoApprovalRequest, VelocityStore, Guarded,
}
use lease_flow_protocol_cont.Velocity.Calls.{
  check_velocity_limits, record_termination, initialize_lessor, update_portfolio_size, resized,
  dao_approve_resume, new_tracker,
}
use lease_flow_protocol_cont.Velocity.Limits.{
  check_velocity_limits-IsWithin, After-get_velocity_tracker,
}

pub record IsTracked (lessor : Address) (t : VelocityTracker) : Type 0 where
  pub owner : t.lessor ≡ lessor
  pub counted : t.terminations_24h ≡ length t.last_termination_times
  pub running : t.is_paused ≡ false

-- Each tracker counts its times, and nobody is paused or waits for an approval.
pub record IsIdle (s : VelocityStore) : Type 0 where
  pub tracked : All IsTracked s.trackers
  pub nobody_paused : s.paused ≡ []
  pub no_request : s.requests ≡ []

pub data VelocityRequest : Type 0 where
  checks : Address → VelocityRequest
  records : Address → ℕ → VelocityRequest
  initializes : Address → VelocityRequest
  resizes : Address → ℤ → VelocityRequest
  approves : Address → Address → ℕ → VelocityRequest

unfoldable pub dispatch : Env → VelocityRequest → Guarded ⊤
dispatch env (checks lessor) = check_velocity_limits env lessor
dispatch env (records lessor lease_id) = record_termination env lessor lease_id
dispatch env (initializes lessor) = initialize_lessor lessor
dispatch env (resizes lessor delta) = update_portfolio_size lessor delta
dispatch env (approves member lessor request_id) = dao_approve_resume member lessor request_id

pub data Step (s : VelocityStore) : VelocityStore → Type 0 where
  call : (env : Env) (r : VelocityRequest) → Step s (invoke (dispatch env r) s).1

pub data Reach (s : VelocityStore) : VelocityStore → Type 0 where
  here : Reach s s
  next : {d e : VelocityStore} → Reach s d → Step d e → Reach s e

resized-keeps : (s : VelocityStore) (n : ℕ) (delta : ℤ) → After (λ a d. d ≡ s) s (resized n delta)
unfolding resized
resized-keeps s n (pos zero) = After-pure _ refl
resized-keeps s n (pos (suc k)) = After-trap_unless _ _ λ _. refl
resized-keeps s n (negsuc k) =
    After-branch _ _ _ (λ _. After-trap_unless _ _ λ _. refl) (λ _. After-pure _ refl)

none-found :
    {A : Type 0} (s : VelocityStore)
    → IsIdle s
    → (id : ℕ) {q : DaoApprovalRequest} → lookup id s.requests ≡ some q
    → A
none-found s h id found = absurd (ground (arith, h.no_request))

module _ (env : Env) (s : VelocityStore) (h : IsIdle s) (lessor : Address) where
  save-IsIdle :
      (t : VelocityTracker)
      → IsTracked lessor t
      → IsIdle (record s { trackers = insert lessor t s.trackers })
  save-IsIdle t k = record {
    tracked = All-insert IsTracked lessor t s.trackers h.tracked k;
    nobody_paused = h.nobody_paused;
    no_request = h.no_request;
  }

  IsTracked-of : {t : VelocityTracker} → lookup lessor s.trackers ≡ some t → IsTracked lessor t
  IsTracked-of found = All-lookup IsTracked lessor s.trackers h.tracked found

  check-IsIdle : After (λ a d. IsIdle d) s (check_velocity_limits env lessor)
  check-IsIdle = After-map (λ _ d k. rw k.0 h) (check_velocity_limits-IsWithin env s lessor)

  record-IsIdle : (id : ℕ) → After (λ a d. IsIdle d) s (record_termination env lessor id)
  unfolding record_termination
  record-IsIdle id = After-get_velocity_tracker _ _ λ t found. After-checked _ _ _ λ _.
      After-modify _ (
        let k = IsTracked-of found in
        save-IsIdle _ (record {
          owner = k.owner;
          counted = omega (arith, k.counted, length-snoc t.last_termination_times env.timestamp);
          running = k.running;
        }))

  initialize-IsIdle : After (λ a d. IsIdle d) s (initialize_lessor lessor)
  unfolding initialize_lessor
  initialize-IsIdle = After-bind _ _ (
      After-gets _ (
        After-branch _ _ _ (λ _. After-pure _ h)
          (λ _. After-modify _ (
            save-IsIdle (new_tracker lessor)
              (record { owner = refl; counted = refl; running = refl })))))

  resize-IsIdle : (delta : ℤ) → After (λ a d. IsIdle d) s (update_portfolio_size lessor delta)
  unfolding update_portfolio_size
  resize-IsIdle delta = After-get_velocity_tracker _ _ λ t found. After-bind _ _ (
      After-map
        (λ n d same. rw same (
          After-modify _ (
            let k = IsTracked-of found in
            save-IsIdle _ (record { owner = k.owner; counted = k.counted; running = k.running }))))
        (resized-keeps s t.total_leases delta))

  -- There is no request to approve.
  approve-refused :
      (member : Address) (id : ℕ) → After (λ a d. ⊥) s (dao_approve_resume member lessor id)
  unfolding dao_approve_resume
  approve-refused member id = After-bind _ _ (
      After-gets _ (
        After-found _ _ _ λ _ _. After-guard _ _ _ λ _.
          After-bind _ _ (After-gets _ (After-found _ _ _ λ q found. none-found s h id found))))

dispatch-IsIdle :
    (env : Env) (r : VelocityRequest) (s : VelocityStore)
    → IsIdle s
    → After (λ a d. IsIdle d) s (dispatch env r)
unfolding dispatch
dispatch-IsIdle env (checks lessor) s h = check-IsIdle env s h lessor
dispatch-IsIdle env (records lessor lease_id) s h = record-IsIdle env s h lessor lease_id
dispatch-IsIdle env (initializes lessor) s h = initialize-IsIdle env s h lessor
dispatch-IsIdle env (resizes lessor delta) s h = resize-IsIdle env s h lessor delta
dispatch-IsIdle env (approves member lessor id) s h =
    After-map (λ _ d never. absurd never) (approve-refused env s h lessor member id)

-- From a store where each tracker counts its recorded times and nobody is paused or waits for an approval, every
-- sequence of calls leads to such a store: a pause never takes effect.
pub Reach-IsIdle : {s d : VelocityStore} → IsIdle s → Reach s d → IsIdle d
Reach-IsIdle h here = h
Reach-IsIdle h (next {d = d} r (call env q)) =
    let k = Reach-IsIdle h r in invoke_keeps IsIdle (dispatch env q) d k (dispatch-IsIdle env q d k)
