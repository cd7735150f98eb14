-- ===== src/Motion/Started.antt =====
-- What a successful start of a motion mode means, and what a refused one does not do
-- (Ros_MotionControl_StartMotionMode of src/MotionControl.c).
use motoros.Prelude.{
  ◌≡◌, ◌≢◌, ◌⊎◌, refl, ◌∙◌, Bool, true, false, ◌||◌, arith, Bool-cases, inl, inr, if◌then◌else◌,
}
use motoros.Data.{Controller, MotionMode, inactive, point_queue}
use motoros.Platform.{Platform, World, State, Environment}
use motoros.Controller.{
  is_motion_ready, is_remote, is_any_fault_active, is_alarm, is_error, is_estop, is_play,
  is_continuous_cycle, is_servo_on, is_hold, is_pfl_active, is_mp_inc_move_error_active,
  is_operating, is_waiting_ros,
}
use motoros.Motion.Mode.{
  update, ready, finish, start_job, request_servo, ensure_servo, ensure_cycle, activate, attempt,
  start_motion_mode, same_mode,
}

module _ (p : Platform) where
  -- The mode and the flag for the first point take no part in the readiness.
  is_motion_ready_mode :
      (c : Controller) (w : World p) (mode : MotionMode) (first : Bool)
      → is_motion_ready p
          (record c { active_motion_mode = mode; must_initialize_point_queue = first })
          w
        ≡ is_motion_ready p c w
  unfolding is_motion_ready is_alarm is_error is_estop is_play is_continuous_cycle is_remote
      is_servo_on is_hold is_pfl_active is_mp_inc_move_error_active is_operating is_waiting_ros
  is_motion_ready_mode c w mode first = refl

  -- A start that returns TRUE has activated the mode on a controller that is ready, and a point
  -- queue will begin with a first point.
  abbrev pub Activates : MotionMode → Bool × State p → Type 0
  Activates mode r =
      (r.0 ≡ false)
      ⊎ ((r.0 ≡ true)
          × (ready p r.1 ≡ true)
          × (r.1.ctl.active_motion_mode ≡ mode)
          × ((mode ≢ point_queue) ⊎ (r.1.ctl.must_initialize_point_queue ≡ true)))

  module _ (env : Environment p) (mode : MotionMode) where
    refusal-Activates : (s : State p) → Activates mode (false, s)
    refusal-Activates s = inl refl

    first_point :
        (m : MotionMode) (c : Controller)
        → (m ≢ point_queue) ⊎ ((activate p env m c).must_initialize_point_queue ≡ true)
    first_point m c = ground arith

    finish-Activates : (s : State p) → Activates mode (finish p env mode s)
    unfolding finish
    finish-Activates s =
        let s' = env 200 (update p s) in
        elim (Bool-cases (ready p s')) [
          | inr idle ↦ rw idle (inl refl)
          | inl moves ↦ rw moves (
              inr (
                refl,
                is_motion_ready_mode s'.ctl s'.world mode _ ∙ moves,
                refl,
                first_point mode s'.ctl,
              ))
        ]

    if-Activates :
        (b : Bool) (x y : Bool × State p)
        → Activates mode x
        → Activates mode y
        → Activates mode (if b then x else y)
    if-Activates true x y h k = h
    if-Activates false x y h k = k

    start_job-Activates : (s : State p) → Activates mode (start_job p env mode s)
    unfolding start_job
    start_job-Activates s = search (if-Activates, finish-Activates)

    request_servo-Activates : (s : State p) → Activates mode (request_servo p env mode s)
    unfolding request_servo
    request_servo-Activates s = search (if-Activates, finish-Activates, start_job-Activates)

    ensure_servo-Activates : (s : State p) → Activates mode (ensure_servo p env mode s)
    unfolding ensure_servo
    ensure_servo-Activates s =
        search (if-Activates, finish-Activates, start_job-Activates, request_servo-Activates)

    ensure_cycle-Activates : (s : State p) → Activates mode (ensure_cycle p env mode s)
    unfolding ensure_cycle
    ensure_cycle-Activates s = search (if-Activates, refusal-Activates, ensure_servo-Activates)

    attempt-Activates : (s : State p) → Activates mode (attempt p env mode s)
    unfolding attempt
    attempt-Activates s =
        search (if-Activates, refusal-Activates, finish-Activates, ensure_cycle-Activates)

    -- Without REMOTE, or with a fault, nothing is attempted.
    refused_attempt :
        (u : State p)
        → ((is_remote u.ctl ≡ true) × (is_any_fault_active u.ctl ≡ false))
          ⊎ (attempt p env mode u ≡ (false, u))
    unfolding attempt
    refused_attempt u = ground arith

    -- The request is for the mode that is active, or none is.
    abbrev pub may_start : State p → Bool
    may_start s =
        same_mode s.ctl.active_motion_mode inactive || same_mode s.ctl.active_motion_mode mode

    -- If another mode is active, nothing happens and the answer is FALSE. Otherwise the status is
    -- updated. A controller that is ready then stays as it is, and the answer is TRUE; so the mode
    -- that is active stays inactive if it was. One that is not ready and not in REMOTE, or that has
    -- a fault, stays as it is too, and the answer is FALSE. In all other cases an answer of TRUE
    -- means that the controller is ready, the mode is active, and a point queue begins with a first
    -- point.
    pub start_motion_mode-cases :
        (s : State p)
        → let r = start_motion_mode p env mode s in
          let u = update p s in
          ((may_start s ≡ false) × (r ≡ (false, s)))
          ⊎ (((may_start s ≡ true) × (ready p u ≡ true) × (r ≡ (true, u)))
              ⊎ (((may_start s ≡ true)
                    × (ready p u ≡ false)
                    × ((is_remote u.ctl ≡ false) ⊎ (is_any_fault_active u.ctl ≡ true))
                    × (r ≡ (false, u)))
                  ⊎ ((may_start s ≡ true)
                      × (ready p u ≡ false)
                      × (is_remote u.ctl ≡ true)
                      × (is_any_fault_active u.ctl ≡ false)
                      × Activates mode r)))
    unfolding start_motion_mode
    start_motion_mode-cases s =
        let u = update p s in ground (arith, attempt-Activates u, refused_attempt u)
