-- ===== src/Motion/Mode.antt =====
-- Starting a motion mode: Ros_MotionControl_StartMotionMode and Ros_Controller_DisableEcoMode of
-- src/MotionControl.c.
use motoros.Prelude.{
  ℕ, zero, suc, ℤ, pos, Bool, true, false, not, ◌&&◌, List, [], ◌∷◌, eqb_ℤ, if◌then◌else◌,
}
use motoros.Data.{CtrlGroup, Controller, MotionMode, inactive, trajectory, point_queue}
use motoros.CtrlGroup.{get_pulse_pos_cmd}
use motoros.Platform.{Platform, World, State, Environment}
use motoros.Controller.{
  is_remote, is_operating, is_continuous_cycle, is_servo_on, is_eco_mode, is_any_fault_active,
  master_task_is_job_name, is_motion_ready, truthy, has_data_in_queue,
}
use motoros.Controller.Update.{clear_q_all, io_status_update}
use motoros.Motion.Stop.{with_ctl, hold}

-- Loops that wait for 5000 ms in steps of 50 ms: MOTION_START_TIMEOUT over MOTION_START_CHECK_PERIOD,
-- and the two constants of Ros_Controller_DisableEcoMode.
abbrev pub checks : ℕ
checks = 100

abbrev pub check_period : ℕ
check_period = 50

abbrev pub same_mode : MotionMode → MotionMode → Bool
same_mode inactive inactive = true
same_mode trajectory trajectory = true
same_mode point_queue point_queue = true
same_mode _ _ = false

-- ALARM_OPERATION_FAIL and SUBCODE_OPERATION_SET_CYCLE of src/ErrorHandling.h
abbrev pub alarm_operation_fail : ℕ
alarm_operation_fail = 8016

abbrev pub subcode_operation_set_cycle : ℕ
subcode_operation_set_cycle = 0

module _ (p : Platform) where
  abbrev pub update : State p → State p
  update s = with_ctl p s (io_status_update p s.ctl s.world).1

  abbrev pub ready : State p → Bool
  ready s = is_motion_ready p s.ctl s.world

  -- `(ret == 0) && (rData.err_no == 0)`
  abbrev accepted : ℤ × ℤ → Bool
  accepted (ret, err_no) = eqb_ℤ ret (pos 0) && eqb_ℤ err_no (pos 0)

  abbrev pub set_positions : World p → List CtrlGroup → List CtrlGroup
  set_positions w [] = []
  set_positions w (g ∷ gs) =
      record g { prev_pulse_pos = (get_pulse_pos_cmd p.fpu p.ids p.api g w).1 } ∷ set_positions w gs

  module _ (env : Environment p) where
    -- The wait loops: update the status, leave the loop when the test passes, sleep.
    unfoldable pub wait_until : (State p → Bool) → ℕ → State p → State p
    wait_until test zero s = s
    wait_until test (suc n) s =
        let rest = wait_until test n (env check_period (update s)) in
        if test (update s) then update s else rest

    -- Ros_Controller_DisableEcoMode: true for OK. The structure is cleared after the power is set
    -- in it, which leaves OFF.
    unfoldable pub disable_eco_mode : State p → Bool × State p
    disable_eco_mode s =
        if is_eco_mode s.ctl
        then (let (answer, w) = p.api.set_servo_power s.world 0 in
            if accepted answer
            then (let s' =
                  wait_until (λ t. not (is_eco_mode t.ctl)) checks (record s { world = w }) in
                (not (is_eco_mode s'.ctl), s'))
            else (false, record s { world = w }))
        else (true, s)

    abbrev pub activate : MotionMode → Controller → Controller
    activate mode c = record c {
      active_motion_mode = mode;
      must_initialize_point_queue = (elim mode [
        | point_queue ↦ true
        | _ ↦ c.must_initialize_point_queue
      ]);
    }

    -- From the label `updateStatus` on.
    unfoldable pub finish : MotionMode → State p → Bool × State p
    finish mode s =
        let s' = env 200 (update s) in
        if ready s' then (true, with_ctl p s' (activate mode s'.ctl)) else (false, s')

    -- From the check of the queues to the label.
    unfoldable pub start_job : MotionMode → State p → Bool × State p
    start_job mode s =
        let emptied =
          if truthy (has_data_in_queue p s.ctl s.world)
          then clear_q_all p s.ctl s.world
          else s.ctl in
        let placed : Controller = record emptied {
          groups = set_positions s.world emptied.groups;
        } in
        let (answer, w) = p.api.start_job s.world placed.inform_job_name in
        let started : State p = record { ctl = placed; world = w } in
        if accepted answer
        then finish mode (wait_until ready checks started)
        else finish mode started

    -- Servo power is requested and waited for.
    unfoldable pub request_servo : MotionMode → State p → Bool × State p
    request_servo mode s =
        let (answer, w) = p.api.set_servo_power s.world 1 in
        let requested : State p = record s { world = w } in
        if accepted answer
        then (let s' = wait_until (λ t. is_servo_on t.ctl) checks requested in
            if is_servo_on s'.ctl then start_job mode s' else finish mode s')
        else finish mode requested

    -- The section under `Servo On`.
    unfoldable pub ensure_servo : MotionMode → State p → Bool × State p
    ensure_servo mode s =
        if is_servo_on s.ctl
        then start_job mode s
        else if is_eco_mode s.ctl
        then (let (ok, s') = disable_eco_mode s in
            if ok then request_servo mode s' else finish mode s')
        else request_servo mode s

    abbrev refuse_cycle : State p → Bool × State p
    refuse_cycle s = (
      false,
      record s { world = p.api.set_alarm s.world alarm_operation_fail subcode_operation_set_cycle },
    )

    -- The section under `Check if in continous cycle mode`.
    unfoldable pub ensure_cycle : MotionMode → State p → Bool × State p
    ensure_cycle mode s =
        if is_continuous_cycle s.ctl
        then ensure_servo mode s
        else (let (answer, w) = p.api.set_cycle_auto s.world in
            let set : State p = record s { world = w } in
            if accepted answer
            then (let s' = update (env s.ctl.interpol_period set) in
                if is_continuous_cycle s'.ctl then ensure_servo mode s' else refuse_cycle s')
            else refuse_cycle set)

    -- The job is held and released, with a pause after each.
    abbrev restart_job : State p → State p
    restart_job s = env check_period (hold p (env check_period (hold p s true)) false)

    -- From `Check for condition that need operator manual intervention` on.
    unfoldable pub attempt : MotionMode → State p → Bool × State p
    attempt mode s =
        if not (is_remote s.ctl)
        then (false, s)
        else if is_any_fault_active s.ctl
        then (false, s)
        else if is_operating s.ctl
        then (if master_task_is_job_name p s.world s.ctl.inform_job_name
            then ensure_cycle mode (restart_job s)
            else finish mode s)
        else ensure_cycle mode s

    -- Ros_MotionControl_StartMotionMode
    unfoldable pub start_motion_mode : MotionMode → State p → Bool × State p
    start_motion_mode mode s =
        if not (same_mode s.ctl.active_motion_mode inactive)
          && not (same_mode s.ctl.active_motion_mode mode)
        then (false, s)
        else if ready (update s)
        then (true, update s)
        else attempt mode (update s)
