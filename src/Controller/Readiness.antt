-- ===== src/Controller/Readiness.antt =====
-- When the controller is ready for motion, and what it reports otherwise
-- (Ros_Controller_GetNotReadySubcode and Ros_Controller_IsMotionReady of src/ControllerStatusIO.c).
use motoros.Prelude.{◌≡◌, ◌↔◌, ◌⊎◌, true, false, arith}
use motoros.Data.{Controller}
use motoros.Platform.{Platform, World}
use motoros.Controller.{
  ready, is_alarm, is_error, is_estop, is_play, is_continuous_cycle, is_remote, is_servo_on,
  is_hold, is_pfl_active, is_mp_inc_move_error_active, is_operating, is_waiting_ros,
  is_any_fault_active, master_task_is_job_name, get_not_ready_subcode, is_motion_ready,
}

-- The conditions for motion, one by one.
pub record CanMove (p : Platform) (c : Controller) (w : World p) : Type 0 where
  pub no_alarm : is_alarm c ≡ false
  pub no_error : is_error c ≡ false
  pub no_estop : is_estop c ≡ false
  pub playing : is_play c ≡ true
  pub continuous : is_continuous_cycle c ≡ true
  pub remote : is_remote c ≡ true
  pub powered : is_servo_on c ≡ true
  pub not_held : is_hold c ≡ false
  pub no_pfl : is_pfl_active c ≡ false
  pub no_move_error : is_mp_inc_move_error_active c ≡ false
  pub operating : is_operating c ≡ true
  pub own_job : master_task_is_job_name p w c.inform_job_name ≡ true
  pub waiting : is_waiting_ros c ≡ true

-- The controller is ready for motion exactly when every condition holds; then no fault is active,
-- and the subcode is MOTION_READY exactly when the controller is ready.
pub is_motion_ready-CanMove :
    (p : Platform) (c : Controller) (w : World p)
    → ((is_motion_ready p c w ≡ true) ↔ CanMove p c w)
      × ((get_not_ready_subcode p c w ≡ ready) ↔ CanMove p c w)
      × ((is_motion_ready p c w ≡ false) ⊎ (is_any_fault_active c ≡ false))
unfolding is_motion_ready get_not_ready_subcode is_any_fault_active
is_motion_ready-CanMove p c w =
    ((ground arith, ground arith), (ground arith, ground arith), ground arith)
