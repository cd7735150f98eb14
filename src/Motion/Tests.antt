-- ===== src/Motion/Tests.antt =====
-- Starting and stopping motion of the sample robot.
use motoros.Prelude.{◌≡◌, ◌⊎◌, true, false}
use motoros.Data.{trajectory}
use motoros.Controller.{is_remote, is_any_fault_active}
use motoros.Controller.Cleared.{IsCleared}
use motoros.Motion.Stop.{stop_motion, has_data_to_process}
use motoros.Motion.Stopped.{waited, stop_motion-IsCleared}
use motoros.Motion.Mode.{start_motion_mode, update, ready}
use motoros.Motion.Started.{may_start, Activates, start_motion_mode-cases}
use motoros.Sample.Robot.{robot, calm, ready_state}

start_motion_mode-cases_example :
    let r = start_motion_mode robot calm trajectory ready_state in
    let u = update robot ready_state in
    ((may_start robot calm trajectory ready_state ≡ false) × (r ≡ (false, ready_state)))
    ⊎ (((may_start robot calm trajectory ready_state ≡ true)
          × (ready robot u ≡ true)
          × (r ≡ (true, u)))
        ⊎ (((may_start robot calm trajectory ready_state ≡ true)
              × (ready robot u ≡ false)
              × ((is_remote u.ctl ≡ false) ⊎ (is_any_fault_active u.ctl ≡ true))
              × (r ≡ (false, u)))
            ⊎ ((may_start robot calm trajectory ready_state ≡ true)
                × (ready robot u ≡ false)
                × (is_remote u.ctl ≡ true)
                × (is_any_fault_active u.ctl ≡ false)
                × Activates robot trajectory r)))
start_motion_mode-cases_example = start_motion_mode-cases robot calm trajectory ready_state

stop_motion-IsCleared_example :
    let r = stop_motion robot calm true ready_state in
    IsCleared robot (waited robot calm ready_state).1.world r.1.ctl.groups
    × (r.1.ctl.stop_motion ≡ false)
    × (r.0 ≡ (waited robot calm ready_state).0)
    × ((r.0 ≡ false) ⊎ (has_data_to_process (waited robot calm ready_state).1.ctl.groups ≡ false))
stop_motion-IsCleared_example = stop_motion-IsCleared robot calm true ready_state
