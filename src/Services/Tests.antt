-- ===== src/Services/Tests.antt =====
-- The services on the sample robot.
use motoros.Prelude.{◌<◌, ◌≤◌, ◌≡◌, ◌⊎◌, refl, true, false, length}
use motoros.Data.{inactive}
use motoros.Controller.{
  ready, not_ready_alarm, not_ready_error, not_ready_not_remote, is_remote, is_alarm, is_error,
  has_data_in_queue, truthy,
}
use motoros.Controller.Cleared.{IsCleared}
use motoros.Motion.Stop.{stop_motion, has_data_to_process}
use motoros.Motion.Stopped.{waited}
use motoros.Services.{
  select_motion_tool, stop_traj_mode_trigger, reset_error_trigger, invalid_selection_index,
}
use motoros.Services.Answers.{
  IsToolChange, select_motion_tool-cases, stop_traj_mode_trigger-cases, reset_error_trigger-cases,
}
use motoros.Sample.Robot.{robot, calm, ready_state}

select_motion_tool-cases_example :
    let r = select_motion_tool ready_state.ctl 0 5 in
    ((r.0.success ≡ true)
      × (is_remote ready_state.ctl ≡ true)
      × (0 < length ready_state.ctl.groups)
      × (5 < 63)
      × IsToolChange ready_state.ctl r.1 0 5 0)
    ⊎ ((r.0.success ≡ false)
        × (r.1 ≡ ready_state.ctl)
        × ((is_remote ready_state.ctl ≡ false) ⊎ ((length ready_state.ctl.groups ≤ 0) ⊎ (63 ≤ 5))))
select_motion_tool-cases_example = select_motion_tool-cases ready_state.ctl 0 5 0

-- The constant calls 63 the greatest valid tool.
last_tool_refused :
    (select_motion_tool ready_state.ctl 0 63).0.result_code ≡ invalid_selection_index
unfolding select_motion_tool is_remote
last_tool_refused = refl

stop_traj_mode_trigger-cases_example :
    let r = stop_traj_mode_trigger robot calm ready_state in
    ((r.0.success ≡ true)
      × (truthy (has_data_in_queue robot ready_state.ctl ready_state.world) ≡ false)
      × (has_data_to_process (waited robot calm ready_state).1.ctl.groups ≡ false)
      × (r.1.ctl.active_motion_mode ≡ inactive)
      × (r.1.ctl.all_groups_init_complete ≡ false)
      × (r.1.ctl.stop_motion ≡ false)
      × IsCleared robot (waited robot calm ready_state).1.world r.1.ctl.groups)
    ⊎ ((r.0.success ≡ false)
        × (((truthy (has_data_in_queue robot ready_state.ctl ready_state.world) ≡ true)
              × (r.1 ≡ ready_state))
            ⊎ ((truthy (has_data_in_queue robot ready_state.ctl ready_state.world) ≡ false)
                × ((waited robot calm ready_state).0 ≡ false)
                × (r.1 ≡ (stop_motion robot calm false ready_state).1))))
stop_traj_mode_trigger-cases_example = stop_traj_mode_trigger-cases robot calm ready_state

reset_error_trigger-cases_example :
    let r = reset_error_trigger robot calm ready_state in
    ((r.0.result_code ≡ ready) × (is_remote ready_state.ctl ≡ true) × (is_alarm r.1.ctl ≡ false))
    ⊎ (((r.0.result_code ≡ not_ready_alarm)
          × (is_remote ready_state.ctl ≡ true)
          × (is_alarm r.1.ctl ≡ true))
        ⊎ (((r.0.result_code ≡ not_ready_error)
              × (is_remote ready_state.ctl ≡ true)
              × (is_error ready_state.ctl ≡ true)
              × (r.1.ctl.mp_inc_move_error ≡ false)
              × (r.1.ctl.pfl_during_ros_move ≡ false))
            ⊎ ((r.0.result_code ≡ not_ready_not_remote)
                × (is_remote ready_state.ctl ≡ false)
                × (r.1 ≡ ready_state))))
reset_error_trigger-cases_example = reset_error_trigger-cases robot calm ready_state
