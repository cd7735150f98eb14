-- ===== src/Controller/Tests.antt =====
-- The state of the sample controller.
use motoros.Prelude.{◌<◌, ◌≤◌, ◌≡◌, ◌↔◌, ◌⊎◌, inl, refl, true, false, [], ◌∷◌, arith}
use motoros.Data.{Controller}
use motoros.Platform.{World}
use motoros.Controller.{
  ready, io_status_max, is_motion_ready, get_not_ready_subcode, is_any_fault_active, is_alarm,
  is_error, is_estop, is_play, is_continuous_cycle, is_remote, is_servo_on, is_hold, is_pfl_active,
  is_mp_inc_move_error_active, is_operating, is_waiting_ros, io_status_addr,
  master_task_is_job_name, is_eco_mode, strncmp_eq,
}
use motoros.Controller.Update.{status_read, io_status_update}
use motoros.Controller.Readiness.{CanMove, is_motion_ready-CanMove}
use motoros.Controller.Signals.{io_status_update-signals}
use motoros.Controller.Cleared.{IsCleared, Stops, io_status_update-IsCleared}
use motoros.Sample.Robot.{robot, controller_with, ready_signals, world_with, ready_addresses}

abbrev c : Controller
c = controller_with ready_signals

abbrev w : World robot
w = world_with ready_addresses

can_move : is_motion_ready robot c w ≡ true
unfolding is_motion_ready get_not_ready_subcode is_alarm is_error is_estop is_play
    is_continuous_cycle is_remote is_servo_on is_hold is_pfl_active is_mp_inc_move_error_active
    is_operating is_waiting_ros master_task_is_job_name is_eco_mode strncmp_eq
can_move = refl

is_motion_ready-CanMove_example :
    ((is_motion_ready robot c w ≡ true) ↔ CanMove robot c w)
    × ((get_not_ready_subcode robot c w ≡ ready) ↔ CanMove robot c w)
    × ((is_motion_ready robot c w ≡ false) ⊎ (is_any_fault_active c ≡ false))
is_motion_ready-CanMove_example = is_motion_ready-CanMove robot c w

io_status_update-signals_example :
    let (ok, io) = status_read robot c w in
    let (result, c') = io_status_update robot c w in
    ((ok ≡ false) × (result ≡ false) × (c' ≡ c))
    ⊎ ((ok ≡ true)
        × (result ≡ true)
        × ((7 < io_status_max c.model) × (c'.io_status 7 ≡ io 7)
            ⊎ (io_status_max c.model ≤ 7) × (c'.io_status 7 ≡ c.io_status 7))
        × (c'.status.motion_possible ≡ is_motion_ready robot c' w)
        × ((is_motion_ready robot c' w ≡ false) ⊎ (c'.status.error_codes ≡ [])))
io_status_update-signals_example = io_status_update-signals robot c w 7

-- A user alarm has come up since the last update.
abbrev alarmed : World robot
alarmed = world_with (50013 ∷ ready_addresses)

alarm-Stops : Stops robot alarmed (status_read robot c alarmed).1 c 3
unfolding io_status_addr
alarm-Stops = (ground arith, inl (omega arith, refl))

io_status_update-IsCleared_example :
    IsCleared robot alarmed (io_status_update robot c alarmed).1.groups
io_status_update-IsCleared_example = io_status_update-IsCleared robot c alarmed 3 refl alarm-Stops
