-- ===== src/Startup/Cycle.antt =====
-- RosInitTask of src/main.c: the outputs at the start, the wait for the controller and the loop that
-- watches it while the agent is connected.
use motoros.Prelude.{
  ℕ, zero, suc, ◌+◌, ◌-◌, ◌*◌, ◌^◌, Bool, true, false, Option, none, some, List, [], ◌∷◌, ltb,
  get_or, if◌then◌else◌,
}
use motoros.Data.{Controller}
use motoros.Controller.{
  io_status_addr, io_status_max, is_alarm, feedback_waiting_mp_incmove, feedback_mp_incmove_done,
  feedback_initialization_done, feedback_controller_running, feedback_agent_connected,
  feedback_failure,
}
use motoros.Controller.Update.{io_status_update}
use motoros.Platform.{Platform, World, State, Environment}
use motoros.Startup.{Parameters, set_io_state}

-- The outputs that are written when the task starts
abbrev pub boot_outputs : List (ℕ × ℕ)
boot_outputs =
    (feedback_waiting_mp_incmove, 0)
    ∷ (feedback_mp_incmove_done, 0)
    ∷ (feedback_initialization_done, 0)
    ∷ (feedback_controller_running, 1)
    ∷ (feedback_agent_connected, 0)
    ∷ (feedback_failure, 0)
    ∷ (11130, 0)
    ∷ (11131, 0)
    ∷ (11132, 0)
    ∷ (11133, 0)
    ∷ (11134, 0)
    ∷ (11135, 0)
    ∷ (11136, 0)
    ∷ (11137, 0)
    ∷ []

-- `tickDiff`, of two ULONG counts of ticks. The branch for a rollover is one tick short, and it is
-- taken for two counts that are the same.
unfoldable pub tick_difference : ℕ → ℕ → ℕ
tick_difference before now = if ltb before now then now - before else (2 ^ 32 - 1 - before) + now

-- How long the loop sleeps, in milliseconds, with `rtc` milliseconds to a tick
unfoldable pub sleep_time : ℕ → ℕ → ℕ → ℕ → ℕ
unfolding tick_difference
sleep_time period rtc before now =
    let elapsed = tick_difference before now * rtc in
    if ltb elapsed period then period - elapsed else 1

module _ (p : Platform) (m : Parameters) where
  -- Ros_Controller_SetIOState for each of the outputs
  unfoldable pub write_outputs : List (ℕ × ℕ) → World p → World p
  write_outputs [] w = w
  write_outputs (c ∷ cs) w = write_outputs cs (set_io_state p m w c.0 c.1)

  -- Ros_Controller_StatusRead into ioStatus, whose answer is not read
  abbrev pub read_status : State p → State p
  read_status s =
      let size = io_status_max s.ctl.model in
      let (ret, values) =
        p.api.read_io s.world (io_status_addr s.ctl.model) (statuses s.ctl size 0) in
      record s { ctl = record s.ctl { io_status = λ i. get_or values i 0 } }
    where
      statuses : Controller → ℕ → ℕ → List ℕ
      statuses c zero i = []
      statuses c (suc n) i = c.io_status i ∷ statuses c n (i + 1)

  module _ (env : Environment p) where
    -- Ros_Controller_WaitInitReady, with `n` turns of its loop; none is a want of turns.
    unfoldable pub wait_init_ready : ℕ → State p → Option (State p)
    unfolding is_alarm
    wait_init_ready zero s = none
    wait_init_ready (suc n) s =
        let t = read_status (env 2500 s) in
        let later = wait_init_ready n t in if is_alarm t.ctl then later else some t

    abbrev pub go_on : Bool × Controller → World p → Option (State p)
    go_on (true, c) w = some (record { ctl = c; world = w })
    go_on (false, c) w = none

    -- One turn of the loop: the sleep and the update of the status; none is the assertion that follows
    -- an update that failed. What is published is Ros_PositionMonitor_UpdateLocation.
    unfoldable pub monitor_turn : ℕ → ℕ → ℕ → ℕ → State p → Option (State p)
    unfolding sleep_time io_status_update
    monitor_turn period rtc before now s =
        let t = env (sleep_time period rtc before now) s in
        go_on (io_status_update p t.ctl t.world) t.world
