-- ===== src/Communication.antt =====
-- The connection to the agent: the timers of src/CommunicationExecutor.c that watch it, and what
-- Ros_Communication_StartExecutors does about motion when it is lost.
pub mod Disconnect
mod Tests
use motoros.Prelude.{ℕ, zero, suc, Bool, true, false, not, ◌&&◌, Option, none, some, if◌then◌else◌}
use motoros.Data.{Controller, inactive, trajectory, point_queue}
use motoros.Platform.{Platform, State, World, Environment}
use motoros.Controller.{truthy, is_in_motion}
use motoros.Motion.Stop.{stop_motion, validate_motion_mode_is_ok}

-- g_Ros_Communication_AgentIsConnected, the static variable of the monitor of the link, and whether
-- its timer runs
pub record Link : Type 0 where
  pub agent_is_connected : Bool
  pub link_was_up : Bool
  pub monitor_runs : Bool

-- Ros_Communication_PingAgentConnection, from whether the agent answered: also whether the clock is
-- synchronized.
abbrev pub ping_agent_connection : Bool → Bool → Link → Bool × Link
ping_agent_connection sync answered l =
    (answered && sync, record l { agent_is_connected = answered })

-- Ros_Communication_MonitorUserLanState, from the state of the link; none is a status that is not OK.
abbrev pub monitor_user_lan_state : Option Bool → Link → Link
monitor_user_lan_state none l = record l { monitor_runs = false }
monitor_user_lan_state (some up) l = record l {
  agent_is_connected = (if l.link_was_up && not up then false else l.agent_is_connected);
  link_was_up = up;
}

abbrev pub is_mode_active : Controller → Bool
is_mode_active c = elim c.active_motion_mode [ inactive ↦ false | _ ↦ true ]

module _ (p : Platform) where
  -- Ros_Controller_IsInMotion as a condition: ERROR counts as motion.
  abbrev pub moves : State p → Bool
  moves s = truthy (is_in_motion p s.ctl s.world)

  -- Ros_MotionControl_IsRosControllingMotion
  unfoldable pub is_ros_controlling_motion : State p → Bool
  is_ros_controlling_motion s = moves s && is_mode_active s.ctl

  module _ (env : Environment p) where
    -- One turn of the loop while the agent is connected. `spin` is what the executor of the client
    -- library calls.
    unfoldable pub executor_turn : ℕ → (State p → State p) → State p → State p
    executor_turn period spin s = validate_motion_mode_is_ok p (spin (env period s))

    -- The wait for the end of motion, a second each time; none is a want of fuel.
    unfoldable pub wait_still : ℕ → State p → Option (State p)
    wait_still zero s = if moves s then none else some s
    wait_still (suc n) s = let rest = wait_still n (env 1000 s) in if moves s then rest else some s

    -- What is done about motion when the agent has gone
    unfoldable pub agent_gone : Bool → ℕ → State p → Option (State p)
    unfolding is_ros_controlling_motion wait_still stop_motion
    agent_gone stop_on_disconnect n s =
        let waited = wait_still n s in
        if moves s
        then (if is_ros_controlling_motion s && stop_on_disconnect
            then some (stop_motion p env true s).1
            else waited)
        else some s
