-- ===== src/Communication/Tests.antt =====
-- A robot that still moves when the agent goes, and is still a second later.
use motoros.Prelude.{◌&&◌, ◌≡◌, ◌⊎◌, refl, true, false, some, [], ◌∷◌, arith}
use motoros.Data.{trajectory}
use motoros.Platform.{State, Environment}
use motoros.Controller.{is_in_motion, has_data_in_queue, some_group_moves}
use motoros.Sample.Robot.{robot, ready_state, six_axes, two_increments}
use motoros.Communication.{monitor_user_lan_state, moves, is_ros_controlling_motion, agent_gone}
use motoros.Communication.Disconnect.{WasStill, WasStopped, WaitedFor, agent_gone-cases}

abbrev still_state : State robot
still_state = record ready_state { ctl = record ready_state.ctl { groups = [] } }

abbrev comes_to_rest : Environment robot
comes_to_rest ms s = still_state

-- Two increments are in the queue, in the mode of trajectories.
abbrev moving_state : State robot
moving_state = record ready_state {
  ctl = record ready_state.ctl {
    active_motion_mode = trajectory;
    groups = record six_axes { inc_q = two_increments } ∷ [];
  };
}

moving_state-moves : is_ros_controlling_motion robot moving_state ≡ true
unfolding is_ros_controlling_motion is_in_motion has_data_in_queue some_group_moves
moving_state-moves = refl

still_state-moves : moves robot still_state ≡ false
unfolding is_in_motion has_data_in_queue some_group_moves
still_state-moves = refl

-- A link that went down stays in the static variable when the agent is connected again.
down_twice :
    monitor_user_lan_state
      (some false)
      (record { agent_is_connected = true; link_was_up = false; monitor_runs = true })
    ≡ record { agent_is_connected = true; link_was_up = false; monitor_runs = true }
down_twice = refl

agent_gone-cases_example :
    (q : State robot) × (agent_gone robot comes_to_rest false 3 moving_state ≡ some q)
    × (WasStill robot comes_to_rest moving_state q
        ⊎ (((false ≡ true) × WasStopped robot comes_to_rest moving_state q)
            ⊎ (((is_ros_controlling_motion robot moving_state && false) ≡ false)
                × WaitedFor robot comes_to_rest moving_state q)))
agent_gone-cases_example =
    agent_gone-cases robot comes_to_rest false 1 3 moving_state (omega arith) still_state-moves
