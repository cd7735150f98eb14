-- ===== src/ActionServer/Received.antt =====
-- What Ros_ActionServer_FJT_Goal_Received of src/ActionServer_FJT.c does with a goal.
use motoros.Prelude.{◌≡◌, Bool, true, false, ◌&&◌, length, leb, ltb, ◌⊎◌, if◌then◌else◌}
use motoros.Data.{Controller, max_points}
use motoros.Platform.{Platform, World, State, Environment}
use motoros.Controller.{is_motion_mode_trajectory, get_not_ready_subcode}
use motoros.Motion.Stop.{has_data_to_process}
use motoros.Trajectory.{InitStatus, init_ok, init_too_small, init_already_in_motion}
use motoros.Trajectory.Init.{is_ok}
use motoros.Trajectory.Started.{IsReleased, has_joint, first_failure, checks_of}
use motoros.ActionServer.{Goal, Server}
use motoros.ActionServer.Handlers.{
  Client, Refusal, too_big, wrong_mode, not_ready, init_failed, accept, refuse, wake_up,
}

-- The status of the start of a trajectory: of its length, and then of the checks in turn
abbrev pub start_status : (p : Platform) → Goal → Controller → World p → InitStatus
start_status p g c w =
    if ltb (length g.points) 2
    then init_too_small
    else if has_data_to_process c.groups
    then init_already_in_motion
    else first_failure (checks_of p g.joint_names g.points c w)

module _ (p : Platform) (client : Client (World p)) (env : Environment p) where
  -- The points of a trajectory that the controller refused
  abbrev pub IsKept : State p → State p → Type 0
  IsKept s s' = (s' ≡ s) ⊎ (has_data_to_process s'.ctl.groups ≡ false)

  -- Whether the robot is ready, and the state, when energy saving has been dealt with
  abbrev pub awake : Goal → State p → Bool × State p
  awake g s =
      wake_up p client env (is_motion_mode_trajectory s.ctl && leb (length g.points) max_points) s

  abbrev pub status_of : Goal → State p → InitStatus
  status_of g s = start_status p g (awake g s).1.ctl (awake g s).1.world

  abbrev pub IsAccepted : Goal → Server → State p → Server × State p → Type 0
  IsAccepted g v s r =
      (leb (length g.points) max_points ≡ true)
      × ((awake g s).0 ≡ true)
      × (is_motion_mode_trajectory s.ctl ≡ true)
      × (status_of g s ≡ init_ok)
      × (r.0 ≡ accept p client g (awake g s).1.world v)
      × IsReleased p (has_joint g.joint_names (awake g s).1.ctl.groups) (init_ok, r.1.ctl)

  -- Why a goal is turned down
  abbrev pub Justifies : Goal → State p → Refusal → Type 0
  Justifies g s too_big = leb (length g.points) max_points ≡ false
  Justifies g s (not_ready code) =
      (leb (length g.points) max_points ≡ true)
      × ((awake g s).0 ≡ false)
      × (code ≡ get_not_ready_subcode p (awake g s).1.ctl (awake g s).1.world)
  Justifies g s wrong_mode =
      (leb (length g.points) max_points ≡ true)
      × ((awake g s).0 ≡ true)
      × (is_motion_mode_trajectory s.ctl ≡ false)
  Justifies g s (init_failed status) =
      (leb (length g.points) max_points ≡ true)
      × ((awake g s).0 ≡ true)
      × (is_motion_mode_trajectory s.ctl ≡ true)
      × (status ≡ status_of g s)
      × (is_ok status ≡ false)

  abbrev pub IsTurnedDown : Goal → Server → State p → Server × State p → Type 0
  IsTurnedDown g v s r =
      (why : Refusal) × Justifies g s why
      × (r.0 ≡ refuse p client g why v)
      × IsKept (awake g s).1 r.1
