-- ===== src/Startup/Ready.antt =====
-- The answers of Ros_Controller_Initialize (src/ControllerStatusIO.c), and what they mean.
use motoros.Prelude.{ℕ, ◌<◌, ◌≡◌, ◌⊎◌, Bool, true, false, Option, List, [], get_or}
use motoros.Data.{CtrlGroup, Controller}
use motoros.CtrlGroup.Names.{Name, is_no_name}
use motoros.Controller.{feedback_failure, feedback_initialization_done}
use motoros.Platform.{Platform, World, State}
use motoros.Startup.{Parameters, set_io_state, task_failed}
use motoros.Startup.Initialize.{
  CalibData, Outcome, answered, asserted, null_group, settings_ok, reset_controller,
}
use motoros.Startup.Created.{axes_from, AreGroups, Refuses, LacksName, HaveNames, AllCreated}

module _ (p : Platform) (m : Parameters) where
  -- The groups are there and fresh, their axes are counted, and nothing of a motion is left.
  pub record IsReady (n : ℕ) (c : Controller) : Type 0 where
    pub groups : AreGroups m n 0 c.groups
    pub total : c.total_axes_count ≡ axes_from m n 0
    pub not_stopping : c.stop_motion ≡ false
    pub no_move_error : c.mp_inc_move_error ≡ false
    pub no_pfl_stop : c.pfl_during_ros_move ≡ false

  module _ (publish_tf ignore_missing : Bool) (read : ℕ → Option CalibData) where
    -- The names of the joints are not configured.
    abbrev pub is_default : List Name → Bool
    is_default given = is_no_name (get_or given 0 [])

    -- What each end of the initialization means, for `n` groups and the names that are given
    abbrev pub IsOutcome : List Name → Controller → ℕ → Outcome p m → Type 0
    IsOutcome given c n (answered true s names) =
        (settings_ok p m publish_tf ignore_missing read ≡ true)
        × (m.motion_loop_starts ≡ true)
        × AllCreated m p c n n 0
        × HaveNames m p c n (is_default given) n 0 given
        × IsReady n s.ctl
        × (w : World p) × (s.world ≡ set_io_state p m w feedback_initialization_done 1)
    IsOutcome given c n (answered false s names) =
        AllCreated m p c n n 0
        × HaveNames m p c n (is_default given) n 0 given
        × IsReady n s.ctl
        × (w : World p) × (((settings_ok p m publish_tf ignore_missing read ≡ false)
              × (s.world ≡ set_io_state p m w feedback_failure 1))
            ⊎ ((m.motion_loop_starts ≡ false) × (s.world ≡ task_failed p m w 2)))
    IsOutcome given c n (asserted w) = (8 < n) ⊎ LacksName m p c n (is_default given) n 0 given
    IsOutcome given c n null_group =
        Refuses m p c n n 0 × HaveNames m p c n (is_default given) n 0 given

    module _ (s : State p) (n : ℕ) (given : List Name) where
      abbrev reset : Controller
      reset = reset_controller p m publish_tf ignore_missing read s.ctl
