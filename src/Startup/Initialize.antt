-- ===== src/Startup/Initialize.antt =====
-- Ros_Controller_Initialize of src/ControllerStatusIO.c, with the calibration of the groups.
use motoros.Prelude.{
  ℕ, zero, suc, ◌+◌, ◌*◌, pos, Bool, true, false, not, ◌&&◌, ◌||◌, Option, none, some, List, [],
  ◌∷◌, ◌++◌, ltb, leb, ◌==◌, ltb_ℤ, pos_part, get_or, set, if◌then◌else◌,
}
use motoros.Data.{Coord, CtrlGroup, Controller, grp_axes_num}
use motoros.Inform.{codes}
use motoros.Inform.Header.{number}
use motoros.CtrlGroup.{GroupIds, is_robot, is_station, get_pulse_pos_cmd}
use motoros.CtrlGroup.Names.{Name, is_no_name, joint_names_in_moto_order}
use motoros.Controller.{feedback_failure, feedback_initialization_done}
use motoros.Platform.{Platform, World, State}
use motoros.Startup.{Parameters, set_io_state, task_failed, create_group}

abbrev pub max_controllable_groups : ℕ
max_controllable_groups = 8

abbrev pub max_calibration_files : ℕ
max_calibration_files = 32

abbrev pub alarm_assertion_fail : ℕ
alarm_assertion_fail = 8011

abbrev pub alarm_configuration_fail : ℕ
alarm_configuration_fail = 8013

abbrev pub subcode_incremental_motion : ℕ
subcode_incremental_motion = 2

abbrev pub subcode_invalid_custom_joint_name : ℕ
subcode_invalid_custom_joint_name = 12

abbrev pub subcode_no_calib_files_loaded : ℕ
subcode_no_calib_files_loaded = 16

abbrev pub subcode_too_many_groups : ℕ
subcode_too_many_groups = 18

abbrev pub subcode_empty_joint_name : ℕ
subcode_empty_joint_name = 55

-- MP_RB_CALIB_DATA, as far as it is read
pub record CalibData : Type 0 where
  pub master : ℕ
  pub slave : ℕ
  pub place : Coord

-- DEFAULT_JOINT_NAME_FMT
abbrev pub default_joint_name : ℕ → ℕ → Name
default_joint_name group joint =
    codes "group_" ++ (number group ++ (codes "/joint_" ++ number joint))

-- The names of `n` joints of a group, from joint `j` on, as they are set if none are configured
unfoldable pub set_default_names : ℕ → ℕ → ℕ → List Name → List Name
set_default_names index zero j names = names
set_default_names index (suc n) j names =
    set_default_names index n (j + 1)
      (set names (index * grp_axes_num + j) (default_joint_name (index + 1) (j + 1)))

abbrev pub names_for : Bool → ℕ → ℕ → List Name → List Name
names_for true index n names = set_default_names index n 0 names
names_for false index n names = names

-- The slave is a robot, and the master is another robot's frame.
abbrev pub is_calibrated : GroupIds → CalibData → Bool
is_calibrated ids d = leb d.slave ids.r8_gid && leb d.master ids.r8_gid

-- A group with an index behind the last is not followed.
unfoldable pub set_calibration : ℕ → Coord → List CtrlGroup → List CtrlGroup
set_calibration index place [] = []
set_calibration zero place (g ∷ gs) = record g { calibration = place } ∷ gs
set_calibration (suc i) place (g ∷ gs) = g ∷ set_calibration i place gs

-- Ros_Controller_ShouldWarnNoCalibDataLoaded
unfoldable pub robots_or_stations : GroupIds → List CtrlGroup → ℕ
robots_or_stations ids [] = 0
robots_or_stations ids (g ∷ gs) =
    (if is_robot ids g || is_station ids g then 1 else 0) + robots_or_stations ids gs

unfoldable pub should_warn_no_calib_data_loaded : GroupIds → List CtrlGroup → Bool → Bool → Bool
unfolding robots_or_stations
should_warn_no_calib_data_loaded ids groups loaded publish_tf =
    ltb 1 (robots_or_stations ids groups) && publish_tf && not loaded

-- The groups, of which none is NULL
unfoldable pub all_made : List (Option CtrlGroup) → Option (List CtrlGroup)
all_made [] = some []
all_made (none ∷ gs) = none
all_made (some g ∷ gs) = elim (all_made gs) [ none ↦ none | some rest ↦ some (g ∷ rest) ]

unfoldable pub count_axes : List CtrlGroup → ℕ
count_axes [] = 0
count_axes (g ∷ gs) = g.num_axes + count_axes gs

module _ (p : Platform) (m : Parameters) where
  -- What motoRosAssert does before it halts the task
  abbrev pub assert_failed : World p → ℕ → World p
  assert_failed w subcode =
      p.api.set_alarm
        (set_io_state p m (set_io_state p m w feedback_failure 1) feedback_initialization_done 0)
        alarm_assertion_fail subcode

  -- How the loop over the groups ends: halted by an assertion, or with the groups and the names
  pub data Making : Type 0 where
    halted : World p → Making
    made : List (Option CtrlGroup) → List Name → World p → Making

  abbrev pub make_first : Option CtrlGroup → Making → Making
  make_first g (halted w) = halted w
  make_first g (made gs names w) = made (g ∷ gs) names w

  -- The group with the names of its joints, and what the rest of the loop makes
  abbrev pub name_then : CtrlGroup → World p → Making → Option (List Name) → Making
  name_then g w rest none = halted (
      assert_failed (p.api.set_alarm w alarm_configuration_fail subcode_invalid_custom_joint_name)
        subcode_empty_joint_name)
  name_then g w rest (some names) = make_first (some (record g { joint_names = names })) rest

  abbrev pub at_start : CtrlGroup → World p → CtrlGroup
  at_start g w = record g { prev_pulse_pos = (get_pulse_pos_cmd p.fpu p.ids p.api g w).1 }

  -- A group that was created, or not
  abbrev pub continue_with :
      Bool → ℕ → List Name → (List Name → World p → Making) → Option CtrlGroup × World p → Making
  continue_with default index names later (none, w) = make_first none (later names w)
  continue_with default index names later (some g, w) =
      let named = names_for default index g.num_axes names in
      name_then (at_start g w) w (later named w) (joint_names_in_moto_order named g)

  -- The loop over the groups, `n` left, from group `index` on; `total` is numGroup.
  unfoldable pub make_groups : Controller → Bool → ℕ → ℕ → ℕ → List Name → World p → Making
  unfolding create_group joint_names_in_moto_order get_pulse_pos_cmd
  make_groups c default total zero index names w = made [] names w
  make_groups c default total (suc n) index names w =
      continue_with default index names (make_groups c default total n (index + 1))
        (create_group p m c.model c.interpol_period (index + 1 == total) index w)

  module _ (read : ℕ → Option CalibData) where
    abbrev pub place_at : Option ℕ → Coord → List CtrlGroup → List CtrlGroup
    place_at none place gs = gs
    place_at (some index) place gs = set_calibration index place gs

    abbrev pub calibrate : CalibData → List CtrlGroup → List CtrlGroup
    calibrate d gs =
        if is_calibrated p.ids d then place_at (m.group_number d.slave) d.place gs else gs

    -- Ros_Controller_LoadGroupCalibrationData: the loop over the files, `n` left, from `file` on
    unfoldable pub load_calibration : ℕ → ℕ → List CtrlGroup → Bool → List CtrlGroup × Bool
    unfolding set_calibration
    load_calibration zero file gs loaded = (gs, loaded)
    load_calibration (suc n) file gs loaded = elim (read file) [
      | none ↦ load_calibration n (file + 1) gs loaded
      | some d ↦ load_calibration n (file + 1) (calibrate d gs) true
    ]

  -- How the initialization ends: with an answer, halted by an assertion, or with NULL that is used as a
  -- group
  pub data Outcome : Type 0 where
    answered : Bool → State p → List Name → Outcome
    asserted : World p → Outcome
    null_group : Outcome

  -- The configuration that is read: publish_tf and ignore_missing_calib_data
  module _ (publish_tf ignore_missing : Bool) (read : ℕ → Option CalibData) where
    abbrev pub warn_calib : Bool → World p → World p
    warn_calib warn w =
        if warn && not ignore_missing
        then p.api.set_alarm w alarm_configuration_fail subcode_no_calib_files_loaded
        else w

    -- The signal at the end
    abbrev pub report : Bool → World p → World p
    report true w = set_io_state p m w feedback_initialization_done 1
    report false w = set_io_state p m w feedback_failure 1

    -- What follows when the groups are calibrated
    abbrev pub finish : Bool → Controller → List Name → Bool → World p → Outcome
    finish ok c names true w = answered ok (record { ctl = c; world = report ok w }) names
    finish ok c names false w =
        answered false (record { ctl = c; world = task_failed p m w subcode_incremental_motion })
          names

    abbrev pub calibrated : Bool → Controller → List Name → World p → List CtrlGroup → Outcome
    calibrated ok c names w groups =
        let (placed, loaded) = load_calibration read max_calibration_files 0 groups false in
        finish ok (record c { groups = placed; total_axes_count = count_axes groups }) names
          m.motion_loop_starts
          (warn_calib (should_warn_no_calib_data_loaded p.ids placed loaded publish_tf) w)

    abbrev pub after_groups :
        Bool → Controller → List Name → World p → Option (List CtrlGroup) → Outcome
    after_groups ok c names w none = null_group
    after_groups ok c names w (some groups) = calibrated ok c names w groups

    abbrev pub with_groups : Bool → Controller → Making → Outcome
    with_groups ok c (halted w) = asserted w
    with_groups ok c (made gs names w) = after_groups ok c names w (all_made gs)

    -- The fields that are set before the groups are created
    abbrev pub reset_controller : Controller → Controller
    reset_controller c = record c {
      stop_motion = false;
      pfl_enabled = m.is_pfl_enabled.1;
      pfl_during_ros_move = false;
      mp_inc_move_error = false;
      prev_alarm_state = false;
      interpol_period = m.interpolation_period.1;
    }

    -- bInitOk before the groups are created
    abbrev pub settings_ok : Bool
    settings_ok =
        m.is_pfl_enabled.0 && m.interpolation_period.0 && not (ltb_ℤ m.group_count (pos 1))

    -- Ros_Controller_Initialize. The publisher and the message of the robot status are the client
    -- library's.
    unfoldable pub initialize : State p → List Name → Outcome
    unfolding make_groups load_calibration should_warn_no_calib_data_loaded all_made count_axes
    initialize s names =
        let n = pos_part m.group_count in
        let c = reset_controller s.ctl in
        if ltb max_controllable_groups n
        then asserted (assert_failed s.world subcode_too_many_groups)
        else with_groups settings_ok c
            (make_groups c (is_no_name (get_or names 0 [])) n n 0 names s.world)
