-- ===== src/Position/Frames.antt =====
-- The transforms of a robot: Ros_PositionMonitor_CalculateTransforms of src/PositionMonitor.c, with
-- src/RosMotoPlusConversionUtils.c and src/Quaternion_Conversion.c.
pub mod Quaternion
pub mod Chain
use motoros.Prelude.{
  ℕ, zero, suc, ◌+◌, ℤ, pos, negsuc, Bool, true, false, Option, none, some, List, [], ◌∷◌, ◌++◌,
  get_or, if◌then◌else◌,
}
use motoros.Data.{
  Double, CtrlGroup, Coord, no_coord, BaseAxisInfo, MotionType, motion_x, motion_y, motion_z,
  motion_rx, motion_ry, motion_rz, other_motion, grp_axes_num,
}
use motoros.Fpu.{Fpu}
use motoros.CtrlGroup.{GroupIds, is_robot, is_invalid_axis, at, to_ros_pos, no_doubles}
use motoros.Inform.{codes}
use motoros.Inform.Header.{number}
use motoros.Position.Frames.Quaternion.{Transform, to_transform}

-- Frames and kinematics of the M+ API; the answers of the calls are not read. MP_XYZ is three numbers.
pub record Frames : Type 1 where
  pub Frame : Type 0
  -- mpZYXeulerToFrame, mpFrameToZYXeuler, mpMulFrame, mpInvFrame, mpMakeFrame
  pub to_frame : Coord → Frame
  pub to_coord : Frame → Coord
  pub mul_frame : Frame → Frame → Frame
  pub inv_frame : Frame → Frame
  pub make_frame : (ℤ × ℤ × ℤ) → (ℤ × ℤ × ℤ) → (ℤ × ℤ × ℤ) → Frame
  -- mpConvPulseToAngle, mpConvAxesToCartPos with a tool, and mpGetToolData of a tool
  pub to_angles : ℕ → List ℤ → List ℤ
  pub to_cartesian : ℕ → List ℤ → ℕ → Coord
  pub tool_data : ℕ → Coord

-- The transforms of a robot, by TransformLinkIndex
pub record Links : Type 0 where
  pub world_to_base : Coord
  pub base_to_flange : Coord
  pub flange_to_tool0 : Coord
  pub flange_to_tcp : Coord

module _ (fpu : Fpu) where
  open fpu use {mul, of_int, to_int, degrees_per_rad}

  -- The transforms of a robot in the message, in the order of TransformLinkIndex
  unfoldable pub transforms_of : Links → List Transform
  unfolding to_transform
  transforms_of l =
      to_transform fpu l.world_to_base
      ∷ to_transform fpu l.base_to_flange
      ∷ to_transform fpu l.flange_to_tool0
      ∷ to_transform fpu l.flange_to_tcp
      ∷ []

  -- METERS_TO_MICROMETERS and RAD_TO_DEG_0001, as a LONG
  abbrev pub to_micrometers : Double → ℤ
  to_micrometers x = to_int (mul x (of_int (pos 1000000)))

  abbrev pub to_deg_0001 : Double → ℤ
  to_deg_0001 x = to_int (mul (mul x degrees_per_rad) (of_int (pos 10000)))

  -- The `switch` on the motion of an axis of the track; none is the assertion that fails.
  abbrev pub travel_by : MotionType → Double → Coord → Option Coord
  travel_by motion_x d c = some (record c { x = to_micrometers d })
  travel_by motion_y d c = some (record c { y = to_micrometers d })
  travel_by motion_z d c = some (record c { z = to_micrometers d })
  travel_by motion_rx d c = some (record c { rx = to_deg_0001 d })
  travel_by motion_ry d c = some (record c { ry = to_deg_0001 d })
  travel_by motion_rz d c = some (record c { rz = to_deg_0001 d })
  travel_by other_motion d c = none

  abbrev pub travel_if : Bool → MotionType → Double → Option Coord → Option Coord
  travel_if true t d c = c
  travel_if false t d none = none
  travel_if false t d (some c) = travel_by t d c

  -- The loop over the axes of the track, `n` left, from axis `i` on
  unfoldable pub track_travel :
      CtrlGroup → BaseAxisInfo → List Double → ℕ → ℕ → Option Coord → Option Coord
  unfolding is_invalid_axis
  track_travel track info d zero i c = c
  track_travel track info d (suc n) i c =
      track_travel track info d n (i + 1)
        (travel_if (is_invalid_axis track i) (get_or info.motion_type i other_motion) (at d i) c)

  module _ (ids : GroupIds) (k : Frames) where
    open k use {Frame, to_frame, to_coord, mul_frame, inv_frame, make_frame}

    -- The robot's frame on its track
    abbrev pub on_track : CtrlGroup → Option Coord → Option Coord
    on_track g none = none
    on_track g (some travel) = some (
        to_coord (
          mul_frame (mul_frame (to_frame g.calibration) (to_frame travel))
            (to_frame g.base_track_info.offset)))

    -- coordWorldToBase, for a robot with the track `track` at `pulses`, or with none. `old` is what
    -- track_pos_meters holds.
    unfoldable pub world_to_base_of :
        CtrlGroup → Option CtrlGroup → List ℤ → List Double → Option Coord
    unfolding track_travel to_ros_pos
    world_to_base_of g none pulses old = some g.calibration
    world_to_base_of g (some track) pulses old = on_track g (
        track_travel track g.base_track_info (to_ros_pos fpu ids track pulses old) grp_axes_num 0
          (some no_coord))

    -- frameTool0ToFlange
    abbrev pub tool0_to_flange : Frame
    tool0_to_flange =
        make_frame (pos 0, pos 0, pos 0) (pos 0, pos 0, pos 1) (pos 0, negsuc 0, pos 0)

    -- frameBaseToTcp and frameTool0ToTcp
    abbrev pub base_to_tcp : ℕ → CtrlGroup → List ℤ → Frame
    base_to_tcp group_index g pulses =
        to_frame (k.to_cartesian group_index (k.to_angles group_index pulses) g.tool)

    abbrev pub tool0_to_tcp : CtrlGroup → Frame
    tool0_to_tcp g = to_frame (k.tool_data g.tool)

    abbrev pub with_base : ℕ → CtrlGroup → List ℤ → Option Coord → Option Links
    with_base group_index g pulses none = none
    with_base group_index g pulses (some base) =
        let base_to_tool0 =
          mul_frame (base_to_tcp group_index g pulses) (inv_frame (tool0_to_tcp g)) in
        some (record {
          world_to_base = base;
          base_to_flange = to_coord (mul_frame base_to_tool0 tool0_to_flange);
          flange_to_tool0 = to_coord (inv_frame tool0_to_flange);
          flange_to_tcp = to_coord (mul_frame (inv_frame tool0_to_flange) (tool0_to_tcp g));
        })

    -- Ros_PositionMonitor_CalculateTransforms of a robot; none is the failed assertion.
    unfoldable pub calculate_transforms :
        ℕ → CtrlGroup → Option CtrlGroup → List ℤ → List ℤ → List Double → Option Links
    unfolding world_to_base_of
    calculate_transforms group_index g track pulses track_pulses old =
        with_base group_index g pulses (world_to_base_of g track track_pulses old)

-- The frame_id and child_frame_id of the four transforms of robot `robot`, counted from 0, as
-- Ros_PositionMonitor_Initialize_TfPublisher sets them; names that fit the buffer.
unfoldable pub link_names : List ℕ → ℕ → ℕ → List (List ℕ × List ℕ)
link_names prefix robot tool =
    let of : List ℕ → List ℕ = λ part. prefix ++ (codes "r" ++ (number (robot + 1) ++ part)) in
    (prefix ++ codes "world", of (codes "/base"))
    ∷ (of (codes "/base"), of (codes "/flange"))
    ∷ (of (codes "/flange"), of (codes "/tool0"))
    ∷ (of (codes "/flange"), of (codes "/tcp_" ++ number tool))
    ∷ []
