-- ===== src/CtrlGroup.antt =====
-- src/CtrlGroup.c: kinds of groups, positions, units and the order of the joints.
pub mod Names
pub mod Filled
pub mod Feedback
pub mod Order
mod Tests
use Prim.Native.Nat.{bit_or}
use motoros.Prelude.{
  ℕ, zero, suc, ◌+◌, ◌-◌, ◌%◌, ◌^◌, ℤ, pos, ◌+ℤ◌, ◌-ℤ◌, Bool, true, false, ◌&&◌, Option, none, some,
  List, [], ◌∷◌, ltb, leb, ◌==◌, eqb_ℤ, get_or, set, replicate, if◌then◌else◌,
}
use motoros.MotoPlus.{MotoPlus}
use motoros.Data.{
  Double, AxisType, axis_rotation, axis_linear, axis_invalid, FbAxisCorrection, CtrlGroup,
  grp_axes_num,
}
use motoros.Fpu.{Fpu}

-- MP_GRP_ID_TYPE of the M+ headers: the robots R1 to R8, the bases B1 to B8 and the stations
-- S1 to S24 stand in three runs.
pub record GroupIds : Type 0 where
  pub r1_gid : ℕ
  pub r8_gid : ℕ
  pub b1_gid : ℕ
  pub b8_gid : ℕ
  pub s1_gid : ℕ
  pub s24_gid : ℕ

unfoldable pub is_robot : GroupIds → CtrlGroup → Bool
is_robot ids g = leb ids.r1_gid g.group_id && leb g.group_id ids.r8_gid

unfoldable pub is_base : GroupIds → CtrlGroup → Bool
is_base ids g = leb ids.b1_gid g.group_id && leb g.group_id ids.b8_gid

unfoldable pub is_station : GroupIds → CtrlGroup → Bool
is_station ids g = leb ids.s1_gid g.group_id && leb g.group_id ids.s24_gid

abbrev pub axis_type_at : CtrlGroup → ℕ → AxisType
axis_type_at g i = get_or g.axis_type i axis_invalid

abbrev pub is_invalid_type : AxisType → Bool
is_invalid_type axis_invalid = true
is_invalid_type _ = false

-- Ros_CtrlGroup_IsInvalidAxis
unfoldable pub is_invalid_axis : CtrlGroup → ℕ → Bool
is_invalid_axis g i = is_invalid_type (axis_type_at g i)

-- The loop of Ros_CtrlGroup_GetAxisConfig: `n` axes left, from `i` on.
unfoldable pub axis_config_from : CtrlGroup → ℕ → ℕ → ℕ → ℕ
unfolding is_invalid_axis
axis_config_from g zero i config = config
axis_config_from g (suc n) i config =
    axis_config_from g n (i + 1) (if is_invalid_axis g i then config else bit_or config (2 ^ i))

-- Ros_CtrlGroup_GetAxisConfig; the result is a UCHAR.
unfoldable pub get_axis_config : CtrlGroup → ℕ
unfolding axis_config_from
get_axis_config g = axis_config_from g grp_axes_num 0 0 % 256

-- The inner loop of both conversions of the joint order: the first valid axis from `mpi` on, or none
-- below MAX_PULSE_AXES. `n` bounds the axes that are left.
unfoldable pub next_valid : CtrlGroup → ℕ → ℕ → Option ℕ
unfolding is_invalid_axis
next_valid g zero mpi = none
next_valid g (suc n) mpi =
    let rest = next_valid g n (mpi + 1) in
    if is_invalid_axis g mpi then (if leb grp_axes_num (mpi + 1) then none else rest) else some mpi

abbrev pub at : List Double → ℕ → Double
at xs i = get_or xs i 0

-- The loop for seven axes of Ros_CtrlGroup_ConvertMotoJointOrderToSequentialJointOrder.
unfoldable pub seven_to_sequential : ℕ → ℕ → List Double → List Double → List Double
seven_to_sequential zero i moto ros = ros
seven_to_sequential (suc n) i moto ros = seven_to_sequential n (i + 1) moto (
    if ltb i 2
    then set ros i (at moto i)
    else if i == 2
    then set ros 2 (at moto 6)
    else set ros i (at moto (i - 1)))

-- The loop for fewer than six axes: `n` axes left, `rpi` and `mpi` as in the source.
unfoldable pub few_to_sequential : CtrlGroup → ℕ → ℕ → ℕ → List Double → List Double → List Double
few_to_sequential g zero rpi mpi moto ros = ros
few_to_sequential g (suc n) rpi mpi moto ros = elim (next_valid g 8 mpi) [
  | none ↦ ros
  | some m ↦ few_to_sequential g n (rpi + 1) (m + 1) moto (set ros rpi (at moto m))
]

-- Ros_CtrlGroup_ConvertMotoJointOrderToSequentialJointOrder writes into `ros`.
unfoldable pub moto_to_sequential : GroupIds → CtrlGroup → List Double → List Double → List Double
unfolding is_robot seven_to_sequential few_to_sequential
moto_to_sequential ids g moto ros =
    if (g.num_axes == 7) && is_robot ids g
    then seven_to_sequential g.num_axes 0 moto ros
    else if is_robot ids g && ltb g.num_axes 6
    then few_to_sequential g g.num_axes 0 0 moto ros
    else moto

unfoldable pub seven_to_moto : ℕ → ℕ → List Double → List Double → List Double
seven_to_moto zero i ros moto = moto
seven_to_moto (suc n) i ros moto = seven_to_moto n (i + 1) ros (
    if ltb i 2
    then set moto i (at ros i)
    else if i == 2
    then set moto 6 (at ros 2)
    else set moto (i - 1) (at ros i))

unfoldable pub few_to_moto : CtrlGroup → ℕ → ℕ → ℕ → List Double → List Double → List Double
few_to_moto g zero rpi mpi ros moto = moto
few_to_moto g (suc n) rpi mpi ros moto = elim (next_valid g 8 mpi) [
  | none ↦ moto
  | some m ↦ few_to_moto g n (rpi + 1) (m + 1) ros (set moto m (at ros rpi))
]

abbrev pub no_doubles : List Double
no_doubles = replicate grp_axes_num 0

-- Ros_CtrlGroup_ConvertSequentialJointOrderToMotoJointOrder clears its result first.
unfoldable pub sequential_to_moto : GroupIds → CtrlGroup → List Double → List Double
unfolding is_robot seven_to_moto few_to_moto
sequential_to_moto ids g ros =
    if (g.num_axes == 7) && is_robot ids g
    then seven_to_moto g.num_axes 0 ros no_doubles
    else if is_robot ids g && ltb g.num_axes 6
    then few_to_moto g g.num_axes 0 0 ros no_doubles
    else ros

module _ (fpu : Fpu) where
  open fpu use {add, mul, div, neg, of_int, to_int}

  -- Ros_CtrlGroup_ConvertMotoUnitsToRosUnits: the axes one by one, with the two factors of each.
  unfoldable pub moto_to_ros_units :
      List AxisType → List Double → List Double → List ℤ → List Double
  moto_to_ros_units (t ∷ ts) (r ∷ rs) (m ∷ ms) (p ∷ ps) =
      (elim t [
        | axis_rotation ↦ div (of_int p) r
        | axis_linear ↦ div (of_int p) m
        | axis_invalid ↦ 0
      ])
      ∷ moto_to_ros_units ts rs ms ps
  moto_to_ros_units _ _ _ _ = []

  -- Ros_CtrlGroup_ConvertRosUnitsToMotoUnits
  unfoldable pub ros_to_moto_units :
      List AxisType → List Double → List Double → List Double → List ℤ
  ros_to_moto_units (t ∷ ts) (r ∷ rs) (m ∷ ms) (p ∷ ps) =
      (elim t [
        | axis_rotation ↦ to_int (mul p r)
        | axis_linear ↦ to_int (mul p m)
        | axis_invalid ↦ pos 0
      ])
      ∷ ros_to_moto_units ts rs ms ps
  ros_to_moto_units _ _ _ _ = []

  abbrev pub convert_ros_units : CtrlGroup → List Double → List ℤ
  convert_ros_units g = ros_to_moto_units g.axis_type g.pulse_to_rad g.pulse_to_meter

  -- Ros_CtrlGroup_ConvertToRosPos, into an array that holds `old`
  unfoldable pub to_ros_pos : GroupIds → CtrlGroup → List ℤ → List Double → List Double
  unfolding moto_to_sequential moto_to_ros_units
  to_ros_pos ids g pulses old =
      moto_to_sequential ids g
        (moto_to_ros_units g.axis_type g.pulse_to_rad g.pulse_to_meter pulses) old

  -- Ros_CtrlGroup_ConvertToMotoPos_FromSequentialOrdering
  unfoldable pub to_moto_pos : GroupIds → CtrlGroup → List Double → List ℤ
  unfolding sequential_to_moto ros_to_moto_units
  to_moto_pos ids g rad = convert_ros_units g (sequential_to_moto ids g rad)

  abbrev pub no_pulses : List ℤ
  no_pulses = replicate grp_axes_num (pos 0)

  -- `rosAnglePos[3] += -rosAnglePos[1] + rosAnglePos[2]`
  abbrev pub baxis_compensation : List Double → List Double
  baxis_compensation p = set p 3 (add (at p 3) (add (neg (at p 1)) (at p 2)))

  -- One pass of the loop over the corrections of the feedback.
  abbrev correct : List ℤ → FbAxisCorrection → List ℤ
  correct p c =
      if c.valid
      then set p c.correction_axis (
          get_or p c.correction_axis (pos 0)
          -ℤ to_int (mul (of_int (get_or p c.source_axis (pos 0))) c.ratio))
      else p

  unfoldable pub correct_all : List ℤ → List FbAxisCorrection → List ℤ
  correct_all p [] = p
  correct_all p (c ∷ cs) = correct_all (correct p c) cs

  module _ (ids : GroupIds) (api : MotoPlus) where
    -- Ros_CtrlGroup_GetPulsePosCmd: whether it succeeds, and the pulses. `rosAnglePos` is not
    -- initialised in the source; what is read of it has been written before.
    unfoldable pub get_pulse_pos_cmd : CtrlGroup → api.World → Bool × List ℤ
    unfolding to_ros_pos to_moto_pos
    get_pulse_pos_cmd g w =
        let (status, raw) = api.get_pulse_pos w g.group_id in
        if eqb_ℤ status (pos 0)
        then (
          true,
          (if g.is_baxis_slave
              then to_moto_pos ids g (baxis_compensation (to_ros_pos ids g raw no_doubles))
              else raw),
        )
        else (false, no_pulses)

    -- Ros_CtrlGroup_GetFBPulsePos
    unfoldable pub get_fb_pulse_pos : CtrlGroup → api.World → Bool × List ℤ
    unfolding correct_all
    get_fb_pulse_pos g w =
        let (status, raw) = api.get_fb_pulse_pos w g.group_id in
        if eqb_ℤ status (pos 0) then (true, correct_all raw g.corrections) else (false, no_pulses)
