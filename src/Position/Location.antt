-- ===== src/Position/Location.antt =====
-- Ros_PositionMonitor_UpdateLocation of src/PositionMonitor.c: the feedback of all groups is read, then
-- converted and published, for each group and for all together.
use motoros.Prelude.{
  ℕ, zero, suc, ◌+◌, ℤ, Bool, ◌&&◌, Option, none, some, List, [], ◌∷◌, set, get_elem?,
  if◌then◌else◌,
}
use motoros.MotoPlus.{MotoPlus}
use motoros.Data.{Double, CtrlGroup}
use motoros.Fpu.{Fpu}
use motoros.CtrlGroup.{GroupIds, is_robot, at, to_ros_pos, moto_to_sequential, get_fb_pulse_pos}
use motoros.CtrlGroup.Feedback.{get_fb_servo_speed, get_torque}
use motoros.Position.Frames.{Frames, Links, calculate_transforms}

-- What the arrays of the task hold for a group. They are not initialised, so what is not read is what
-- they held before.
pub record Feedback : Type 0 where
  pub pulses : List ℤ
  pub track_pulses : List ℤ
  pub speeds : List ℤ
  pub torques : List Double

-- The values of a sensor_msgs/JointState
pub record JointValues : Type 0 where
  pub position : List Double
  pub velocity : List Double
  pub effort : List Double

-- What is published: a message for each group, one for all, and the transforms by group
pub record Published : Type 0 where
  pub states : List JointValues
  pub all : JointValues
  pub links : List Links

-- `n` doubles of an array, from entry `i` on
unfoldable pub firsts : ℕ → ℕ → List Double → List Double
firsts zero i xs = []
firsts (suc n) i xs = at xs i ∷ firsts n (i + 1) xs

-- `memcpy` of doubles to the entry `n`; a write behind the array is not followed.
unfoldable pub copy : List Double → ℕ → List Double → List Double
copy dest n [] = dest
copy dest n (x ∷ xs) = copy (set dest n x) (n + 1) xs

abbrev pub copy_values : JointValues → ℕ → JointValues → JointValues
copy_values dest n v = record {
  position = copy dest.position n v.position;
  velocity = copy dest.velocity n v.velocity;
  effort = copy dest.effort n v.effort;
}

-- The group of the base track; an index outside the groups is not followed.
abbrev pub base_track_group : List CtrlGroup → CtrlGroup → Option CtrlGroup
base_track_group groups g = elim g.base_track_group_index [
  | none ↦ none
  | some i ↦ get_elem? groups i
]

module _ (fpu : Fpu) (ids : GroupIds) where
  module _ (api : MotoPlus) (w : api.World) where
    abbrev pub track_feedback : Option CtrlGroup → List ℤ → List ℤ
    track_feedback none old = old
    track_feedback (some track) old = (get_fb_pulse_pos fpu ids api track w).1

    -- The body of the first loop: a failed read leaves what comes after it as it was.
    unfoldable pub read_feedback : List CtrlGroup → CtrlGroup → Feedback → Feedback
    read_feedback groups g old =
        let (got_pulses, pulses) = get_fb_pulse_pos fpu ids api g w in
        let track_pulses = track_feedback (base_track_group groups g) old.track_pulses in
        let (got_speeds, speeds) = get_fb_servo_speed fpu api g w in
        if got_pulses
        then record {
          pulses = pulses;
          track_pulses = track_pulses;
          speeds = speeds;
          torques = (if got_speeds then (get_torque fpu api g w).1 else old.torques);
        }
        else record old { pulses = pulses }

    -- The first loop, with what the arrays held
    unfoldable pub read_all : List CtrlGroup → List CtrlGroup → List Feedback → List Feedback
    unfolding read_feedback
    read_all groups [] old = []
    read_all groups (g ∷ gs) [] = []
    read_all groups (g ∷ gs) (f ∷ fs) = read_feedback groups g f ∷ read_all groups gs fs

  -- What is published for a group; `old` is what the arrays radPos_ros, radSpeed_ros and torque_ros
  -- hold.
  unfoldable pub group_values : CtrlGroup → Feedback → List Double → JointValues
  unfolding to_ros_pos moto_to_sequential firsts
  group_values g f old = record {
    position = firsts g.num_axes 0 (to_ros_pos fpu ids g f.pulses old);
    velocity = firsts g.num_axes 0 (to_ros_pos fpu ids g f.speeds old);
    effort = firsts g.num_axes 0 (moto_to_sequential ids g f.torques old);
  }

  module _ (k : Frames) (publish_tf : Bool) (groups : List CtrlGroup) (old : List Double) where
    abbrev pub put_links : ℕ → List Links → Option Links → Option (List Links)
    put_links index links none = none
    put_links index links (some l) = some (set links index l)

    -- The transforms of a group, if it is a robot
    unfoldable pub update_links : ℕ → CtrlGroup → Feedback → List Links → Option (List Links)
    unfolding calculate_transforms
    update_links index g f links =
        if publish_tf && is_robot ids g
        then put_links index links (
            calculate_transforms fpu ids k index g (base_track_group groups g) f.pulses
              f.track_pulses old)
        else some links

    abbrev pub add_state : JointValues → Option Published → Option Published
    add_state v none = none
    add_state v (some p) = some (record p { states = v ∷ p.states })

    abbrev pub then_publish :
        (List Links → Option Published) → Option (List Links) → Option Published
    then_publish later none = none
    then_publish later (some links) = later links

    -- The second loop, from group `index` on, whose joints begin at `iterator` in the message of all
    -- groups; none is the assertion of a transform that fails.
    unfoldable pub publish_from :
        ℕ → ℕ → JointValues → List CtrlGroup → List Feedback → List Links → Option Published
    unfolding group_values copy update_links
    publish_from index iterator all [] fs links =
        some (record { states = []; all = all; links = links })
    publish_from index iterator all (g ∷ gs) [] links =
        some (record { states = []; all = all; links = links })
    publish_from index iterator all (g ∷ gs) (f ∷ fs) links =
        let v = group_values g f old in
        then_publish
          (λ next. add_state v (
            publish_from (index + 1) (iterator + g.num_axes) (copy_values all iterator v) gs fs
              next))
          (update_links index g f links)

    -- Ros_PositionMonitor_UpdateLocation
    unfoldable pub update_location :
        (api : MotoPlus) → api.World → List Feedback → JointValues → List Links → Option Published
    unfolding read_all publish_from
    update_location api w before all links =
        publish_from 0 0 all groups (read_all api w groups groups before) links
