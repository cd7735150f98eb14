-- ===== src/Position/Tests.antt =====
-- A robot of seven axes on a track of one axis, and frames that are shifts along one line.
use motoros.Prelude.{
  ℕ, zero, suc, ◌+◌, ◌<◌, ◌≡◌, refl, ℤ, pos, ◌+ℤ◌, ◌-ℤ◌, true, false, some, List, [], ◌∷◌, ◌++◌,
  replicate, inr, arith, get_or, get_elem?,
}
use motoros.Data.{
  Double, CtrlGroup, no_coord, motion_x, other_motion, axis_rotation, axis_linear, axis_invalid,
}
use motoros.CtrlGroup.{at, is_robot, is_invalid_axis, moto_to_sequential}
use motoros.CtrlGroup.Names.{Name, joint_names_in_moto_order, fill_names}
use motoros.Position.{group_joint_names, all_joint_names, name_index, names_from}
use motoros.Position.Naming.{values, moto_to_sequential-group_joint_names}
use motoros.Position.Frames.{Frames}
use motoros.Position.Frames.Chain.{KnowsTrack}
use motoros.Sample.{SampleWorld, sample, quiet_world}
use motoros.Position.Location.{
  Feedback, JointValues, Published, group_values, read_feedback, update_location,
}
use motoros.Position.Published.{IsParallel, update_location-IsParallel}
use motoros.Sample.Robot.{whole_fpu, sample_ids, six_axes}

abbrev seven_axes : CtrlGroup
seven_axes = record six_axes {
  num_axes = 7;
  axis_type = replicate 7 axis_rotation ++ axis_invalid ∷ [];
  base_track_group_index = some 1;
  base_track_info = record { motion_type = motion_x ∷ []; offset = record no_coord { x = pos 5 } };
  calibration = record no_coord { x = pos 700 };
}

abbrev track : CtrlGroup
track = record six_axes {
  group_no = 1;
  group_id = 8;
  num_axes = 1;
  axis_type = axis_linear ∷ replicate 7 axis_invalid;
}

abbrev names : List Name
names =
    (1 ∷ []) ∷ (2 ∷ []) ∷ (4 ∷ []) ∷ (5 ∷ []) ∷ (6 ∷ []) ∷ (7 ∷ []) ∷ (3 ∷ []) ∷ [] ∷ (11 ∷ []) ∷ []

-- The elbow axis E, the seventh of the controller, comes third.
elbow_is_third :
    group_joint_names sample_ids names 0 seven_axes
    ≡ (1 ∷ []) ∷ (2 ∷ []) ∷ (3 ∷ []) ∷ (4 ∷ []) ∷ (5 ∷ []) ∷ (6 ∷ []) ∷ (7 ∷ []) ∷ []
unfolding group_joint_names names_from name_index is_robot
elbow_is_third = refl

seven_axes-valid : (a : ℕ) → a < 7 → is_invalid_axis seven_axes a ≡ false
unfolding is_invalid_axis
seven_axes-valid zero h = refl
seven_axes-valid (suc zero) h = refl
seven_axes-valid (suc (suc zero)) h = refl
seven_axes-valid (suc (suc (suc zero))) h = refl
seven_axes-valid (suc (suc (suc (suc zero)))) h = refl
seven_axes-valid (suc (suc (suc (suc (suc zero))))) h = refl
seven_axes-valid (suc (suc (suc (suc (suc (suc zero)))))) h = refl
seven_axes-valid (suc (suc (suc (suc (suc (suc (suc a))))))) h = absurd (omega arith)

seven_names :
    joint_names_in_moto_order names seven_axes
    ≡ some ((1 ∷ []) ∷ (2 ∷ []) ∷ (4 ∷ []) ∷ (5 ∷ []) ∷ (6 ∷ []) ∷ (7 ∷ []) ∷ (3 ∷ []) ∷ [] ∷ [])
unfolding joint_names_in_moto_order fill_names is_invalid_axis
seven_names = refl

seven_is_robot : is_robot sample_ids seven_axes ≡ true
unfolding is_robot
seven_is_robot = refl

abbrev first_letter : Name → Double
first_letter n = get_or n 0 0

moto_to_sequential-group_joint_names_example :
    at
      (moto_to_sequential sample_ids seven_axes
        (values first_letter
          ((1 ∷ []) ∷ (2 ∷ []) ∷ (4 ∷ []) ∷ (5 ∷ []) ∷ (6 ∷ []) ∷ (7 ∷ []) ∷ (3 ∷ []) ∷ [] ∷ []))
        (replicate 8 0))
      2
    ≡ first_letter (get_or (group_joint_names sample_ids names 0 seven_axes) 2 [])
unfolding is_robot
moto_to_sequential-group_joint_names_example =
    moto_to_sequential-group_joint_names sample_ids seven_axes names _ first_letter (replicate 8 0)
      2 (omega arith) (inr (refl, seven_axes-valid)) seven_names refl (omega arith)

abbrev shifts : Frames
shifts = record {
  Frame = ℤ;
  to_frame = λ c. c.x;
  to_coord = λ z. record no_coord { x = z };
  mul_frame = λ a b. a +ℤ b;
  inv_frame = λ a. pos 0 -ℤ a;
  make_frame = λ o x y. o.0 +ℤ x.0;
  to_angles = λ g pulses. pulses;
  to_cartesian = λ g angles tool. record no_coord { x = pos 800 };
  tool_data = λ tool. record no_coord { x = pos 90 };
}

-- The first axis of the track is its only one.
track-KnowsTrack : KnowsTrack whole_fpu sample_ids shifts seven_axes (some track)
unfolding is_invalid_axis
track-KnowsTrack zero h = λ (e : motion_x ≡ other_motion). absurd (cc e)
track-KnowsTrack (suc zero) h = absurd (cc h)
track-KnowsTrack (suc (suc zero)) h = absurd (cc h)
track-KnowsTrack (suc (suc (suc zero))) h = absurd (cc h)
track-KnowsTrack (suc (suc (suc (suc zero)))) h = absurd (cc h)
track-KnowsTrack (suc (suc (suc (suc (suc zero))))) h = absurd (cc h)
track-KnowsTrack (suc (suc (suc (suc (suc (suc zero)))))) h = absurd (cc h)
track-KnowsTrack (suc (suc (suc (suc (suc (suc (suc zero))))))) h = absurd (cc h)
track-KnowsTrack (suc (suc (suc (suc (suc (suc (suc (suc i)))))))) h = absurd (cc h)

abbrev world : SampleWorld
world = record quiet_world { position = λ g. replicate 8 (pos (g + 1)) }

abbrev nothing_read : Feedback
nothing_read = record { pulses = []; track_pulses = []; speeds = []; torques = [] }

abbrev message : JointValues
message = record { position = replicate 8 0; velocity = replicate 8 0; effort = replicate 8 0 }

update_location-IsParallel_example :
    (p : Published) × (v : JointValues) × (update_location whole_fpu sample_ids shifts true
        (seven_axes ∷ track ∷ [])
        (replicate 8 0)
        sample
        world
        (nothing_read ∷ nothing_read ∷ [])
        message
        []
      ≡ some p)
    × (get_elem? p.states 1 ≡ some v)
    × (v
        ≡ group_values whole_fpu sample_ids track
            (read_feedback whole_fpu sample_ids sample world
              (seven_axes ∷ track ∷ [])
              track
              nothing_read)
            (replicate 8 0))
    × IsParallel p.all 7 v 0
    × (get_or (all_joint_names sample_ids names 0 (seven_axes ∷ track ∷ [])) 7 []
        ≡ get_or (group_joint_names sample_ids names 1 track) 0 [])
update_location-IsParallel_example =
    update_location-IsParallel whole_fpu sample_ids shifts true (seven_axes ∷ track ∷ [])
      (replicate 8 0) sample world (nothing_read ∷ nothing_read ∷ []) message [] names 1 0
      (track-KnowsTrack, (tt, tt)) refl (refl, refl, refl) refl refl (omega arith)
