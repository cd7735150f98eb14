-- ===== src/ActionServer/Replies.antt =====
-- What Ros_ActionServer_FJT_Goal_Complete of src/ActionServer_FJT.c answers for a trajectory that has
-- ended.
use motoros.Prelude.{
  ℕ, zero, suc, ◌^◌, ◌≡◌, ap, ◌∙◌, ℤ, pos, ◌+ℤ◌, ◌-ℤ◌, int_laws, leb_ℤ, eqb_ℤ, ◌≤ℤ◌, Bool, true,
  false, List, arith, length, get_or, replicate, ◌↔◌, if◌then◌else◌,
}
use motoros.Data.{Double}
use motoros.Fpu.{Fpu}
use motoros.Trajectory.{Duration}
use motoros.ActionServer.{
  Goal, Feedback, ResultCodes, is_violated, is_position_ok, is_time_ok, to_int_32, to_nanos,
  abs_int, default_time_tolerance,
}
use motoros.ActionServer.Tolerance.{parse_goal_pos_tolerances, reorder_to_internal_order}
use motoros.ActionServer.Lookup.{or_else, last_tolerance, last_position}
use motoros.ActionServer.Judged.{last_point}

module _ (fpu : Fpu) (default : Double) where
  open fpu use {sub, fabs, lt}

  abbrev violates : List Double → List Double → List Double → ℕ → Bool
  violates last actual tolerances i =
      is_violated fpu default (fabs (sub (get_or last i 0) (get_or actual i 0)))
        (get_or tolerances i 0)

  -- Where the last point puts joint `i` of the robot, and the tolerance there: the last setting for a
  -- joint holds.
  abbrev pub target : Goal → Feedback → ℕ → Double
  target g f i = or_else (last_position f.joint_names (last_point g).positions g.joint_names 0 i) 0

  abbrev pub tolerance : Goal → Feedback → ℕ → Double
  tolerance g f i = or_else (last_tolerance f.joint_names g.goal_tolerance i) default

  abbrev pub IsWithin : Goal → Feedback → ℕ → Type 0
  IsWithin g f i =
      is_violated fpu default (fabs (sub (target g f i) (get_or f.actual i 0))) (tolerance g f i)
      ≡ false

  -- Every one of the `n` joints from `i` on is within its tolerance.
  abbrev pub AllWithin : Goal → Feedback → ℕ → ℕ → Type 0
  AllWithin g f zero i = Unit
  AllWithin g f (suc n) i = IsWithin g f i × AllWithin g f n (suc i)

module _ (fpu : Fpu) (default : Double) (codes : ResultCodes) (g : Goal) (f : Feedback)
    (total : ℤ) where
  abbrev n : ℕ
  n = length f.joint_names

  abbrev last_positions : List Double
  last_positions = (last_point g).positions

  abbrev ordered : ℤ × List Double
  ordered = reorder_to_internal_order last_positions g.joint_names f.joint_names n (replicate n 0)

  -- The tolerance of the goal for the time, in nanoseconds, and half a second where there is none
  abbrev pub time_tolerance : ℤ
  time_tolerance =
      if eqb_ℤ (to_nanos g.goal_time_tolerance) (pos 0)
      then pos 500000000
      else to_nanos g.goal_time_tolerance

  -- How far the time is off, as `abs` of an int gets it: of the difference in nanoseconds, the low 32
  -- bits are left.
  abbrev pub IsTimely : Type 0
  IsTimely =
      pos (abs_int (to_int_32 (to_nanos (last_point g).time_from_start -ℤ total))) ≤ℤ time_tolerance

  abbrev in_time : Bool
  in_time = is_time_ok (to_nanos (last_point g).time_from_start) total g.goal_time_tolerance

  abbrev AllWithinNow : length g.joint_names ≡ n → length last_positions ≡ n → Type 0
  AllWithinNow hn hp =
      (is_position_ok fpu default n 0 ordered.1 f.actual
          (parse_goal_pos_tolerances default g.goal_tolerance f.joint_names n).1
        ≡ true)
      ↔ AllWithin fpu default g f n 0

-- The difference between two times that are 2 ^ 32 ns apart is lost.
to_int_32-wraps : (z : ℤ) → to_int_32 (z -ℤ pos (2 ^ 32)) ≡ to_int_32 z
unfolding to_int_32 ◌-ℤ◌
to_int_32-wraps z = ground arith

regroup : (a b c : ℤ) → a -ℤ (b +ℤ c) ≡ (a -ℤ b) -ℤ c
regroup a b c = omega int_laws

-- The time of a trajectory is judged modulo 2 ^ 32 nanoseconds, which is about 4.3 seconds.
is_time_ok-wraps :
    (desired total : ℤ) (tolerance : Duration)
    → is_time_ok desired (total +ℤ pos (2 ^ 32)) tolerance ≡ is_time_ok desired total tolerance
unfolding is_time_ok
is_time_ok-wraps desired total tolerance =
    ap
      (λ (z : ℤ).
        leb_ℤ (pos (abs_int z)) (
          if eqb_ℤ (to_nanos tolerance) (pos 0)
          then default_time_tolerance
          else to_nanos tolerance))
      (ap to_int_32 (regroup desired total (pos (2 ^ 32))) ∙ to_int_32-wraps (desired -ℤ total))
