-- ===== src/Interpolate.antt =====
-- The task that turns the points of a group's trajectory into increments for its queue:
-- Ros_MotionControl_AddToIncQueueProcess and Ros_MotionControl_AddPulseIncPointToQ of
-- src/MotionControl.c. This file has what one increment is computed from, `Interpolate.Task` the
-- loops and their effects, the other children the proofs.
pub mod Ticks
pub mod Points
pub mod Task
pub mod Plan
pub mod Others
pub mod Turn
pub mod UnderWay
pub mod Settled
mod Tooled
pub mod Followed
mod Tests
use motoros.Prelude.{
  ℕ, zero, suc, ◌+◌, ◌-◌, ◌%◌, ◌^◌, ℤ, pos, negsuc, ◌-ℤ◌, Bool, true, false, List, [], ◌∷◌, ltb,
  get_or, if◌then◌else◌,
}
use motoros.Data.{Double, AxisType, JointMotionData, IncrementalData, CtrlGroup}
use motoros.Fpu.{Fpu}
use motoros.CtrlGroup.{at, is_invalid_type, convert_ros_units}

-- curTrajData->time, calculationTime_ms, timeInc_ms and timeLeftover_ms. A UINT64 of milliseconds
-- does not overflow here.
pub record Clock : Type 0 where
  pub time : ℕ
  pub calculation_time : ℕ
  pub time_inc : ℕ
  pub leftover : ℕ

-- The first increment of a segment is what the last one left of an interpolation period.
unfoldable pub start_clock : ℕ → ℕ → ℕ → Clock
start_clock period start_time zero = record {
  time = start_time;
  calculation_time = start_time;
  time_inc = period;
  leftover = 0;
}
start_clock period start_time (suc k) = record {
  time = start_time;
  calculation_time = start_time;
  time_inc = suc k;
  leftover = suc k;
}

-- The times of one turn of the loop, for a segment that ends at `end_time`.
unfoldable pub tick : ℕ → ℕ → Clock → Clock
tick period end_time c =
    let calculated = c.calculation_time + c.time_inc in
    if ltb calculated end_time
    then record {
      time = calculated;
      calculation_time = calculated;
      time_inc = (if ltb c.time_inc period then period else c.time_inc);
      leftover = (if ltb c.time_inc period then 0 else c.leftover);
    }
    else record {
      time = end_time;
      calculation_time = calculated;
      time_inc = c.time_inc;
      leftover = (if ltb end_time calculated then calculated - end_time else c.leftover);
    }

-- accCoef1 and accCoef2 of one axis
pub record Coefficients : Type 0 where
  pub first : Double
  pub second : Double

-- The local variables of a segment that the loop does not change. The tool of the increments is read
-- from the group once, before the loop.
pub record Segment : Type 0 where
  pub start : JointMotionData
  pub tool : ℕ
  pub coefficients : List Coefficients

-- `a - b` of two UINT64
abbrev pub sub_u64 : ℕ → ℕ → ℕ
sub_u64 a b = (a + 2 ^ 64 - b) % 2 ^ 64

module _ (fpu : Fpu) where
  open fpu use {add, sub, mul, div, lt, of_int}

  abbrev pub whole : ℕ → Double
  whole n = of_int (pos n)

  -- `(a - b) / 1000.0`
  abbrev pub seconds_between : ℕ → ℕ → Double
  seconds_between a b = div (whole (sub_u64 a b)) (whole 1000)

  -- `interval` is `t`
  abbrev pub coefficients_at : Double → Double → Double → Double → Double → Coefficients
  coefficients_at t start_pos start_vel end_pos end_vel = record {
    first =
        sub (div (mul (whole 6) (sub end_pos start_pos)) (mul t t))
          (div (mul (whole 2) (add end_vel (mul (whole 2) start_vel))) t);
    second =
        add (div (mul (of_int (negsuc 11)) (sub end_pos start_pos)) (mul (mul t t) t))
          (div (mul (whole 6) (add end_vel start_vel)) (mul t t));
  }

  -- The loop over the axes, `n` of them left; without a positive interval they stay 0.
  unfoldable pub coefficients_from :
      ℕ → ℕ → Double → JointMotionData → JointMotionData → List Coefficients
  coefficients_from zero i t s e = []
  coefficients_from (suc n) i t s e =
      (if lt 0 t
        then coefficients_at t (at s.pos i) (at s.vel i) (at e.pos i) (at e.vel i)
        else record { first = 0; second = 0 })
      ∷ coefficients_from n (suc i) t s e

  abbrev pub pos_at : Double → Double → Double → Coefficients → Double
  pos_at t p v k =
      add (add (add p (mul v t)) (div (mul (mul k.first t) t) (whole 2)))
        (div (mul (mul (mul k.second t) t) t) (whole 6))

  abbrev pub vel_at : Double → Double → Coefficients → Double
  vel_at t v k = add (add v (mul k.first t)) (div (mul (mul k.second t) t) (whole 2))

  -- The axes beyond the coefficients keep what they had.
  unfoldable pub positions_at :
      Double → List Coefficients → List Double → List Double → List Double → List Double
  positions_at t (k ∷ ks) (p ∷ ps) (v ∷ vs) (x ∷ xs) = pos_at t p v k ∷ positions_at t ks ps vs xs
  positions_at t _ _ _ xs = xs

  unfoldable pub velocities_at :
      Double → List Coefficients → List Double → List Double → List Double
  velocities_at t (k ∷ ks) (v ∷ vs) (x ∷ xs) = vel_at t v k ∷ velocities_at t ks vs xs
  velocities_at t _ _ xs = xs

  -- The current point after one turn of the loop, whose times are those of the clock.
  unfoldable pub next_point : Segment → JointMotionData → Clock → JointMotionData → JointMotionData
  unfolding positions_at velocities_at
  next_point seg end_point c cur =
      let t = seconds_between c.calculation_time seg.start.time in
      if ltb c.calculation_time end_point.time
      then record cur {
        time = c.calculation_time;
        pos = positions_at t seg.coefficients seg.start.pos seg.start.vel cur.pos;
        vel = velocities_at t seg.coefficients seg.start.vel cur.vel;
      }
      else end_point

  -- `newPulsePos[i] - prevPulsePos[i]`, and 0 on an invalid axis
  unfoldable pub differences : List AxisType → List ℤ → List ℤ → List ℤ
  differences (t ∷ ts) (x ∷ xs) (y ∷ ys) =
      (if is_invalid_type t then pos 0 else x -ℤ y) ∷ differences ts xs ys
  differences _ _ _ = []

  abbrev pub new_pulses : CtrlGroup → JointMotionData → List ℤ
  new_pulses g cur = convert_ros_units fpu g cur.pos

  unfoldable pub increment_to : ℕ → ℕ → CtrlGroup → JointMotionData → IncrementalData
  unfolding differences
  increment_to pulse_dtype tool g cur = record {
    time = cur.time;
    frame = pulse_dtype;
    user = 0;
    tool = tool;
    inc = differences g.axis_type (new_pulses g cur) g.prev_pulse_pos;
  }
