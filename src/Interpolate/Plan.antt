-- ===== src/Interpolate/Plan.antt =====
-- One turn of the loop of Ros_MotionControl_AddToIncQueueProcess (src/MotionControl.c) on the data
-- of its group, and the pulses of a list of increments.
use motoros.Prelude.{
  ℕ, zero, suc, ◌<◌, ◌≡◌, ◌≢◌, refl, sym, ap, ◌∙◌, ℤ, pos, ◌+ℤ◌, ◌-ℤ◌, int_laws, false, List, [],
  ◌∷◌, arith, length, length-set, get_or, get_or-set_self, get_or-set_ne, set,
}
use motoros.Data.{Double, AxisType, JointMotionData, IncrementalData, CtrlGroup}
use motoros.Fpu.{Fpu}
use motoros.CtrlGroup.{ros_to_moto_units, is_invalid_type}
use motoros.Trajectory.Init.{no_point}
use motoros.Interpolate.{Clock, tick, Segment, differences, next_point}

-- The part of a group that no other task changes while a segment is worked on.
pub record Part : Type 0 where
  pub points : List JointMotionData
  pub time_leftover : ℕ
  pub prev_pulses : List ℤ
  pub types : List AxisType
  pub to_rad : List Double
  pub to_meter : List Double

abbrev pub part : CtrlGroup → Part
part g = record {
  points = g.trajectory_to_process;
  time_leftover = g.time_leftover_ms;
  prev_pulses = g.prev_pulse_pos;
  types = g.axis_type;
  to_rad = g.pulse_to_rad;
  to_meter = g.pulse_to_meter;
}

abbrev pub spot : Part → ℕ → JointMotionData
spot q i = get_or q.points i no_point

abbrev pub IsValidAxis : Part → ℕ → Type 0
IsValidAxis q axis = is_invalid_type (get_or q.types axis AxisType.axis_invalid) ≡ false

-- Arrays have their full sizes.
pub record IsFull (q : Part) (cur fin : ℕ) : Type 0 where
  pub all_points : length q.points ≡ 200
  pub all_pulses : length q.prev_pulses ≡ 8
  pub all_types : length q.types ≡ 8
  pub all_rad : length q.to_rad ≡ 8
  pub all_meter : length q.to_meter ≡ 8
  pub cur_full : length (spot q cur).pos ≡ 8
  pub fin_full : length (spot q fin).pos ≡ 8

-- The pulses of one axis in a list of increments.
unfoldable pub total : ℕ → List IncrementalData → ℤ
total axis [] = pos 0
total axis (d ∷ ds) = get_or d.inc axis (pos 0) +ℤ total axis ds

sub_add : (a b : ℤ) → (a -ℤ b) +ℤ b ≡ a
sub_add a b = omega int_laws

module _ (fpu : Fpu) where
  abbrev pub pulses_of : Part → JointMotionData → List ℤ
  pulses_of q d = ros_to_moto_units fpu q.types q.to_rad q.to_meter d.pos

  length-ros_to_moto_units :
      (n : ℕ) (ts : List AxisType) (rs ms ps : List Double)
      → length ts ≡ n
      → length rs ≡ n
      → length ms ≡ n
      → length ps ≡ n
      → length (ros_to_moto_units fpu ts rs ms ps) ≡ n
  unfolding ros_to_moto_units
  length-ros_to_moto_units n [] rs ms ps ht hr hm hp = ht
  length-ros_to_moto_units n (t ∷ ts) [] ms ps ht hr hm hp = hr
  length-ros_to_moto_units n (t ∷ ts) (r ∷ rs) [] ps ht hr hm hp = hm
  length-ros_to_moto_units n (t ∷ ts) (r ∷ rs) (m ∷ ms) [] ht hr hm hp = hp
  length-ros_to_moto_units zero (t ∷ ts) (r ∷ rs) (m ∷ ms) (p ∷ ps) ht hr hm hp =
      absurd (omega arith)
  length-ros_to_moto_units (suc n) (t ∷ ts) (r ∷ rs) (m ∷ ms) (p ∷ ps) ht hr hm hp = ap suc (
      length-ros_to_moto_units n ts rs ms ps (omega arith) (omega arith) (omega arith)
        (omega arith))

  pub get_or-differences :
      (ts : List AxisType) (xs ys : List ℤ) (axis : ℕ)
      → axis < length ts
      → length xs ≡ length ts
      → length ys ≡ length ts
      → is_invalid_type (get_or ts axis AxisType.axis_invalid) ≡ false
      → get_or (differences fpu ts xs ys) axis (pos 0)
        ≡ get_or xs axis (pos 0) -ℤ get_or ys axis (pos 0)
  unfolding differences
  get_or-differences [] xs ys axis h hx hy v = absurd (omega arith)
  get_or-differences (t ∷ ts) [] ys axis h hx hy v = absurd (omega arith)
  get_or-differences (t ∷ ts) (x ∷ xs) [] axis h hx hy v = absurd (omega arith)
  get_or-differences (t ∷ ts) (x ∷ xs) (y ∷ ys) zero h hx hy v = rw v refl
  get_or-differences (t ∷ ts) (x ∷ xs) (y ∷ ys) (suc axis) h hx hy v =
      get_or-differences ts xs ys axis (omega arith) (omega arith) (omega arith) v

  module _ (seg : Segment) (period cur fin : ℕ) where
    abbrev pub moved : Clock → Part → JointMotionData
    moved c q = next_point fpu seg (spot q fin) (tick period (spot q fin).time c) (spot q cur)

    -- The part after a turn whose increment was put into the queue.
    abbrev pub turn : Clock → Part → Part
    turn c q = record q {
      points = set q.points cur (moved c q);
      time_leftover = (tick period (spot q fin).time c).leftover;
      prev_pulses = pulses_of q (moved c q);
    }

    module _ (c : Clock) (q : Part) (full : IsFull q cur fin) (cur_in : cur < 200)
        (other : cur ≢ fin) (full_move : length (moved c q).pos ≡ 8) where
      pub spot_cur : spot (turn c q) cur ≡ moved c q
      spot_cur = get_or-set_self q.points cur (moved c q) no_point (omega (arith, full.all_points))

      pub spot_fin : spot (turn c q) fin ≡ spot q fin
      spot_fin = get_or-set_ne q.points cur fin (moved c q) no_point other

      pub turn-IsFull : IsFull (turn c q) cur fin
      turn-IsFull = record {
        all_points = length-set q.points cur (moved c q) ∙ full.all_points;
        all_pulses =
            length-ros_to_moto_units 8 q.types q.to_rad q.to_meter (moved c q).pos full.all_types
              full.all_rad full.all_meter full_move;
        all_types = full.all_types;
        all_rad = full.all_rad;
        all_meter = full.all_meter;
        cur_full = ap (λ (d : JointMotionData). length d.pos) spot_cur ∙ full_move;
        fin_full = ap (λ (d : JointMotionData). length d.pos) spot_fin ∙ full.fin_full;
      }

      -- The increment of an axis leads from the old pulses to the new ones.
      pub turn-pulses :
          (axis : ℕ)
          → axis < 8
          → IsValidAxis q axis
          → get_or (differences fpu q.types (pulses_of q (moved c q)) q.prev_pulses) axis (pos 0)
              +ℤ get_or q.prev_pulses axis (pos 0)
            ≡ get_or (turn c q).prev_pulses axis (pos 0)
      turn-pulses axis h v =
          ap (λ (z : ℤ). z +ℤ get_or q.prev_pulses axis (pos 0))
            (get_or-differences q.types (pulses_of q (moved c q)) q.prev_pulses axis
              (omega (arith, full.all_types)) (turn-IsFull.all_pulses ∙ sym full.all_types)
              (full.all_pulses ∙ sym full.all_types) v)
          ∙ sub_add (get_or (turn c q).prev_pulses axis (pos 0)) (get_or q.prev_pulses axis (pos 0))
