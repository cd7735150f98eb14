-- ===== src/Interpolate/UnderWay.antt =====
-- The invariant of the loop of Ros_MotionControl_AddToIncQueueProcess (src/MotionControl.c), and that
-- a turn keeps it.
use motoros.Prelude.{
  ℕ, zero, suc, ◌+◌, ◌<◌, ◌≤◌, ◌≡◌, ◌≢◌, refl, sym, ap, ◌∙◌, ℤ, pos, ◌+ℤ◌, +ℤ_assoc, +ℤ_comm, true,
  false, ◌⊎◌, inl, inr, arith, length, get_or, replicate,
}
use motoros.Data.{JointMotionData, CtrlGroup, q_size}
use motoros.Platform.{Platform}
use motoros.Trajectory.Init.{no_point, no_points}
use motoros.Interpolate.{Clock, tick, Segment}
use motoros.Interpolate.Points.{Locals, group, is_ready_now}
use motoros.Interpolate.Ticks.{
  Spaced, tick_lem, next_point-time, length-next_point, next_point-last,
}
use motoros.Interpolate.Plan.{
  Part, part, spot, IsFull, total, pulses_of, moved, turn, spot_cur, spot_fin, turn-IsFull,
}
use motoros.Interpolate.Task.{Run}
use motoros.Interpolate.Turn.{clock, IsReached}

-- A segment between two different points of the array, either before its end, with the calculation
-- at the current point, or at its end.
pub record IsUnderWay (p : Platform) (period : ℕ) (l : Locals) (q : Part) : Type 0 where
  pub cur_in : l.cur < 200
  pub fin_in : l.fin < 200
  pub other : l.cur ≢ l.fin
  pub full : IsFull q l.cur l.fin
  pub inc_pos : 0 < l.time_inc
  pub inc_le : l.time_inc ≤ period
  pub going :
      (((spot q l.cur).time < (spot q l.fin).time) × (l.calculation_time ≡ (spot q l.cur).time))
      ⊎ IsReached p l q

pub get_or-no_points : (n i : ℕ) → get_or (replicate n no_point) i no_point ≡ no_point
get_or-no_points zero i = refl
get_or-no_points (suc n) zero = refl
get_or-no_points (suc n) (suc i) = get_or-no_points n i

pub add_up : (a r x y z : ℤ) → a +ℤ x ≡ y → r +ℤ y ≡ z → (a +ℤ r) +ℤ x ≡ z
add_up a r x y z h k =
    ap (λ (t : ℤ). t +ℤ x) (+ℤ_comm a r) ∙ +ℤ_assoc r a x ∙ ap (λ (t : ℤ). r +ℤ t) h ∙ k

module _ (p : Platform) (beyond : CtrlGroup → JointMotionData) (gi period : ℕ) (seg : Segment) where
  -- How the loop ends: at the end point, with motion no longer possible, with the points thrown away
  -- because the queue refused an increment; or it has not ended, and the queue is full.
  abbrev pub Ending : Locals → Run p beyond → Type 0
  Ending l r =
      ((r.ended ≡ true) × IsReached p l (part (group p r.state gi)))
      ⊎ (((r.ended ≡ true) × (is_ready_now p r.state ≡ false))
          ⊎ (((r.ended ≡ true) × ((group p r.state gi).trajectory_to_process ≡ no_points))
              ⊎ ((r.ended ≡ false) × (q_size ≤ (group p r.state gi).inc_q.cnt))))

  abbrev pub Follows : ℕ → Locals → Part → Run p beyond → Type 0
  Follows axis l q r =
      Spaced period (spot q l.fin).time (spot q l.cur).time r.increments
      × (total axis r.increments +ℤ get_or q.prev_pulses axis (pos 0)
          ≡ get_or (group p r.state gi).prev_pulse_pos axis (pos 0))
      × Ending l r

  module _ (l : Locals) (q : Part) (under_way : IsUnderWay p period l q)
      (before_end : (spot q l.cur).time < (spot q l.fin).time)
      (counted : l.calculation_time ≡ (spot q l.cur).time) where
    open under_way use {cur_in, fin_in, other, full, inc_pos, inc_le}

    abbrev pub c' : Clock
    c' = tick period (spot q l.fin).time (clock l q)

    abbrev pub q' : Part
    q' = turn p.fpu seg period l.cur l.fin (clock l q) q

    abbrev pub new_point : JointMotionData
    new_point = moved p.fpu seg period l.cur l.fin (clock l q) q

    pub full_move : length new_point.pos ≡ 8
    full_move =
        length-next_point p.fpu seg (spot q l.fin) (spot q l.cur) period (clock l q) full.fin_full
          full.cur_full

    new_time : new_point.time ≡ c'.time
    new_time = next_point-time p.fpu seg (spot q l.fin) (spot q l.cur) period (clock l q)

    pub at_cur : spot q' l.cur ≡ new_point
    at_cur = spot_cur p.fpu seg period l.cur l.fin (clock l q) q full cur_in other full_move

    pub at_fin : spot q' l.fin ≡ spot q l.fin
    at_fin = spot_fin p.fpu seg period l.cur l.fin (clock l q) q full cur_in other full_move

    abbrev pub TicksGo : Type 0
    TicksGo =
        (new_point.time ≡ (spot q l.fin).time)
        ⊎ ((new_point.time < (spot q l.fin).time) × (c'.calculation_time ≡ new_point.time))

    pub went :
        ((spot q l.cur).time < new_point.time)
        × (new_point.time ≤ (spot q l.cur).time + period)
        × (new_point.time ≤ (spot q l.fin).time)
        × (0 < c'.time_inc)
        × (c'.time_inc ≤ period)
        × TicksGo
    went =
        let (a, b, c, d, e, f) =
          tick_lem period (spot q l.fin).time (clock l q) counted inc_pos inc_le before_end in
        rw new_time (a, b, c, d, e, ground arith)

    pub goes_on :
        (a b k : ℕ)
        → a ≡ c'.calculation_time
        → b ≡ c'.time_inc
        → IsUnderWay p period (record l { calculation_time = a; time_inc = b; counter = k }) q'
    goes_on a b k ea eb = record {
      cur_in = cur_in;
      fin_in = fin_in;
      other = other;
      full = turn-IsFull p.fpu seg period l.cur l.fin (clock l q) q full cur_in other full_move;
      inc_pos = omega (arith, went.3);
      inc_le = omega (arith, went.4);
      going = elim went.5 [
        | inr (lt, e) ↦ inl (
          omega (
            arith,
            ap (λ (d : JointMotionData). d.time) at_cur,
            ap (λ (d : JointMotionData). d.time) at_fin,
          ),
          omega (arith, ap (λ (d : JointMotionData). d.time) at_cur),
        )
        | inl e ↦
            let last =
              next_point-last p.fpu seg (spot q l.fin) (spot q l.cur) period (clock l q)
                (sym new_time ∙ e) in
            inr (
              at_cur ∙ last ∙ sym at_fin,
              ap (λ (d : JointMotionData). pulses_of p.fpu q d) (last ∙ sym at_fin),
            )
      ];
    }
