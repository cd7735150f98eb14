-- ===== src/Interpolate/Turn.antt =====
-- One turn of the loop of Ros_MotionControl_AddToIncQueueProcess (src/MotionControl.c), while the
-- other tasks leave the data of the segment alone.
use motoros.Prelude.{
  ℕ, ◌+◌, ◌<◌, ◌≡◌, refl, ap, ◌∙◌, ℤ, List, arith, length, length-set, leb, lt→ltb, set,
}
use motoros.Data.{JointMotionData, IncrementalData, CtrlGroup}
use motoros.Platform.{Platform, State, Environment}
use motoros.Interpolate.{Clock, tick, Segment, differences, increment_to}
use motoros.Interpolate.Points.{Locals, group, point, advance}
use motoros.Interpolate.Plan.{Part, part, spot, pulses_of, moved, turn}
use motoros.Interpolate.Others.{Keeps, part-with_group, rest_if-Keeps}
use motoros.Interpolate.Task.{added, rest_if, advanced, turn_locals, settle}

abbrev pub clock : Locals → Part → Clock
clock l q = record {
  time = (spot q l.cur).time;
  calculation_time = l.calculation_time;
  time_inc = l.time_inc;
  leftover = q.time_leftover;
}

-- The end of the segment: the current point is the end point, whose pulses have been sent.
abbrev pub IsReached : Platform → Locals → Part → Type 0
IsReached p l q = (spot q l.cur ≡ spot q l.fin) × (q.prev_pulses ≡ pulses_of p.fpu q (spot q l.fin))

module _ (p : Platform) (beyond : CtrlGroup → JointMotionData) (gi period : ℕ) (seg : Segment) where
  abbrev pub moved_part : Locals → Part → Part
  moved_part l q = record q {
    points = set q.points l.cur (moved p.fpu seg period l.cur l.fin (clock l q) q);
    time_leftover = (tick period (spot q l.fin).time (clock l q)).leftover;
  }

  pub part-advance :
      (l : Locals) (g : CtrlGroup)
      → l.cur < 200
      → l.fin < 200
      → part (advance p beyond period seg l g) ≡ moved_part l (part g)
  unfolding advance
  part-advance l g hc hf = rw (lt→ltb l.cur 200 hc, lt→ltb l.fin 200 hf) refl

  -- The increment that leads to the current point
  abbrev pub step_of : Locals → Part → List ℤ
  step_of l q = differences p.fpu q.types (pulses_of p.fpu q (spot q l.cur)) q.prev_pulses

  abbrev pub increment_at : Locals → CtrlGroup → IncrementalData
  increment_at l g = increment_to p.fpu p.pulse_dtype seg.tool g (point beyond g l.cur)

  pub increment_at-part :
      (l : Locals) (g : CtrlGroup)
      → l.cur < 200
      → ((increment_at l g).time ≡ (spot (part g) l.cur).time)
        × ((increment_at l g).inc ≡ step_of l (part g))
  unfolding increment_to
  increment_at-part l g hc = rw (lt→ltb l.cur 200 hc) (refl, refl)

  module _ (env : Environment p) (leaves : (ms : ℕ) (s : State p) → Keeps p gi s (env ms s)) where
    module _ (l : Locals) (s : State p) (in_range : gi < length s.ctl.groups)
        (same_period : s.ctl.interpol_period ≡ period) (cur_in : l.cur < 200)
        (fin_in : l.fin < 200) where
      abbrev woken : State p
      woken = rest_if p beyond env (leb 15 (l.counter + 1)) s

      abbrev before : State p
      before = advanced p beyond env gi seg l s

      abbrev now : Part
      now = part (group p s gi)

      woken-Keeps : Keeps p gi s woken
      woken-Keeps = rest_if-Keeps p gi beyond env leaves (leb 15 (l.counter + 1)) s

      pub before-part : part (group p before gi) ≡ moved_part l now
      before-part =
          part-with_group p gi woken _ (omega (arith, in_range, woken-Keeps.same_count))
          ∙ ap (λ (k : ℕ). part (advance p beyond k seg l (group p woken gi)))
              (woken-Keeps.same_period ∙ same_period)
          ∙ part-advance l (group p woken gi) cur_in fin_in
          ∙ ap (moved_part l) woken-Keeps.same_part

      pub before_count : length before.ctl.groups ≡ length s.ctl.groups
      before_count = length-set woken.ctl.groups gi _ ∙ woken-Keeps.same_count

      pub before_period : before.ctl.interpol_period ≡ period
      before_period = woken-Keeps.same_period ∙ same_period

      abbrev pub ticks : Clock
      ticks = tick period (spot now l.fin).time (clock l now)

      pub turn_locals_lem :
          ((turn_locals p beyond env gi l s).calculation_time ≡ ticks.calculation_time)
          × ((turn_locals p beyond env gi l s).time_inc ≡ ticks.time_inc)
      turn_locals_lem =
          rw (lt→ltb l.cur 200 cur_in, lt→ltb l.fin 200 fin_in)
            (
              ap (λ (t : ℕ × Part). (tick t.0 (spot t.1 l.fin).time (clock l t.1)).calculation_time)
                  same,
              ap (λ (t : ℕ × Part). (tick t.0 (spot t.1 l.fin).time (clock l t.1)).time_inc) same,
            )
        where
          same :
              ◌≡◌ {A = ℕ × Part} (woken.ctl.interpol_period, part (group p woken gi)) (period, now)
          same = λ i. ((woken-Keeps.same_period ∙ same_period) i, woken-Keeps.same_part i)

      pub settled_part :
          (out : State p)
          → gi < length out.ctl.groups
          → part (group p out gi) ≡ moved_part l now
          → spot (moved_part l now) l.cur ≡ moved p.fpu seg period l.cur l.fin (clock l now) now
          → part (group p (settle p beyond env gi l before (added, out)) gi)
            ≡ turn p.fpu seg period l.cur l.fin (clock l now) now
      settled_part out h e m =
          part-with_group p gi out _ h
          ∙ rw (lt→ltb l.cur 200 cur_in) (
              ap
                (λ (t : Part × Part). record t.0 {
                  prev_pulses = pulses_of p.fpu t.1 (spot t.1 l.cur);
                })
                (λ i. (e i, before-part i))
              ∙ ap
                  (λ (d : JointMotionData). record (moved_part l now) {
                    prev_pulses = pulses_of p.fpu now d;
                  })
                  m)
