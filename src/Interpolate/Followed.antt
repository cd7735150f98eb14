-- ===== src/Interpolate/Followed.antt =====
-- What Ros_MotionControl_AddToIncQueueProcess (src/MotionControl.c) puts into the queue for one
-- segment of a trajectory, while the other tasks leave the data of the segment alone.
use motoros.Prelude.{
  ℕ, zero, suc, ◌+◌, ◌<◌, ◌≤◌, ◌≡◌, ◌≢◌, refl, sym, ap, zero-+ℤ, Bool, true, false, ◌&&◌, ◌⊎◌, inl,
  inr, [], arith, length, ltb, lt→ltb, ltb_self, Bool-cases, if◌then◌else◌,
}
use mathlib.Core.Path.{subst}
use motoros.Data.{JointMotionData, CtrlGroup}
use motoros.Platform.{Platform, State, Environment}
use motoros.Interpolate.{start_clock, Clock, Segment}
use motoros.Interpolate.Points.{first_locals, Locals, group, point, is_ready_now}
use motoros.Interpolate.Plan.{Part, part, spot, IsValidAxis, IsFull, total}
use motoros.Interpolate.Others.{Keeps, Keeps-refl, add_to_q-IsFair}
use motoros.Interpolate.Task.{
  add_pulse_inc_point_to_q, advanced, turn_locals, settle, Run, conclude, interpolate,
}
use motoros.Interpolate.Turn.{IsReached, increment_at}
use motoros.Interpolate.UnderWay.{IsUnderWay, Ending, Follows}
use motoros.Interpolate.Tooled.{AllTooled, interpolate-AllTooled}
use motoros.Interpolate.Settled.{IsFollowed, still_there, concluded}

module _ (p : Platform) (beyond : CtrlGroup → JointMotionData) (gi period : ℕ) (seg : Segment) where
  module _ (env : Environment p) (leaves : (ms : ℕ) (s : State p) → Keeps p gi s (env ms s))
      (axis : ℕ) (axis_in : axis < 8) where
    abbrev IsLoopFollowed : ℕ → ℕ → Locals → State p → Type 0
    IsLoopFollowed = IsFollowed p beyond gi period seg env leaves axis axis_in

    abbrev guard : Locals → State p → Bool
    guard l s =
        ltb (point beyond (group p s gi) l.cur).time (point beyond (group p s gi) l.fin).time
        && is_ready_now p s

    guard_lem :
        (l : Locals) (s : State p) (b : Bool)
        → l.cur < 200
        → l.fin < 200
        → ltb (spot (part (group p s gi)) l.cur).time (spot (part (group p s gi)) l.fin).time
            && is_ready_now p s
          ≡ b
        → guard l s ≡ b
    guard_lem l s b hc hf e = rw (lt→ltb l.cur 200 hc, lt→ltb l.fin 200 hf) e

    abbrev stop_here : State p → Run p beyond
    stop_here s = record { ended = true; increments = []; state = s }

    abbrev turn_run : ℕ → ℕ → Locals → State p → Run p beyond
    turn_run n patience l s =
        let before = advanced p beyond env gi seg l s in
        let entry = increment_at p beyond gi period seg l (group p before gi) in
        let outcome = add_pulse_inc_point_to_q p beyond env patience gi entry before in
        let after = settle p beyond env gi l before outcome in
        conclude p beyond env outcome.0 entry after
          (interpolate p beyond env n patience gi seg (turn_locals p beyond env gi l s) after)

    interpolate-turn :
        (n patience : ℕ) (l : Locals) (s : State p) (b : Bool)
        → guard l s ≡ b
        → interpolate p beyond env (suc n) patience gi seg l s
          ≡ (if b then turn_run n patience l s else stop_here s)
    unfolding interpolate
    interpolate-turn n patience l s b h =
        ap (λ (b : Bool). if b then turn_run n patience l s else stop_here s) h

    stops :
        (n patience : ℕ) (l : Locals) (s : State p)
        → guard l s ≡ false
        → Ending p beyond gi period seg l (stop_here s)
        → IsLoopFollowed (suc n) patience l s
    unfolding total
    stops n patience l s h e =
        subst (λ (r : Run p beyond). Follows p beyond gi period seg axis l (part (group p s gi)) r)
          (sym (interpolate-turn n patience l s false h)) (tt, zero-+ℤ _, e)

    pub follows :
        (n patience : ℕ) (l : Locals) (s : State p)
        → gi < length s.ctl.groups
        → s.ctl.interpol_period ≡ period
        → IsUnderWay p period l (part (group p s gi))
        → IsValidAxis (part (group p s gi)) axis
        → (spot (part (group p s gi)) l.fin).time < n + (spot (part (group p s gi)) l.cur).time
        → IsLoopFollowed n patience l s
    unfolding interpolate total
    follows zero patience l s in_range same u valid fuel = absurd (late u.going)
      where
        late :
            (((spot (part (group p s gi)) l.cur).time < (spot (part (group p s gi)) l.fin).time)
                × (l.calculation_time ≡ (spot (part (group p s gi)) l.cur).time))
              ⊎ IsReached p l (part (group p s gi))
            → ⊥
        late (inl before) = omega (arith, before.0, fuel)
        late (inr reached) = omega (arith, fuel, ap (λ (c : JointMotionData). c.time) reached.0)
    follows (suc n) patience l s in_range same u valid fuel = elim u.going [
      | inr reached ↦
          stops n patience l s
            (guard_lem l s false u.cur_in u.fin_in
              (rw (reached.0, ltb_self (spot (part (group p s gi)) l.fin).time) refl))
            (inl (refl, reached))
      | inl before ↦ elim (Bool-cases (is_ready_now p s)) [
        | inr stopped ↦
            stops n patience l s
              (guard_lem l s false u.cur_in u.fin_in (rw (lt→ltb _ _ before.0, stopped) refl))
              (inr (inl (refl, stopped)))
        | inl ready ↦
            let start = advanced p beyond env gi seg l s in
            let entry = increment_at p beyond gi period seg l (group p start gi) in
            let fair = add_to_q-IsFair p gi beyond env leaves patience entry start (
              still_there p beyond gi period seg env leaves axis axis_in n patience l s in_range
                same u valid before.0 before.1 fuel start (Keeps-refl p gi start)) in
            subst
              (λ (r : Run p beyond). Follows p beyond gi period seg axis l (part (group p s gi)) r)
              (sym (
                interpolate-turn n patience l s true
                  (guard_lem l s true u.cur_in u.fin_in (rw (lt→ltb _ _ before.0, ready) refl))))
              (concluded p beyond gi period seg env leaves axis axis_in n patience l s in_range same
                u valid before.0 before.1 fuel
                (add_pulse_inc_point_to_q p beyond env patience gi entry start) fair.0 fair.1
                (follows n patience (turn_locals p beyond env gi l s)))
      ]
    ]

abbrev locals_of : ℕ → ℕ → Clock → Locals
locals_of prev it c = record {
  cur = prev;
  fin = it;
  calculation_time = c.calculation_time;
  time_inc = c.time_inc;
  counter = 0;
}

start_clock-IsUnderWay :
    (p : Platform) (period prev it leftover : ℕ) (q : Part)
    → 0 < period
    → leftover ≤ period
    → prev < 200
    → it < 200
    → prev ≢ it
    → IsFull q prev it
    → (spot q prev).time < (spot q it).time
    → IsUnderWay p period (locals_of prev it (start_clock period (spot q prev).time leftover)) q
unfolding start_clock
start_clock-IsUnderWay p period prev it zero q hp hl cp ci ne full before = record {
  cur_in = cp;
  fin_in = ci;
  other = ne;
  full = full;
  inc_pos = hp;
  inc_le = omega arith;
  going = inl (before, refl);
}
start_clock-IsUnderWay p period prev it (suc k) q hp hl cp ci ne full before = record {
  cur_in = cp;
  fin_in = ci;
  other = ne;
  full = full;
  inc_pos = omega arith;
  inc_le = hl;
  going = inl (before, refl);
}

-- While the other tasks leave the data of the segment alone, a segment of positive length puts
-- increments into the queue whose times rise by at most a period each, from the time of the point
-- before up to at most that of the end point, and whose pulses on a valid axis add up to what the
-- previous pulse position of the group changes by; each is in pulses and has the tool that was read
-- for the segment before its loop. With as many turns as there are milliseconds,
-- and one more, the loop has then reached the end point itself and sent its pulses, or motion is
-- not ready, or the points were thrown away since the queue refused an increment; or the queue is
-- still full after the periods that were waited for.
pub interpolate-Follows :
    (p : Platform) (beyond : CtrlGroup → JointMotionData) (env : Environment p)
    (gi axis n patience prev it : ℕ) (s : State p) (seg : Segment)
    → ((ms : ℕ) (t : State p) → Keeps p gi t (env ms t))
    → gi < length s.ctl.groups
    → axis < 8
    → prev < 200
    → it < 200
    → prev ≢ it
    → 0 < s.ctl.interpol_period
    → (group p s gi).time_leftover_ms ≤ s.ctl.interpol_period
    → IsFull (part (group p s gi)) prev it
    → IsValidAxis (part (group p s gi)) axis
    → (spot (part (group p s gi)) prev).time < (spot (part (group p s gi)) it).time
    → (spot (part (group p s gi)) it).time < n + (spot (part (group p s gi)) prev).time
    → let l =
        first_locals s.ctl.interpol_period prev it
          (spot (part (group p s gi)) prev).time
          (group p s gi) in
      let r = interpolate p beyond env n patience gi seg l s in
      Follows p beyond gi s.ctl.interpol_period seg axis l (part (group p s gi)) r
      × AllTooled p.pulse_dtype seg.tool r.increments
interpolate-Follows p beyond env gi axis n patience prev it s seg leaves in_range axis_in cp ci ne
      hp hl full valid before fuel =
    (
      follows p beyond gi s.ctl.interpol_period seg env leaves axis axis_in n patience _ s in_range
          refl
          (start_clock-IsUnderWay p s.ctl.interpol_period prev it (group p s gi).time_leftover_ms
            (part (group p s gi)) hp hl cp ci ne full before)
          valid fuel,
      interpolate-AllTooled p beyond env gi seg n patience _ s,
    )
