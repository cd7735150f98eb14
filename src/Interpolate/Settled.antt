-- ===== src/Interpolate/Settled.antt =====
-- The end of a turn of the loop of Ros_MotionControl_AddToIncQueueProcess (src/MotionControl.c), by
-- what came of its increment, and what the turns behind it then put into the queue.
use motoros.Prelude.{
  ℕ, zero, suc, ◌+◌, ◌<◌, ◌≤◌, ◌≡◌, ◌≢◌, refl, sym, ap, ◌∙◌, ℤ, pos, ◌+ℤ◌, zero-+ℤ, true, ◌⊎◌, inl,
  inr, List, [], arith, length, length-set, get_or, lt→ltb, get_or-set_self,
}
use mathlib.Core.Path.{subst}
use motoros.Data.{JointMotionData, IncrementalData, CtrlGroup, q_size}
use motoros.Platform.{Platform, State, Environment}
use motoros.Trajectory.Init.{no_points}
use motoros.Interpolate.{Segment, differences}
use motoros.Interpolate.Points.{no_group, drop_points, Locals, group}
use motoros.Interpolate.Ticks.{Spaced}
use motoros.Interpolate.Plan.{Part, part, spot, IsValidAxis, total, pulses_of, turn-pulses}
use motoros.Interpolate.Others.{Keeps}
use motoros.Interpolate.Task.{
  Outcome, added, refused, waiting, advanced, turn_locals, settle, Run, conclude, interpolate,
}
use motoros.Interpolate.Turn.{
  clock, moved_part, increment_at, increment_at-part, step_of, before-part, before_count,
  before_period, turn_locals_lem, settled_part,
}
use motoros.Interpolate.UnderWay.{
  IsUnderWay, get_or-no_points, add_up, Follows, q', new_point, full_move, at_cur, at_fin, went,
  goes_on,
}

module _ (p : Platform) (beyond : CtrlGroup → JointMotionData) (gi period : ℕ) (seg : Segment) where
  module _ (env : Environment p) (leaves : (ms : ℕ) (s : State p) → Keeps p gi s (env ms s))
      (axis : ℕ) (axis_in : axis < 8) where
    abbrev pub IsFollowed : ℕ → ℕ → Locals → State p → Type 0
    IsFollowed n patience l s =
        Follows p beyond gi period seg axis l (part (group p s gi))
          (interpolate p beyond env n patience gi seg l s)

    -- The loop, from what its rest does.
    pub dropped :
        (n patience : ℕ) (l : Locals) (s : State p)
        → 0 < n
        → l.cur < 200
        → l.fin < 200
        → (group p s gi).trajectory_to_process ≡ no_points
        → interpolate p beyond env n patience gi seg l s
          ≡ record { ended = true; increments = []; state = s }
    unfolding interpolate
    dropped zero patience l s hn hc hf e = absurd (omega arith)
    dropped (suc n) patience l s hn hc hf e =
        rw
          (
            lt→ltb l.cur 200 hc,
            lt→ltb l.fin 200 hf,
            e,
            get_or-no_points 200 l.cur,
            get_or-no_points 200 l.fin,
          )
          refl

    module _ (n patience : ℕ) (l : Locals) (s : State p) (in_range : gi < length s.ctl.groups)
        (same_period : s.ctl.interpol_period ≡ period)
        (under_way : IsUnderWay p period l (part (group p s gi)))
        (valid : IsValidAxis (part (group p s gi)) axis)
        (before_end : (spot (part (group p s gi)) l.cur).time
          < (spot (part (group p s gi)) l.fin).time)
        (counted : l.calculation_time ≡ (spot (part (group p s gi)) l.cur).time)
        (fuel : (spot (part (group p s gi)) l.fin).time
          < suc n + (spot (part (group p s gi)) l.cur).time) where
      open under_way use {cur_in, fin_in, full}

      abbrev pub q : Part
      q = part (group p s gi)

      abbrev pub moved_on : State p
      moved_on = advanced p beyond env gi seg l s

      abbrev pub entry : IncrementalData
      entry = increment_at p beyond gi period seg l (group p moved_on gi)

      abbrev pub l' : Locals
      l' = turn_locals p beyond env gi l s

      abbrev pub new : JointMotionData
      new = new_point p beyond gi period seg l q under_way before_end counted

      abbrev pub q'' : Part
      q'' = q' p beyond gi period seg l q under_way before_end counted

      moved_spot : spot (moved_part p beyond gi period seg l q) l.cur ≡ new
      moved_spot = at_cur p beyond gi period seg l q under_way before_end counted

      moved_now : part (group p moved_on gi) ≡ moved_part p beyond gi period seg l q
      moved_now =
          before-part p beyond gi period seg env leaves l s in_range same_period cur_in fin_in

      d_time : entry.time ≡ new.time
      d_time =
          (increment_at-part p beyond gi period seg l (group p moved_on gi) cur_in).0
          ∙ ap (λ (r : Part). (spot r l.cur).time) moved_now
          ∙ ap (λ (c : JointMotionData). c.time) moved_spot

      d_inc : entry.inc ≡ differences p.fpu q.types (pulses_of p.fpu q new) q.prev_pulses
      d_inc =
          (increment_at-part p beyond gi period seg l (group p moved_on gi) cur_in).1
          ∙ ap (step_of p beyond gi period seg l) moved_now
          ∙ ap
              (λ (c : JointMotionData).
                differences p.fpu q.types (pulses_of p.fpu q c) q.prev_pulses)
              moved_spot

      d_pulses :
          get_or entry.inc axis (pos 0) +ℤ get_or q.prev_pulses axis (pos 0)
          ≡ get_or q''.prev_pulses axis (pos 0)
      d_pulses =
          ap (λ (xs : List ℤ). get_or xs axis (pos 0) +ℤ get_or q.prev_pulses axis (pos 0)) d_inc
          ∙ turn-pulses p.fpu seg period l.cur l.fin (clock l q) q full cur_in under_way.other
              (full_move p beyond gi period seg l q under_way before_end counted) axis axis_in valid

      under_way' : IsUnderWay p period l' q''
      under_way' =
          let (calculated, increment) =
            turn_locals_lem p beyond gi period seg env leaves l s in_range same_period cur_in
              fin_in in
          goes_on p beyond gi period seg l q under_way before_end counted l'.calculation_time
            l'.time_inc l'.counter calculated increment

      steps :
          ((spot q l.cur).time < new.time)
          × (new.time ≤ (spot q l.cur).time + period)
          × (new.time ≤ (spot q l.fin).time)
      steps =
          let w = went p beyond gi period seg l q under_way before_end counted in (w.0, w.1, w.2)

      at_new : spot q'' l.cur ≡ new
      at_new = at_cur p beyond gi period seg l q under_way before_end counted

      at_end : spot q'' l.fin ≡ spot q l.fin
      at_end = at_fin p beyond gi period seg l q under_way before_end counted

      fuel' : (spot q'' l.fin).time < n + (spot q'' l.cur).time
      fuel' = omega (
        arith,
        fuel,
        steps.0,
        ap (λ (c : JointMotionData). c.time) at_new,
        ap (λ (c : JointMotionData). c.time) at_end,
      )

      same_length : length moved_on.ctl.groups ≡ length s.ctl.groups
      same_length =
          before_count p beyond gi period seg env leaves l s in_range same_period cur_in fin_in

      same_moved : moved_on.ctl.interpol_period ≡ period
      same_moved =
          before_period p beyond gi period seg env leaves l s in_range same_period cur_in fin_in

      pub still_there : (out : State p) → Keeps p gi moved_on out → gi < length out.ctl.groups
      still_there out kept = omega (arith, in_range, kept.same_count, same_length)

      abbrev pub after : Outcome × State p → State p
      after o = settle p beyond env gi l moved_on o

      abbrev pub rest : Outcome × State p → Run p beyond
      rest o = interpolate p beyond env n patience gi seg l' (after o)

      after_count : (out : State p) → length (after (added, out)).ctl.groups ≡ length out.ctl.groups
      after_count out = length-set out.ctl.groups gi _

      -- The turn, by what came of its increment.
      pub concluded :
          (o : Outcome × State p)
          → Keeps p gi moved_on o.1
          → (o.0 ≢ waiting) ⊎ (q_size ≤ (group p o.1 gi).inc_q.cnt)
          → ((s' : State p)
              → gi < length s'.ctl.groups
              → s'.ctl.interpol_period ≡ period
              → IsUnderWay p period l' (part (group p s' gi))
              → IsValidAxis (part (group p s' gi)) axis
              → (spot (part (group p s' gi)) l.fin).time
                < n + (spot (part (group p s' gi)) l.cur).time
              → IsFollowed n patience l' s')
          → Follows p beyond gi period seg axis l q
              (conclude p beyond env o.0 entry (after o) (rest o))
      unfolding total
      concluded (added, out) kept w ih =
          let in_out = still_there out kept in
          let settled =
            settled_part p beyond gi period seg env leaves l s in_range same_period cur_in fin_in
              out in_out (kept.same_part ∙ moved_now) moved_spot in
          let back = λ (P : Part → Type 0) (h : P q''). subst P (sym settled) h in
          let step =
            ih (after (added, out)) (omega (arith, in_out, after_count out))
              (kept.same_period ∙ same_moved) (back (λ r. IsUnderWay p period l' r) under_way')
              (back (λ r. IsValidAxis r axis) valid)
              (back (λ r. (spot r l.fin).time < n + (spot r l.cur).time) fuel') in
          let (spaced, balance, ending) =
            subst (λ (r : Part). Follows p beyond gi period seg axis l' r (rest (added, out)))
              settled step in
          (
            (
              omega (arith, d_time, steps.0),
              omega (arith, d_time, steps.1),
              omega (arith, d_time, steps.2),
              subst (λ (t : ℕ × ℕ). Spaced period t.0 t.1 (rest (added, out)).increments)
                  (λ i.
                    ((at_end i).time, (ap (λ (c : JointMotionData). c.time) at_new ∙ sym d_time) i))
                  spaced,
            ),
            add_up (get_or entry.inc axis (pos 0)) (total axis (rest (added, out)).increments)
                (get_or q.prev_pulses axis (pos 0)) (get_or q''.prev_pulses axis (pos 0)) _ d_pulses
                balance,
            ending,
          )
      concluded (refused, out) kept w ih =
          let in_out = still_there out kept in
          let gone =
            get_or-set_self out.ctl.groups gi (drop_points (group p out gi)) no_group in_out in
          let no_more =
            dropped n patience l' (after (refused, out)) (omega (arith, fuel, before_end)) cur_in
              fin_in (ap (λ (g : CtrlGroup). g.trajectory_to_process) gone) in
          subst (λ (r : Run p beyond). Follows p beyond gi period seg axis l q r) (sym no_more)
            (
              tt,
              zero-+ℤ _
                  ∙ ap (λ (xs : List ℤ). get_or xs axis (pos 0))
                      (sym (
                        ap (λ (g : CtrlGroup). g.prev_pulse_pos) gone
                        ∙ ap (λ (r : Part). r.prev_pulses) (kept.same_part ∙ moved_now))),
              inr (inr (inl (refl, ap (λ (g : CtrlGroup). g.trajectory_to_process) gone))),
            )
      concluded (waiting, out) kept (inl not_waiting) ih = absurd (not_waiting refl)
      concluded (waiting, out) kept (inr still_full) ih = (
        tt,
        zero-+ℤ _
            ∙ ap (λ (xs : List ℤ). get_or xs axis (pos 0))
                (sym (ap (λ (r : Part). r.prev_pulses) (kept.same_part ∙ moved_now))),
        inr (inr (inr (refl, still_full))),
      )
