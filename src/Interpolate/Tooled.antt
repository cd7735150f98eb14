-- ===== src/Interpolate/Tooled.antt =====
-- The tool of the increments that Ros_MotionControl_AddToIncQueueProcess (src/MotionControl.c) makes of
-- one segment, which other tasks may change for the group in the meantime.
use motoros.Prelude.{ℕ, zero, suc, ◌≡◌, refl, Bool-cases, inl, inr, ltb, ◌&&◌, List, [], ◌∷◌}
use motoros.Data.{JointMotionData, IncrementalData, CtrlGroup}
use motoros.Platform.{Platform, State, Environment}
use motoros.Interpolate.{Segment, increment_to}
use motoros.Interpolate.Points.{Locals, group, point, is_ready_now}
use motoros.Interpolate.Task.{
  Outcome, added, refused, waiting, add_pulse_inc_point_to_q, advanced, current, turn_locals,
  settle, Run, conclude, interpolate,
}

-- Every increment is in pulses and has the tool that was read for the segment.
abbrev pub AllTooled : ℕ → ℕ → List IncrementalData → Type 0
AllTooled dtype tool [] = Unit
AllTooled dtype tool (d ∷ ds) =
    (d.tool ≡ tool) × (d.frame ≡ dtype) × (d.user ≡ 0) × AllTooled dtype tool ds

module _ (p : Platform) (beyond : CtrlGroup → JointMotionData) (env : Environment p) (gi : ℕ)
    (seg : Segment) where
  abbrev IsTooled : IncrementalData → Type 0
  IsTooled d = (d.tool ≡ seg.tool) × (d.frame ≡ p.pulse_dtype) × (d.user ≡ 0)

  conclude-AllTooled :
      (o : Outcome) (d : IncrementalData) (after : State p) (r : Run p beyond)
      → IsTooled d
      → AllTooled p.pulse_dtype seg.tool r.increments
      → AllTooled p.pulse_dtype seg.tool (conclude p beyond env o d after r).increments
  conclude-AllTooled added d after r h all = (h.0, h.1, h.2, all)
  conclude-AllTooled refused d after r h all = all
  conclude-AllTooled waiting d after r h all = tt

  increment_to-IsTooled :
      (g : CtrlGroup) (cur : JointMotionData)
      → IsTooled (increment_to p.fpu p.pulse_dtype seg.tool g cur)
  unfolding increment_to
  increment_to-IsTooled g cur = (refl, refl, refl)

  pub interpolate-AllTooled :
      (n patience : ℕ) (l : Locals) (s : State p)
      → AllTooled p.pulse_dtype seg.tool (interpolate p beyond env n patience gi seg l s).increments
  unfolding interpolate
  interpolate-AllTooled zero patience l s = tt
  interpolate-AllTooled (suc n) patience l s =
      let g = group p s gi in
      let before = advanced p beyond env gi seg l s in
      let d =
        increment_to p.fpu p.pulse_dtype seg.tool (group p before gi)
          (current p beyond env gi l before) in
      let outcome = add_pulse_inc_point_to_q p beyond env patience gi d before in
      let after = settle p beyond env gi l before outcome in
      let next = turn_locals p beyond env gi l s in
      elim (Bool-cases
        (ltb (point beyond g l.cur).time (point beyond g l.fin).time && is_ready_now p s)) [
          | inr stops ↦ rw stops tt
          | inl goes_on ↦ rw goes_on (
              conclude-AllTooled outcome.0 d after
                (interpolate p beyond env n patience gi seg next after)
                (increment_to-IsTooled (group p before gi) (current p beyond env gi l before))
                (interpolate-AllTooled n patience next after))
        ]
