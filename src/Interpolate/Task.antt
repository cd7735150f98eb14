-- ===== src/Interpolate/Task.antt =====
-- The loops of Ros_MotionControl_AddToIncQueueProcess and Ros_MotionControl_AddPulseIncPointToQ of
-- src/MotionControl.c, for the group with the index `gi`. Other tasks run while this one sleeps.
use motoros.Prelude.{
  ℕ, zero, suc, ◌+◌, Bool, true, false, ◌&&◌, Option, none, some, List, [], ◌∷◌, ltb, leb,
  if◌then◌else◌,
}
use motoros.Data.{JointMotionData, IncrementalData, CtrlGroup, q_size}
use motoros.Platform.{Platform, State, Environment}
use motoros.Queue.{enqueue}
use motoros.Controller.{is_motion_mode_trajectory, is_motion_mode_point_queue}
use motoros.Interpolate.{Segment, new_pulses, increment_to}
use motoros.Interpolate.Points.{
  drop_points, Locals, group, with_group, point, put_point, is_ready_now, advance, next_locals,
  check_speeds, compensate_end, segment_of, first_locals, move_iterators, free_point,
}

-- What AddPulseIncPointToQ comes to: TRUE, FALSE, or still waiting.
pub data Outcome : Type 0 where
  added refused waiting : Outcome

module _ (p : Platform) (beyond : CtrlGroup → JointMotionData) where
  -- What stands behind the loop over the interpolation periods.
  unfoldable pub finish_segment : ℕ → ℕ → State p → State p
  finish_segment gi prev s =
      let g = group p s gi in
      let done : CtrlGroup = put_point g prev (record (point beyond g prev) { valid = false }) in
      with_group p s gi (
        if is_motion_mode_trajectory s.ctl
        then move_iterators g.trajectory_iterator done
        else if is_motion_mode_point_queue s.ctl
        then free_point beyond prev g.trajectory_iterator done
        else done)

  -- The increments that were put into the queue, and whether the loop has come to its end.
  pub record Run : Type 0 where
    pub ended : Bool
    pub increments : List IncrementalData
    pub state : State p

  abbrev pub put_first : IncrementalData → Run → Run
  put_first d r = record r { increments = d ∷ r.increments }

  module _ (env : Environment p) where
    -- The loop of AddPulseIncPointToQ that waits for room. It has no bound of its own: `n` is the
    -- number of periods that are looked at.
    unfoldable pub wait_for_room : ℕ → ℕ → State p → Outcome × State p
    wait_for_room zero gi s =
        if leb q_size (group p s gi).inc_q.cnt then (waiting, s) else (added, s)
    wait_for_room (suc n) gi s =
        let slept = env s.ctl.interpol_period s in
        let rest = wait_for_room n gi slept in
        if leb q_size (group p s gi).inc_q.cnt
        then (if is_ready_now p slept then rest else (refused, slept))
        else (added, s)

    abbrev pub enqueue_locked : ℕ → IncrementalData → Outcome × State p → Outcome × State p
    enqueue_locked gi d (added, s) =
        let g = group p s gi in
        if p.api.sem_take s.world g.group_no
        then (added, with_group p s gi (record g { inc_q = enqueue d g.inc_q }))
        else (refused, s)
    enqueue_locked gi d (refused, s) = (refused, s)
    enqueue_locked gi d (waiting, s) = (waiting, s)

    unfoldable pub add_pulse_inc_point_to_q : ℕ → ℕ → IncrementalData → State p → Outcome × State p
    unfolding wait_for_room
    add_pulse_inc_point_to_q patience gi d s = enqueue_locked gi d (wait_for_room patience gi s)

    abbrev pub rest_if : Bool → State p → State p
    rest_if b s = if b then env s.ctl.interpol_period s else s

    -- One turn of the loop as far as the new current point.
    abbrev pub advanced : ℕ → Segment → Locals → State p → State p
    advanced gi seg l s =
        let woken = rest_if (leb 15 (l.counter + 1)) s in
        with_group p woken gi (advance p beyond woken.ctl.interpol_period seg l (group p woken gi))

    abbrev pub turn_locals : ℕ → Locals → State p → Locals
    turn_locals gi l s =
        let woken = rest_if (leb 15 (l.counter + 1)) s in
        next_locals beyond woken.ctl.interpol_period l (group p woken gi)

    abbrev pub current : ℕ → Locals → State p → JointMotionData
    current gi l s = point beyond (group p s gi) l.cur

    -- The end of a turn, by what came of the increment.
    abbrev pub settle : ℕ → Locals → State p → Outcome × State p → State p
    settle gi l before (added, s) = with_group p s gi (record (group p s gi) {
      prev_pulse_pos = new_pulses p.fpu (group p before gi) (current gi l before);
    })
    settle gi l before (refused, s) = with_group p s gi (drop_points (group p s gi))
    settle gi l before (waiting, s) = s

    abbrev pub conclude : Outcome → IncrementalData → State p → Run → Run
    conclude added d s r = put_first d r
    conclude refused d s r = r
    conclude waiting d s r = record { ended = false; increments = []; state = s }

    -- `while (cur->time < end->time && IsMotionReady())`
    unfoldable pub interpolate : ℕ → ℕ → ℕ → Segment → Locals → State p → Run
    unfolding advance add_pulse_inc_point_to_q increment_to
    interpolate zero patience gi seg l s = record { ended = false; increments = []; state = s }
    interpolate (suc n) patience gi seg l s =
        let g = group p s gi in
        let before = advanced gi seg l s in
        let d =
          increment_to p.fpu p.pulse_dtype seg.tool (group p before gi) (current gi l before) in
        let outcome = add_pulse_inc_point_to_q patience gi d before in
        let after = settle gi l before outcome in
        let rest = interpolate n patience gi seg (turn_locals gi l s) after in
        if ltb (point beyond g l.cur).time (point beyond g l.fin).time && is_ready_now p s
        then conclude outcome.0 d after rest
        else record { ended = true; increments = []; state = s }

    -- The work on one point, from the check of its speeds on; `n` bounds the turns of the loop.
    unfoldable pub process_point : ℕ → ℕ → ℕ → ℕ → ℕ → State p → Run
    unfolding check_speeds compensate_end segment_of interpolate finish_segment
    process_point n patience gi prev it s =
        let g = group p s gi in
        let checked = check_speeds p beyond g.num_axes 0 it g in
        let start = point beyond checked prev in
        let prepared = compensate_end p beyond it checked in
        let r =
          interpolate n patience gi (segment_of p beyond start it prepared)
            (first_locals s.ctl.interpol_period prev it start.time prepared)
            (with_group p s gi prepared) in
        if r.ended then record r { state = finish_segment gi prev r.state } else r

    abbrev pub is_valid_point : CtrlGroup → Option ℕ → Bool
    is_valid_point g none = false
    is_valid_point g (some it) = (point beyond g it).valid

    abbrev pub index_or : Option ℕ → ℕ
    index_or none = 0
    index_or (some i) = i

    abbrev slept : Run → Run
    slept r = if r.ended then record r { state = env r.state.ctl.interpol_period r.state } else r

    abbrev without_increments : State p → Run
    without_increments s = record { ended = true; increments = []; state = s }

    -- One turn of the endless loop. The two iterators are set together, so that neither is read
    -- where it is NULL.
    unfoldable pub add_to_inc_queue_process : ℕ → ℕ → ℕ → State p → Run
    unfolding process_point
    add_to_inc_queue_process n patience gi s =
        let g = group p s gi in
        let it = g.trajectory_iterator in
        if s.ctl.all_groups_init_complete
        then (if g.has_data_to_process && is_valid_point g it
            then (if s.ctl.stop_motion
                then without_increments (with_group p s gi (drop_points g))
                else slept (
                    process_point n patience gi (index_or g.prev_trajectory_iterator) (index_or it)
                      s))
            else slept (
                without_increments (
                  if is_motion_mode_trajectory s.ctl
                  then with_group p s gi (drop_points g)
                  else s)))
        else slept (without_increments s)
