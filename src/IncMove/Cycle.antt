-- ===== src/IncMove/Cycle.antt =====
-- One pass of the endless loop of Ros_MotionControl_IncMoveLoopStart (src/MotionControl.c), after
-- the announcement of the interpolation clock. The mask of the groups and the axis configuration
-- of the tags are set before the loop and never change; the feedback to the action server is left
-- out.
use motoros.Prelude.{
  ℕ, zero, suc, ℤ, pos, Bool, true, false, not, ◌&&◌, ◌||◌, List, ◌∷◌, map, eqb_ℤ, replicate,
  if◌then◌else◌,
}
use motoros.Data.{CtrlGroup, grp_axes_num}
use motoros.MotoPlus.{GroupMove}
use motoros.Platform.{Platform, World, State, Environment}
use motoros.Queue.{take_increment}
use motoros.Controller.{
  is_motion_ready, has_data_in_queue, truthy, is_estop, is_hold, is_alarm, is_error,
}
use motoros.Motion.Stop.{with_ctl, stop_motion}
use motoros.Motion.Mode.{update, checks, check_period}
use motoros.IncMove.{Axis, limit_group}

-- What the loop keeps for one group.
pub record Track : Type 0 where
  pub skip_reading : Bool
  pub queue_read : Bool
  pub move : GroupMove
  pub axes : List Axis

-- What the loop keeps from pass to pass.
pub record Loop : Type 0 where
  pub tracks : List Track
  pub has_unprocessed_data : Bool

abbrev pub no_pulses : List ℤ
no_pulses = replicate grp_axes_num (pos 0)

abbrev pub without_pulses : Track → Track
without_pulses t = record t {
  skip_reading = false;
  queue_read = false;
  move = record t.move { pos = no_pulses };
}

abbrev pub sent_pulses : List Axis → List ℤ
sent_pulses axes = map (λ a. a.sent) axes

module _ (p : Platform) where
  -- The first loop over the groups: the queue of one group is read.
  unfoldable pub read_group : ℕ → World p → CtrlGroup → Track → CtrlGroup × Track
  read_group period w g t =
      let taken = take_increment p.pulse_dtype period g.q_time g.inc_q in
      if t.skip_reading
      then (g, without_pulses t)
      else if p.api.sem_take w g.group_no
      then (
        record g { inc_q = taken.queue; q_time = taken.q_time },
        record t { queue_read = taken.queue_read; move = taken.move },
      )
      else (g, without_pulses t)

  abbrev pub position : World p → CtrlGroup → List ℤ
  position w g = (p.api.get_pulse_pos w g.group_id).1

  abbrev pub limit_track : World p → CtrlGroup → Track → Bool × Track
  limit_track w g t =
      let r = limit_group t.queue_read t.move.pos (position w g) t.axes in
      (
        r.unprocessed,
        record t {
          skip_reading = r.skip_reading;
          axes = r.axes;
          move = record t.move { pos = sent_pulses r.axes };
        },
      )

  -- Both loops over the groups, which do not depend on each other.
  unfoldable pub move_groups :
      ℕ → World p → List CtrlGroup → List Track → Bool × List CtrlGroup × List Track
  unfolding read_group
  move_groups period w (g ∷ gs) (t ∷ ts) =
      let (g', t') = read_group period w g t in
      let (left, t'') = limit_track w g' t' in
      let (rest, gs', ts') = move_groups period w gs ts in (left || rest, g' ∷ gs', t'' ∷ ts')
  move_groups period w gs ts = (false, gs, ts)

  abbrev pub moves : List Track → List GroupMove
  moves ts = map (λ t. t.move) ts

  -- The branch in which nothing is moved: what is left to send is forgotten.
  abbrev pub forget : ℤ → Axis → Axis
  forget x a = record a { to_process = pos 0; prev_pos = x }

  unfoldable pub forget_all : List ℤ → List Axis → List Axis
  forget_all (x ∷ xs) (a ∷ axes) = forget x a ∷ forget_all xs axes
  forget_all _ axes = axes

  unfoldable pub reset_tracks : World p → List CtrlGroup → List Track → List Track
  unfolding forget_all
  reset_tracks w (g ∷ gs) (t ∷ ts) =
      record t { axes = forget_all (position w g) t.axes } ∷ reset_tracks w gs ts
  reset_tracks w gs ts = ts

  module _ (env : Environment p) where
    -- The move is sent again until the servos are on.
    unfoldable pub retry : ℕ → List GroupMove → State p → ℤ × State p
    retry zero ms s = (p.e_under_energy_saving, s)
    retry (suc n) ms s =
        let (ret, w) = p.api.inc_move s.world ms in
        let rest = retry n ms (env check_period (record s { world = w })) in
        if eqb_ℤ ret p.e_under_energy_saving then rest else (ret, record s { world = w })

    abbrev pfl_during : State p → State p
    pfl_during s = with_ctl p s (record s.ctl { pfl_during_ros_move = true })

    -- The chain of tests on the answer of a move that was rejected.
    unfoldable pub diagnose : ℤ → List GroupMove → State p → ℤ × State p
    diagnose ret ms s =
        if eqb_ℤ ret p.e_ctrl_grp
        then (ret, s)
        else if eqb_ℤ ret p.e_imov_unready && s.ctl.pfl_enabled
        then (
          ret,
          (if not (is_estop s.ctl)
                && not (is_hold s.ctl)
                && not (is_alarm s.ctl)
                && not (is_error s.ctl)
              then pfl_during s
              else s),
        )
        else if eqb_ℤ ret p.e_pfl_func_busy && s.ctl.pfl_enabled
        then (ret, pfl_during s)
        else if eqb_ℤ ret p.e_under_energy_saving
        then retry checks ms s
        else (ret, s)

    -- Motion is stopped if the move was rejected for good.
    unfoldable pub after_move : ℤ → List GroupMove → State p → State p
    unfolding diagnose
    after_move ret ms s =
        if eqb_ℤ ret (pos 0)
        then s
        else (let (ret', s') = diagnose ret ms (update p s) in
            if eqb_ℤ ret' (pos 0)
            then s'
            else (stop_motion p env false
                (with_ctl p s' (record s'.ctl { mp_inc_move_error = true }))).1)

    -- The second argument says that the agent is connected or need not be.
    unfoldable pub send : Bool → List GroupMove → State p → State p
    unfolding after_move
    send link ms s =
        if not s.ctl.stop_motion && link
        then (let (ret, w) = p.api.inc_move s.world ms in
            after_move ret ms (record s { world = w }))
        else s

    abbrev pub may_move : Loop → State p → Bool
    may_move l s =
        is_motion_ready p s.ctl s.world
        && (truthy (has_data_in_queue p s.ctl s.world) || l.has_unprocessed_data)
        && not s.ctl.stop_motion

    unfoldable pub cycle : Bool → Loop → State p → Loop × State p
    unfolding move_groups reset_tracks send
    cycle link l s =
        let (left, groups, tracks) =
          move_groups s.ctl.interpol_period s.world s.ctl.groups l.tracks in
        if may_move l s
        then (
          record { tracks = tracks; has_unprocessed_data = left },
          send link (moves tracks) (with_ctl p s (record s.ctl { groups = groups })),
        )
        else (
          record {
            tracks = reset_tracks s.world s.ctl.groups l.tracks;
            has_unprocessed_data = false;
          },
          s,
        )
