-- ===== src/IncMove/Pass.antt =====
-- What one pass of the loop does with the pulses of a group, from its queue to the move
-- (Ros_MotionControl_IncMoveLoopStart of src/MotionControl.c).
use motoros.Prelude.{
  ℕ, zero, suc, true, not, ◌&&◌, some, get_elem?, ◌≡◌, refl, ap, sym, ◌∙◌, ℤ, pos, ◌+ℤ◌, +ℤ_assoc,
  +ℤ-zero, Bool, false, List, [], ◌∷◌, map, length, get_or, arith, Bool-cases, inl, inr,
}
use motoros.Data.{CtrlGroup, IncrementalData}
use motoros.MotoPlus.{GroupMove}
use motoros.Platform.{Platform, World, State, Environment}
use motoros.Queue.{add_pulses, take_increment}
use motoros.Queue.Contents.{IsRing, contents}
use motoros.Queue.Increment.{cycle, merge, take_increment-cycle}
use motoros.Queue.Pulses.{
  pulses, AllAxes, pulses-cycle, get_or-add_pulses, length-add_pulses, get_or-zeros,
}
use motoros.IncMove.{Axis, limit_group}
use motoros.IncMove.Accounts.{balance, after-balance, length-after}
use motoros.IncMove.Cycle.{
  Track, Loop, read_group, limit_track, position, no_pulses, without_pulses, move_groups, moves,
  may_move, send, after_move,
}
use motoros.IncMove.Cycle
use motoros.Motion.Stop.{with_ctl}

-- What a group holds of one axis: the position that the controller reported last, the pulses still
-- to process, and those in the queue.
abbrev pub holds : ℕ → CtrlGroup → Track → ℤ
holds axis g t = get_or (map balance t.axes) axis (pos 0) +ℤ pulses axis (contents g.inc_q)

-- The queue is well formed, and there is a pulse for each of the eight axes everywhere.
pub record IsComplete (g : CtrlGroup) (t : Track) (reported_pos : List ℤ) : Type 0 where
  pub ring : IsRing g.inc_q
  pub all_axes : AllAxes (contents g.inc_q)
  pub tracked : length t.axes ≡ 8
  pub reported : length reported_pos ≡ 8

length-balances : (axes : List Axis) → length (map balance axes) ≡ length axes
length-balances [] = refl
length-balances (a ∷ axes) = ap suc (length-balances axes)

length-merge :
    (period q_time t : ℕ) (g : GroupMove) (ds : List IncrementalData)
    → length g.pos ≡ 8
    → length (merge period q_time g t ds).move.pos ≡ 8
unfolding merge
length-merge period q_time t g [] h = h
length-merge period q_time t g (d ∷ ds) h = ground (
  arith,
  length-merge period q_time d.time (record g { pos = add_pulses g.pos d.inc }) ds
      (length-add_pulses g.pos d.inc ∙ h),
)

length-cycle :
    (dtype period q_time : ℕ) (ds : List IncrementalData)
    → AllAxes ds
    → length (cycle dtype period q_time ds).move.pos ≡ 8
unfolding cycle
length-cycle dtype period q_time [] h = refl
length-cycle dtype period q_time (d ∷ ds) h =
    length-merge period q_time d.time
      (record { tool = d.tool; frame = d.frame; user = d.user; pos = d.inc }) ds h.0

module _ (p : Platform) (period : ℕ) (w : World p) (axis : ℕ) (g : CtrlGroup) (t : Track) where
  limited_holds :
      (b : Bool) (zs : List ℤ)
      → length zs ≡ 8
      → IsComplete g t (position p w g)
      → get_or (map balance (limit_group b zs (position p w g) t.axes).axes) axis (pos 0)
        ≡ get_or (map balance t.axes) axis (pos 0) +ℤ get_or zs axis (pos 0)
  limited_holds b zs h c =
      ap (λ bs. get_or bs axis (pos 0))
        (after-balance (record { queue_read = b; pulses = zs; position = position p w g }) t.axes
          (h ∙ sym c.tracked) (c.reported ∙ sym c.tracked))
      ∙ get_or-add_pulses (map balance t.axes) zs axis (length-balances t.axes ∙ c.tracked ∙ sym h)

  limited_length :
      (b : Bool) (zs : List ℤ)
      → length (limit_group b zs (position p w g) t.axes).axes ≡ length t.axes
  limited_length b zs =
      length-after (record { queue_read = b; pulses = zs; position = position p w g }) t.axes

  -- Without new pulses an axis keeps its account.
  unread_holds :
      IsComplete g t (position p w g)
      → get_or (map balance (limit_group false no_pulses (position p w g) t.axes).axes) axis (pos 0)
        ≡ get_or (map balance t.axes) axis (pos 0)
  unread_holds c =
      limited_holds false no_pulses refl c
      ∙ rw (get_or-zeros 8 axis) (+ℤ-zero (get_or (map balance t.axes) axis (pos 0)))

  untouched :
      IsComplete g t (position p w g)
      → let r = (limit_track p w g (without_pulses t)).1 in
        IsComplete g r (position p w g) × (holds axis g r ≡ holds axis g t)
  untouched c = (
    record {
      ring = c.ring;
      all_axes = c.all_axes;
      tracked = limited_length false no_pulses ∙ c.tracked;
      reported = c.reported;
    },
    ap (λ x. x +ℤ pulses axis (contents g.inc_q)) (unread_holds c),
  )

  -- What both loops over the groups do with one group
  pass-holds :
      IsComplete g t (position p w g)
      → let (g', t') = read_group p period w g t in
        let r = (limit_track p w g' t').1 in
        IsComplete g' r (position p w g') × (holds axis g' r ≡ holds axis g t)
  unfolding read_group
  pass-holds c =
      let q = take_increment p.pulse_dtype period g.q_time g.inc_q in
      let taken = take_increment-cycle p.pulse_dtype period g.q_time g.inc_q c.ring in
      let spec = cycle p.pulse_dtype period g.q_time (contents g.inc_q) in
      let kept = pulses-cycle axis p.pulse_dtype period g.q_time (contents g.inc_q) c.all_axes in
      let rest : contents q.queue ≡ spec.rest = ap (λ x. x.rest) taken.2 in
      let move : q.move ≡ spec.move = ap (λ x. x.move) taken.2 in
      let wide : length q.move.pos ≡ 8 =
        rw move (length-cycle p.pulse_dtype period g.q_time (contents g.inc_q) c.all_axes) in
      let split : pulses axis (contents g.inc_q)
          ≡ get_or q.move.pos axis (pos 0) +ℤ pulses axis (contents q.queue) =
        rw (move, rest) kept.1 in
      elim (Bool-cases t.skip_reading) [
        | inl skipped ↦ rw skipped (untouched c)
        | inr read ↦ elim (Bool-cases (p.api.sem_take w g.group_no)) [
          | inr locked ↦ rw (read, locked) (untouched c)
          | inl free ↦
              rw (read, free)
                (
                  record {
                    ring = taken.0;
                    all_axes = rw rest kept.0;
                    tracked = limited_length q.queue_read q.move.pos ∙ c.tracked;
                    reported = c.reported;
                  },
                  ap (λ x. x +ℤ pulses axis (contents q.queue))
                        (limited_holds q.queue_read q.move.pos wide c)
                      ∙ +ℤ_assoc (get_or (map balance t.axes) axis (pos 0))
                          (get_or q.move.pos axis (pos 0)) (pulses axis (contents q.queue))
                      ∙ ap (λ x. get_or (map balance t.axes) axis (pos 0) +ℤ x) (sym split),
                )
        ]
      ]

pub record IsKept (p : Platform) (w : World p) (axis : ℕ) (g : CtrlGroup) (t : Track)
    (gs : List CtrlGroup) (ts : List Track) (j : ℕ) : Type 0 where
  pub group_after : CtrlGroup
  pub track_after : Track
  pub group_at : get_elem? gs j ≡ some group_after
  pub track_at : get_elem? ts j ≡ some track_after
  pub complete : IsComplete group_after track_after (position p w group_after)
  pub kept : holds axis group_after track_after ≡ holds axis g t

module _ (p : Platform) (w : World p) (axis : ℕ) where
  IsKept-later :
      {g g' : CtrlGroup} {t t' : Track} {gs : List CtrlGroup} {ts : List Track} {j : ℕ}
      → IsKept p w axis g t gs ts j
      → IsKept p w axis g t (g' ∷ gs) (t' ∷ ts) (suc j)
  IsKept-later k = record {
    group_after = k.group_after;
    track_after = k.track_after;
    group_at = k.group_at;
    track_at = k.track_at;
    complete = k.complete;
    kept = k.kept;
  }

  move_groups-IsKept :
      (period : ℕ) (gs : List CtrlGroup) (ts : List Track) (j : ℕ) (g : CtrlGroup) (t : Track)
      → get_elem? gs j ≡ some g
      → get_elem? ts j ≡ some t
      → IsComplete g t (position p w g)
      → let r = move_groups p period w gs ts in IsKept p w axis g t r.1 r.2 j
  unfolding move_groups
  move_groups-IsKept period [] ts j g t at there c = absurd (cc at)
  move_groups-IsKept period (h ∷ gs) [] j g t at there c = absurd (cc there)
  move_groups-IsKept period (h ∷ gs) (u ∷ ts) zero g t at there c =
      let same : h ≡ g = cc at in
      let same_track : u ≡ t = cc there in
      let (complete, kept) = pass-holds p period w axis g t c in
      rw (same, same_track)
        (record {
          group_after = (read_group p period w g t).0;
          track_after =
              (limit_track p w (read_group p period w g t).0 (read_group p period w g t).1).1;
          group_at = refl;
          track_at = refl;
          complete = complete;
          kept = kept;
        })
  move_groups-IsKept period (h ∷ gs) (u ∷ ts) (suc j) g t at there c =
      IsKept-later (move_groups-IsKept period gs ts j g t at there c)

module _ (p : Platform) (env : Environment p) (link : Bool) (l : Loop) (s : State p) where
  -- The moves of a pass in which motion may be made
  abbrev pub moved : Bool × List CtrlGroup × List Track
  moved = move_groups p s.ctl.interpol_period s.world s.ctl.groups l.tracks

  sent-groups :
      (ms : List GroupMove) (t : State p)
      → (p.api.inc_move t.world ms).0 ≡ pos 0
      → (send p env link ms t).ctl.groups ≡ t.ctl.groups
  unfolding send after_move
  sent-groups ms t done = elim (Bool-cases (not t.ctl.stop_motion && link)) [
    | inl sends ↦ rw (sends, done) refl
    | inr waits ↦ rw waits refl
  ]

  -- A pass of the motion loop in which motion may be made, and whose move the controller accepts,
  -- keeps what each group holds of each axis (the position last reported, the pulses still
  -- to process and those in the queue), if its queue is well formed and there is a pulse for each
  -- of the eight axes; these conditions hold again afterwards. So it is whether the queue of the
  -- group is read, skipped or locked, and whatever the speed limit cuts off.
  pub cycle-holds :
      (axis j : ℕ) (g : CtrlGroup) (t : Track)
      → may_move p env l s ≡ true
      → (p.api.inc_move s.world (moves p moved.2)).0 ≡ pos 0
      → get_elem? s.ctl.groups j ≡ some g
      → get_elem? l.tracks j ≡ some t
      → IsComplete g t (position p s.world g)
      → let (l', s') = Cycle.cycle p env link l s in
        IsKept p s.world axis g t s'.ctl.groups l'.tracks j
  unfolding Cycle.cycle
  cycle-holds axis j g t may done at there c =
      let kept =
        move_groups-IsKept p s.world axis s.ctl.interpol_period s.ctl.groups l.tracks j g t at there
          c in
      rw
        (may, sent-groups (moves p moved.2) (with_ctl p s (record s.ctl { groups = moved.1 })) done)
        kept
