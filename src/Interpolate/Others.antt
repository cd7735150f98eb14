-- ===== src/Interpolate/Others.antt =====
-- What other tasks do while Ros_MotionControl_AddToIncQueueProcess (src/MotionControl.c) sleeps or
-- waits for room in the queue of its group.
use motoros.Prelude.{
  ℕ, zero, suc, ◌<◌, ◌≤◌, ◌≡◌, ◌≢◌, refl, ap, ◌∙◌, Bool, true, false, ◌⊎◌, inl, inr, arith, length,
  length-set, get_or-set_self, leb, Bool-cases,
}
use motoros.Data.{JointMotionData, IncrementalData, CtrlGroup, q_size}
use motoros.Platform.{Platform, State, Environment}
use motoros.Interpolate.Points.{no_group, group, with_group, is_ready_now}
use motoros.Interpolate.Plan.{part}
use motoros.Interpolate.Task.{
  Outcome, added, refused, waiting, wait_for_room, enqueue_locked, add_pulse_inc_point_to_q,
  rest_if,
}

module _ (p : Platform) (gi : ℕ) where
  -- What the other tasks leave as it is
  pub record Keeps (s s' : State p) : Type 0 where
    pub same_part : part (group p s' gi) ≡ part (group p s gi)
    pub same_period : s'.ctl.interpol_period ≡ s.ctl.interpol_period
    pub same_count : length s'.ctl.groups ≡ length s.ctl.groups

  pub Keeps-refl : (s : State p) → Keeps s s
  Keeps-refl s = record { same_part = refl; same_period = refl; same_count = refl }

  pub Keeps-trans : (s t u : State p) → Keeps s t → Keeps t u → Keeps s u
  Keeps-trans s t u h k = record {
    same_part = k.same_part ∙ h.same_part;
    same_period = k.same_period ∙ h.same_period;
    same_count = k.same_count ∙ h.same_count;
  }

  pub part-with_group :
      (s : State p) (g : CtrlGroup)
      → gi < length s.ctl.groups
      → part (group p (with_group p s gi g) gi) ≡ part g
  part-with_group s g h = ap part (get_or-set_self s.ctl.groups gi g no_group h)

  with_group-Keeps :
      (s : State p) (g : CtrlGroup)
      → gi < length s.ctl.groups
      → part g ≡ part (group p s gi)
      → Keeps s (with_group p s gi g)
  with_group-Keeps s g h e = record {
    same_part = part-with_group s g h ∙ e;
    same_period = refl;
    same_count = length-set s.ctl.groups gi g;
  }

  module _ (beyond : CtrlGroup → JointMotionData) (env : Environment p)
      (leaves : (ms : ℕ) (s : State p) → Keeps s (env ms s)) where
    abbrev IsFair : State p → Outcome × State p → Type 0
    IsFair s r = Keeps s r.1 × ((r.0 ≢ waiting) ⊎ (q_size ≤ (group p r.1 gi).inc_q.cnt))

    wait_for_room-IsFair : (n : ℕ) (s : State p) → IsFair s (wait_for_room p beyond env n gi s)
    unfolding wait_for_room
    wait_for_room-IsFair zero s = elim (Bool-cases (leb q_size (group p s gi).inc_q.cnt)) [
      | inl full ↦ rw full (Keeps-refl s, inr (ground arith))
      | inr room ↦ rw room (Keeps-refl s, inl (λ e. cc))
    ]
    wait_for_room-IsFair (suc n) s =
        let slept = env s.ctl.interpol_period s in
        elim (Bool-cases (leb q_size (group p s gi).inc_q.cnt)) [
          | inr room ↦ rw room (Keeps-refl s, inl (λ e. cc))
          | inl full ↦ elim (Bool-cases (is_ready_now p slept)) [
            | inr stopped ↦ rw (full, stopped) (leaves _ s, inl (λ e. cc))
            | inl ready ↦
                let (kept, more) = wait_for_room-IsFair n slept in
                rw (full, ready) (Keeps-trans s slept _ (leaves _ s) kept, more)
          ]
        ]

    enqueue_locked-IsFair :
        (s : State p) (d : IncrementalData) (r : Outcome × State p)
        → gi < length s.ctl.groups
        → IsFair s r
        → IsFair s (enqueue_locked p beyond env gi d r)
    enqueue_locked-IsFair s d (added, t) h (kept, w) =
        elim (Bool-cases (p.api.sem_take t.world (group p t gi).group_no)) [
          | inl locked ↦ rw locked (
            Keeps-trans s t _ kept (with_group-Keeps t _ (omega (arith, kept.same_count)) refl),
            inl (λ e. cc),
          )
          | inr busy ↦ rw busy (kept, inl (λ e. cc))
        ]
    enqueue_locked-IsFair s d (refused, t) h f = f
    enqueue_locked-IsFair s d (waiting, t) h f = f

    -- The queue is still full if the increment is still waiting, and the group keeps its part.
    pub add_to_q-IsFair :
        (patience : ℕ) (d : IncrementalData) (s : State p)
        → gi < length s.ctl.groups
        → IsFair s (add_pulse_inc_point_to_q p beyond env patience gi d s)
    unfolding add_pulse_inc_point_to_q
    add_to_q-IsFair patience d s h = enqueue_locked-IsFair s d _ h (wait_for_room-IsFair patience s)

    pub rest_if-Keeps : (b : Bool) (s : State p) → Keeps s (rest_if p beyond env b s)
    rest_if-Keeps true s = leaves _ s
    rest_if-Keeps false s = Keeps-refl s
