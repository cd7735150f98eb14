-- ===== src/Services/Answers.antt =====
-- What the services of Services.antt answer, and when.
use motoros.Prelude.{
  ℕ, zero, suc, ◌<◌, ◌≤◌, ◌⊎◌, ◌≡◌, ◌≢◌, ◌↔◌, refl, ◌∙◌, Bool, true, false, List, [], ◌∷◌, length,
  get_elem?, some, arith, Bool-cases, inl, inr, leb,
}
use motoros.Data.{CtrlGroup, Controller, inactive, trajectory, point_queue}
use motoros.Platform.{Platform, State, Environment}
use motoros.Controller.{
  ready, not_ready_alarm, not_ready_error, not_ready_not_remote, is_remote, is_alarm, is_error,
  get_not_ready_subcode, has_data_in_queue, truthy, is_motion_mode_trajectory,
  is_motion_mode_point_queue, MotionNotReadyCode,
}
use motoros.Controller.Update.{reset_pfl_during_ros_move, reset_mp_inc_move_error}
use motoros.Controller.Cleared.{IsCleared}
use motoros.Motion.Stop.{with_ctl, stop_motion, stop_traj_mode, has_data_to_process}
use motoros.Motion.Stopped.{waited, stop_motion-IsCleared}
use motoros.Motion.Mode.{start_motion_mode}
use motoros.Services.{
  start_refused, set_tool, select_motion_tool, start_traj_mode_trigger,
  start_point_queue_mode_trigger, stop_traj_mode_trigger, reset_alarm, reset_error_trigger,
}

start_refused-not_ready :
    (code : MotionNotReadyCode) (other : Bool) → (start_refused code other).result_code ≢ ready
start_refused-not_ready code other = ground arith

set_tool-get_elem? :
    (gs : List CtrlGroup) (k tool i : ℕ)
    → k < length gs
    → ((i ≢ k) × (get_elem? (set_tool gs k tool) i ≡ get_elem? gs i))
      ⊎ ((i ≡ k)
          × (g : CtrlGroup) × (get_elem? gs i ≡ some g)
          × (get_elem? (set_tool gs k tool) i ≡ some (record g { tool = tool })))
unfolding set_tool
set_tool-get_elem? (g ∷ gs) zero tool zero h = inr (refl, g, refl, refl)
set_tool-get_elem? (g ∷ gs) zero tool (suc i) h = inl (ground arith, refl)
set_tool-get_elem? (g ∷ gs) (suc k) tool zero h = inl (ground arith, refl)
set_tool-get_elem? (g ∷ gs) (suc k) tool (suc i) h =
    elim (set_tool-get_elem? gs k tool i (ground arith)) [
      | inl x ↦ inl (ground arith, x.1)
      | inr (e, g, f, t) ↦ inr (ground arith, g, f, t)
    ]
set_tool-get_elem? [] k tool i h = ground arith

-- What becomes of group `i` when group `k` gets another tool: only that group changes, and only in
-- its tool.
abbrev pub IsToolChange : Controller → Controller → ℕ → ℕ → ℕ → Type 0
IsToolChange c c' k tool i =
    ((i ≢ k) × (get_elem? c'.groups i ≡ get_elem? c.groups i))
    ⊎ ((i ≡ k)
        × (g : CtrlGroup) × (get_elem? c.groups i ≡ some g)
        × (get_elem? c'.groups i ≡ some (record g { tool = tool })))

-- A tool is selected in REMOTE, for a group that exists and a tool number below 63, and then group
-- `i` changes only if it is the one named, and only in its tool. In all other cases the answer is a
-- refusal and the controller is what it was: tool 63, which the constant calls valid, is refused.
pub select_motion_tool-cases :
    (c : Controller) (group_number tool_number i : ℕ)
    → let r = select_motion_tool c group_number tool_number in
      ((r.0.success ≡ true)
        × (is_remote c ≡ true)
        × (group_number < length c.groups)
        × (tool_number < 63)
        × IsToolChange c r.1 group_number tool_number i)
      ⊎ ((r.0.success ≡ false)
          × (r.1 ≡ c)
          × ((is_remote c ≡ false) ⊎ ((length c.groups ≤ group_number) ⊎ (63 ≤ tool_number))))
unfolding select_motion_tool
select_motion_tool-cases c k tool i = elim (Bool-cases (is_remote c)) [
  | inr other ↦ rw other (inr (refl, refl, inl refl))
  | inl remote ↦ elim (Bool-cases (leb (length c.groups) k)) [
    | inl far ↦ rw (remote, far) (inr (refl, refl, inr (inl (ground arith))))
    | inr near ↦ elim (Bool-cases (leb 63 tool)) [
      | inl large ↦ rw (remote, near, large) (inr (refl, refl, inr (inr (ground arith))))
      | inr small ↦
          let l : k < length c.groups = ground arith in
          rw (remote, near, small)
            (inl (refl, refl, l, ground arith, set_tool-get_elem? c.groups k tool i l))
    ]
  ]
]

module _ (p : Platform) (env : Environment p) (s : State p) where
  -- Both services that start a mode answer MOTION_READY exactly when the start succeeded, and they
  -- leave the state that the start left.
  start_triggers-ready :
      let t = start_traj_mode_trigger p env s in
      let q = start_point_queue_mode_trigger p env s in
      ((t.0.result_code ≡ ready) ↔ ((start_motion_mode p env trajectory s).0 ≡ true))
      × (t.1 ≡ (start_motion_mode p env trajectory s).1)
      × ((q.0.result_code ≡ ready) ↔ ((start_motion_mode p env point_queue s).0 ≡ true))
      × (q.1 ≡ (start_motion_mode p env point_queue s).1)
  unfolding start_traj_mode_trigger start_point_queue_mode_trigger
  start_triggers-ready =
      let t = (start_motion_mode p env trajectory s).1 in
      let q = (start_motion_mode p env point_queue s).1 in
      ground (
        arith,
        start_refused-not_ready (get_not_ready_subcode p t.ctl t.world)
            (is_motion_mode_point_queue t.ctl),
        start_refused-not_ready (get_not_ready_subcode p q.ctl q.world)
            (is_motion_mode_trajectory q.ctl),
      )

  -- If stopping the mode succeeds, no increments were counted before, no group had points left when
  -- the wait ended, the mode is inactive, and every queue that could be locked is empty.
  -- If increments were counted, the service refuses and leaves the state as it is.
  pub stop_traj_mode_trigger-cases :
      let r = stop_traj_mode_trigger p env s in
      ((r.0.success ≡ true)
        × (truthy (has_data_in_queue p s.ctl s.world) ≡ false)
        × (has_data_to_process (waited p env s).1.ctl.groups ≡ false)
        × (r.1.ctl.active_motion_mode ≡ inactive)
        × (r.1.ctl.all_groups_init_complete ≡ false)
        × (r.1.ctl.stop_motion ≡ false)
        × IsCleared p (waited p env s).1.world r.1.ctl.groups)
      ⊎ ((r.0.success ≡ false)
          × (((truthy (has_data_in_queue p s.ctl s.world) ≡ true) × (r.1 ≡ s))
              ⊎ ((truthy (has_data_in_queue p s.ctl s.world) ≡ false)
                  × ((waited p env s).0 ≡ false)
                  × (r.1 ≡ (stop_motion p env false s).1))))
  unfolding stop_traj_mode_trigger stop_traj_mode
  stop_traj_mode_trigger-cases =
      let facts = stop_motion-IsCleared p env false s in
      elim (Bool-cases (truthy (has_data_in_queue p s.ctl s.world))) [
        | inl busy ↦ rw busy (inr (refl, inl (refl, refl)))
        | inr free ↦ elim (Bool-cases (waited p env s).0) [
          | inr late ↦ rw (free, facts.2 ∙ late) (inr (refl, inr (refl, late, refl)))
          | inl done ↦
              let left : has_data_to_process (waited p env s).1.ctl.groups ≡ false =
                ground (arith, facts.2, facts.3, done) in
              rw (free, facts.2 ∙ done) (inl (refl, refl, left, refl, refl, facts.1, facts.0))
        ]
      ]

  reset_alarm-cases :
      (u : State p)
      → let r = reset_alarm p env u in
        ((r.0.result_code ≡ ready) × (is_alarm r.1.ctl ≡ false))
        ⊎ ((r.0.result_code ≡ not_ready_alarm) × (is_alarm r.1.ctl ≡ true))
  unfolding reset_alarm
  reset_alarm-cases u = ground arith

  -- The answer to a reset is READY with no alarm left; or ALARM, with the alarm still there; or
  -- ERROR, if the error could not be cancelled, with the two internal error flags reset; or, out of
  -- REMOTE, NOT_REMOTE, and then the state is what it was. It is never another code.
  pub reset_error_trigger-cases :
      let r = reset_error_trigger p env s in
      ((r.0.result_code ≡ ready) × (is_remote s.ctl ≡ true) × (is_alarm r.1.ctl ≡ false))
      ⊎ (((r.0.result_code ≡ not_ready_alarm)
            × (is_remote s.ctl ≡ true)
            × (is_alarm r.1.ctl ≡ true))
          ⊎ (((r.0.result_code ≡ not_ready_error)
                × (is_remote s.ctl ≡ true)
                × (is_error s.ctl ≡ true)
                × (r.1.ctl.mp_inc_move_error ≡ false)
                × (r.1.ctl.pfl_during_ros_move ≡ false))
              ⊎ ((r.0.result_code ≡ not_ready_not_remote) × (is_remote s.ctl ≡ false) × (r.1 ≡ s))))
  unfolding reset_error_trigger reset_pfl_during_ros_move reset_mp_inc_move_error is_error
  reset_error_trigger-cases =
      let u = with_ctl p s (reset_mp_inc_move_error (reset_pfl_during_ros_move s.ctl)) in
      let v : State p = record u { world = (p.api.cancel_error u.world).1 } in
      ground (arith, reset_alarm-cases u, reset_alarm-cases v)
