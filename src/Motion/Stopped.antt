-- ===== src/Motion/Stopped.antt =====
-- What stopping motion leaves behind (Ros_MotionControl_StopMotion of src/MotionControl.c).
use motoros.Prelude.{
  ◌⊎◌, inl, ℕ, zero, suc, ◌≡◌, refl, ◌∙◌, Bool, true, false, some, List, [], ◌∷◌, get_elem?, arith,
  inl,
}
use motoros.Data.{CtrlGroup}
use motoros.Platform.{Platform, World, State, Environment}
use motoros.Controller.Update.{clear_group, clear_groups, clear_q_all}
use motoros.Controller.Cleared.{IsCleared, clear_groups-IsCleared}
use motoros.Motion.Stop.{
  has_data_to_process, with_ctl, hold, wait_stopped, motion_stop_timeout, stop_motion,
}

module _ (p : Platform) (env : Environment p) where
  -- The state in which StopMotion waits, and the state after the wait.
  abbrev pub stopping : State p → State p
  stopping s = hold p (with_ctl p s (record s.ctl { stop_motion = true })) true

  abbrev pub waited : State p → Bool × State p
  waited s = wait_stopped p env motion_stop_timeout (stopping s)

  wait_stopped-no_data :
      (n : ℕ) (s : State p)
      → ((wait_stopped p env n s).0 ≡ false)
        ⊎ (has_data_to_process (wait_stopped p env n s).1.ctl.groups ≡ false)
  unfolding wait_stopped
  wait_stopped-no_data zero s = inl refl
  wait_stopped-no_data (suc n) s = ground (arith, wait_stopped-no_data n (env 1 s))

  -- After StopMotion no group has points to break up, every queue that could be locked when the
  -- queues were cleared is empty, and increments may be moved again. The answer is that of the
  -- wait: TRUE only if no group had points left at its end.
  pub stop_motion-IsCleared :
      (keep_job_running : Bool) (s : State p)
      → let r = stop_motion p env keep_job_running s in
        IsCleared p (waited s).1.world r.1.ctl.groups
        × (r.1.ctl.stop_motion ≡ false)
        × (r.0 ≡ (waited s).0)
        × ((r.0 ≡ false) ⊎ (has_data_to_process (waited s).1.ctl.groups ≡ false))
  unfolding stop_motion clear_q_all
  stop_motion-IsCleared true s = (
    clear_groups-IsCleared p (waited s).1.world (waited s).1.ctl.groups,
    refl,
    refl,
    wait_stopped-no_data motion_stop_timeout (stopping s),
  )
  stop_motion-IsCleared false s = (
    clear_groups-IsCleared p (waited s).1.world (waited s).1.ctl.groups,
    refl,
    refl,
    wait_stopped-no_data motion_stop_timeout (stopping s),
  )

  clear_groups-get_elem? :
      (w : World p) (gs : List CtrlGroup) (i : ℕ) (g : CtrlGroup)
      → get_elem? gs i ≡ some g
      → get_elem? (clear_groups p w gs) i ≡ some (clear_group p w g)
  unfolding clear_groups
  clear_groups-get_elem? w [] i g h = cc
  clear_groups-get_elem? w (x ∷ gs) zero g h = ground arith
  clear_groups-get_elem? w (x ∷ gs) (suc i) g h = clear_groups-get_elem? w gs i g h

  locked_group :
      (w : World p) (g : CtrlGroup)
      → p.api.sem_take w g.group_no ≡ false
      → some (clear_group p w g) ≡ some (record g { has_data_to_process = false })
  unfolding clear_group
  locked_group w g h = rw h refl

  waited_at_once :
      (s : State p) → has_data_to_process s.ctl.groups ≡ false → waited s ≡ (true, stopping s)
  unfolding wait_stopped
  waited_at_once s h = rw h refl

  -- If no group has points left and the queue of a group cannot be locked, StopMotion answers TRUE
  -- and the group's queue is what it was, with all its increments, while increments may be moved
  -- again.
  stop_motion_keeps_locked :
      (keep_job_running : Bool) (s : State p) (i : ℕ) (g : CtrlGroup)
      → has_data_to_process s.ctl.groups ≡ false
      → get_elem? s.ctl.groups i ≡ some g
      → p.api.sem_take (stopping s).world g.group_no ≡ false
      → let r = stop_motion p env keep_job_running s in
        (r.0 ≡ true)
        × (r.1.ctl.stop_motion ≡ false)
        × (get_elem? r.1.ctl.groups i ≡ some (record g { has_data_to_process = false }))
  unfolding stop_motion clear_q_all
  stop_motion_keeps_locked true s i g free found locked =
      rw (waited_at_once s free)
        (refl, refl, clear_groups-get_elem? _ s.ctl.groups i g found ∙ locked_group _ g locked)
  stop_motion_keeps_locked false s i g free found locked =
      rw (waited_at_once s free)
        (refl, refl, clear_groups-get_elem? _ s.ctl.groups i g found ∙ locked_group _ g locked)
