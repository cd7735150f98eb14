-- ===== src/Controller/Cleared.antt =====
-- When the cyclic update drops the motion that is queued (Ros_MotionControl_ClearQ_All of
-- src/MotionControl.c, called by Ros_Controller_IoStatusUpdate of src/ControllerStatusIO.c).
use motoros.Prelude.{
  ℕ, zero, suc, ◌+◌, ◌<◌, ◌≤◌, ◌≡◌, ◌≢◌, ◌⊎◌, sym, ◌∙◌, true, false, List, [], ◌∷◌, arith,
}
use native.Mathlib.Decide.{ℕ_discrete}
use motoros.Controller.Signals.{update_signal-io_status}
use motoros.Data.{CtrlGroup, Controller}
use motoros.Platform.{Platform, World}
use motoros.Controller.{waiting_ros, alarm_user, io_status_max}
use motoros.Controller.Update.{
  clear_group, clear_groups, clear_q_all, alarms_off, alarm_changed, waiting_changed, pfl_changed,
  react, write_signal, update_signal, update_signals, status_read, io_status_update,
}

module _ (p : Platform) (w : World p) where
  -- No group has points left to break up, and every queue that can be locked is empty.
  abbrev pub IsCleared : List CtrlGroup → Type 0
  IsCleared [] = Unit
  IsCleared (g ∷ gs) =
      (g.has_data_to_process ≡ false)
      × ((p.api.sem_take w g.group_no ≡ false) ⊎ (g.inc_q.cnt ≡ 0))
      × IsCleared gs

  -- A group after clearing: only its queue's count and the flag have changed.
  clear_group-count :
      (g : CtrlGroup)
      → ((clear_group p w g).has_data_to_process ≡ false)
        × ((p.api.sem_take w (clear_group p w g).group_no ≡ false)
            ⊎ ((clear_group p w g).inc_q.cnt ≡ 0))
  unfolding clear_group
  clear_group-count g = ground arith

  -- Clearing the queues stops every group and empties each queue that can be locked, in any state.
  pub clear_groups-IsCleared : (gs : List CtrlGroup) → IsCleared (clear_groups p w gs)
  unfolding clear_groups
  clear_groups-IsCleared [] = tt
  clear_groups-IsCleared (g ∷ gs) =
      let c = clear_group-count g in (c.0, c.1, clear_groups-IsCleared gs)

  module _ (io : ℕ → ℕ) where
    react-IsCleared :
        (i : ℕ) (c : Controller) → IsCleared c.groups → IsCleared (react p io i c w).groups
    unfolding react alarm_changed waiting_changed pfl_changed clear_q_all
    react-IsCleared i c h = ground (arith, clear_groups-IsCleared c.groups)

    update_signal-IsCleared :
        (i : ℕ) (c : Controller) → IsCleared c.groups → IsCleared (update_signal p io i c w).groups
    unfolding update_signal
    update_signal-IsCleared i c h = ground (arith, react-IsCleared i (write_signal c i (io i)) h)

    update_signals-IsCleared :
        (n i : ℕ) (c : Controller)
        → IsCleared c.groups
        → IsCleared (update_signals p io n i c w).groups
    unfolding update_signals
    update_signals-IsCleared zero i c h = h
    update_signals-IsCleared (suc n) i c h =
        update_signals-IsCleared n (i + 1) (update_signal p io i c w)
          (update_signal-IsCleared i c h)

    -- A signal that has changed to a value on which the queues are cleared.
    abbrev pub Stops : Controller → ℕ → Type 0
    Stops c j =
        (c.io_status j ≢ io j)
        × ((j ≤ alarm_user) × (alarms_off io ≡ false) ⊎ (j ≡ waiting_ros) × (io waiting_ros ≡ 0))

    update_signal-Stops :
        (j : ℕ) (c : Controller) → Stops c j → IsCleared (update_signal p io j c w).groups
    unfolding update_signal react alarm_changed waiting_changed clear_q_all
    update_signal-Stops j c h = ground (arith, clear_groups-IsCleared c.groups)

    update_signals-Stops :
        (n i j : ℕ) (c : Controller)
        → i ≤ j
        → j < i + n
        → Stops c j
        → IsCleared (update_signals p io n i c w).groups
    unfolding update_signals
    update_signals-Stops zero i j c a b h = absurd (omega arith)
    update_signals-Stops (suc n) i j c a b h = elim (ℕ_discrete i j) [
      | yes same ↦
          update_signals-IsCleared n (i + 1) (update_signal p io i c w)
            (rw same (update_signal-Stops j c h))
      | no later ↦
          let kept : (update_signal p io i c w).io_status j ≡ c.io_status j =
            ground (arith, update_signal-io_status p io w i j c) in
          update_signals-Stops n (i + 1) j (update_signal p io i c w) (omega arith) (omega arith)
            (λ e. h.0 (sym kept ∙ e), h.1)
    ]

signal_in_range :
    (p : Platform) (w : World p) (io : ℕ → ℕ) (c : Controller) (j : ℕ)
    → Stops p w io c j
    → j < 0 + io_status_max c.model
signal_in_range p w io c j h = ground arith

-- An update that reads an alarm signal that has changed while some alarm is on, or reads that the
-- job has just stopped waiting for ROS, stops every group and empties every queue that can be
-- locked, whatever other signals change with it.
pub io_status_update-IsCleared :
    (p : Platform) (c : Controller) (w : World p) (j : ℕ)
    → (status_read p c w).0 ≡ true
    → Stops p w (status_read p c w).1 c j
    → IsCleared p w (io_status_update p c w).1.groups
unfolding io_status_update
io_status_update-IsCleared p c w j ok h = rw ok (
    update_signals-Stops p w (status_read p c w).1 (io_status_max c.model) 0 j c (omega arith)
      (signal_in_range p w (status_read p c w).1 c j h) h)
