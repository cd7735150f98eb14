-- ===== src/Controller/Signals.antt =====
-- What the cyclic update leaves in the state (Ros_Controller_IoStatusUpdate of
-- src/ControllerStatusIO.c).
use motoros.Prelude.{
  ℕ, zero, suc, ◌+◌, ◌<◌, ◌≤◌, ◌≡◌, ◌⊎◌, refl, sym, ◌∙◌, true, false, [], arith, Bool-cases, inl,
  inr, ◌==◌, if◌then◌else◌,
}
use motoros.Data.{Controller, RobotStatus}
use motoros.Platform.{Platform, World}
use motoros.Controller.{
  io_status_max, is_motion_ready, is_alarm, is_error, is_estop, is_play, is_continuous_cycle,
  is_remote, is_servo_on, is_hold, is_pfl_active, is_mp_inc_move_error_active, is_operating,
  is_waiting_ros,
}
use motoros.Controller.Update.{
  alarm_changed, waiting_changed, pfl_changed, react, write_signal, update_signal, update_signals,
  robot_status, publish, status_read, io_status_update,
}

module _ (p : Platform) (io : ℕ → ℕ) (w : World p) where
  -- A reaction leaves the signals and the model alone.
  react-io_status :
      (i : ℕ) (c : Controller)
      → ((react p io i c w).io_status ≡ c.io_status) × ((react p io i c w).model ≡ c.model)
  unfolding react alarm_changed waiting_changed pfl_changed
  react-io_status i c = ground arith

  pub update_signal-io_status :
      (i j : ℕ) (c : Controller)
      → (update_signal p io i c w).io_status j ≡ (if i == j then io i else c.io_status j)
  unfolding update_signal
  update_signal-io_status i j c = elim (Bool-cases (c.io_status i == io i)) [
    | inl same ↦ rw same (ground arith)
    | inr changed ↦ rw (changed, (react-io_status i (write_signal c i (io i))).0) refl
  ]

  update_signal-model : (i : ℕ) (c : Controller) → (update_signal p io i c w).model ≡ c.model
  unfolding update_signal
  update_signal-model i c = ground (arith, (react-io_status i (write_signal c i (io i))).1)

  update_signals-io_status :
      (n i j : ℕ) (c : Controller)
      → (i ≤ j → j < i + n → (update_signals p io n i c w).io_status j ≡ io j)
        × (j < i → (update_signals p io n i c w).io_status j ≡ c.io_status j)
        × (i + n ≤ j → (update_signals p io n i c w).io_status j ≡ c.io_status j)
        × ((update_signals p io n i c w).model ≡ c.model)
  unfolding update_signals
  update_signals-io_status zero i j c = (λ a b. absurd (omega arith), λ a. refl, λ a. refl, refl)
  update_signals-io_status (suc n) i j c = ground (
    arith,
    update_signal-io_status i j c,
    update_signal-model i c,
    update_signals-io_status n (i + 1) j (update_signal p io i c w),
  )

-- The published message takes no part in the readiness.
is_motion_ready_status :
    (p : Platform) (c : Controller) (w : World p) (m : RobotStatus)
    → is_motion_ready p (record c { status = m }) w ≡ is_motion_ready p c w
unfolding is_motion_ready is_alarm is_error is_estop is_play is_continuous_cycle is_remote
    is_servo_on is_hold is_pfl_active is_mp_inc_move_error_active is_operating is_waiting_ros
is_motion_ready_status p c w m = refl

-- An update returns what the reading of the signals returned. One that fails changes nothing. After
-- one that succeeds a signal that the model has is as it was read, another signal is as it was,
-- and the published message is that of the new state: it says that motion is possible exactly when
-- the controller is ready, and then lists no error code.
pub io_status_update-signals :
    (p : Platform) (c : Controller) (w : World p) (i : ℕ)
    → let (ok, io) = status_read p c w in
      let (result, c') = io_status_update p c w in
      ((ok ≡ false) × (result ≡ false) × (c' ≡ c))
      ⊎ ((ok ≡ true)
          × (result ≡ true)
          × ((i < io_status_max c.model) × (c'.io_status i ≡ io i)
              ⊎ (io_status_max c.model ≤ i) × (c'.io_status i ≡ c.io_status i))
          × (c'.status.motion_possible ≡ is_motion_ready p c' w)
          × ((is_motion_ready p c' w ≡ false) ⊎ (c'.status.error_codes ≡ [])))
unfolding io_status_update
io_status_update-signals p c w i =
    let (ok, io) = status_read p c w in
    let c' = update_signals p io (io_status_max c.model) 0 c w in
    let all = update_signals-io_status p io w (io_status_max c.model) 0 i c in
    let possible = is_motion_ready_status p c' w (robot_status p c' w) in
    elim (Bool-cases ok) [
      | inr failed ↦ rw failed (inl (refl, refl, refl))
      | inl read ↦ rw read (
          inr (
            refl,
            refl,
            ground (arith, all),
            (unfold robot_status in sym possible),
            (elim (Bool-cases (is_motion_ready p (publish p c' w) w)) [
              | inr idle ↦ inl idle
              | inl moves ↦ inr (unfold robot_status in rw (sym possible ∙ moves) refl)
            ]),
          ))
    ]
