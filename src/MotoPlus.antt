-- ===== src/MotoPlus.antt =====
-- The Motoman controller as MotoROS2 sees it: the M+ API, which is not part of the repository, as
-- the functions that the program calls on the state of the controller.
use motoros.Prelude.{ℕ, ℤ, Bool, List, [], ◌∷◌, ◌≡◌, ◌≢◌, map, pos}

-- The controller model is fixed when MotoROS2 is compiled (`#if DX100 .. YRC1000u`).
pub data Model : Type 0 where
  dx100 fs100 dx200 yrc1000 yrc1000u : Model

-- MP_ALARM_CODE_RSP_DATA
pub record AlarmData : Type 0 where
  pub alarm_num : ℕ
  pub alarm_nos : List ℕ
  pub error_no : ℕ

-- moveData.grp_pos_info[i] of MP_EXPOS_DATA: the parts of the tag that the program changes, and the
-- pulses
pub record GroupMove : Type 0 where
  pub tool : ℕ
  pub frame : ℕ
  pub user : ℕ
  pub pos : List ℤ

-- Reads leave the controller as it is. A command returns what the API returns, and the controller
-- after it.
pub record MotoPlus : Type 1 where
  pub World : Type 0
  -- mpReadIO: the addresses and the buffer before the call; the return value and the buffer after
  pub read_io : World → List ℕ → List ℕ → ℤ × List ℕ
  -- mpWriteIO: pairs of an address and a value
  pub write_io : World → List (ℕ × ℕ) → ℤ × World
  -- mpGetCurJob on the master task: the characters of the job's name
  pub get_cur_job : World → List ℕ
  -- MAX_JOB_NAME_LEN
  pub max_job_name_len : ℕ
  -- mpGetAlarmCode
  pub get_alarm_code : World → ℤ × AlarmData
  -- mpSemTake on the lock of the increment queue of a group: true for OK
  pub sem_take : World → ℕ → Bool
  -- mpGetPulsePos and mpGetFBPulsePos of a group: the return value and the positions
  pub get_pulse_pos : World → ℕ → ℤ × List ℤ
  pub get_fb_pulse_pos : World → ℕ → ℤ × List ℤ
  -- mpSvsGetVelTrqFb: the return value and the torques of all groups
  pub get_torques : World → ℤ × List (List ℤ)
  -- mpGetEncoderTemp of a group
  pub get_encoder_temp : World → ℕ → ℤ × List ℤ
  -- mpHold: true for ON; its answer is never read
  pub hold : World → Bool → World
  -- mpStartJob, mpSetCycle, mpSetServoPower: the return value and `err_no`
  pub start_job : World → List ℕ → (ℤ × ℤ) × World
  pub set_cycle_auto : World → (ℤ × ℤ) × World
  pub set_servo_power : World → ℕ → (ℤ × ℤ) × World
  -- mpExRcsIncrementMove: the pulses of every group, with the parts of the tags that vary
  pub inc_move : World → List GroupMove → ℤ × World
  -- mpCancelError, mpResetAlarm: the return value
  pub cancel_error : World → ℤ × World
  pub reset_alarm : World → ℤ × World
  -- mpSetAlarm: the code and the subcode
  pub set_alarm : World → ℕ → ℕ → World

abbrev pub IsAway : ℕ → List (ℕ × ℕ) → Type 0
IsAway a [] = Unit
IsAway a (c ∷ cs) = (a ≢ c.0) × IsAway a cs

abbrev pub HasDistinctAddresses : List (ℕ × ℕ) → Type 0
HasDistinctAddresses [] = Unit
HasDistinctAddresses (c ∷ cs) = IsAway c.0 cs × HasDistinctAddresses cs

-- What is written to different outputs with one call is what a later read of the same outputs gives.
pub record KeepsOutputs (api : MotoPlus) : Type 0 where
  pub read_written :
      (w : api.World) (cells : List (ℕ × ℕ)) (buffer : List ℕ)
      → HasDistinctAddresses cells
      → (api.write_io w cells).0 ≡ pos 0
      → api.read_io (api.write_io w cells).1 (map (λ c. c.0) cells) buffer
        ≡ (pos 0, map (λ c. c.1) cells)
