-- ===== src/CtrlGroup/Feedback.antt =====
-- Speeds, torques and temperatures of a group, and whether it has a base track: src/CtrlGroup.c.
use Prim.Native.Nat.{bit_or}
use motoros.Prelude.{
  ℕ, zero, suc, ◌+◌, ◌*◌, ◌%◌, ◌^◌, ℤ, pos, Bool, true, false, none, some, List, [], ◌∷◌, eqb_ℤ,
  get_or, replicate, if◌then◌else◌,
}
use motoros.MotoPlus.{MotoPlus}
use motoros.Data.{Double, axis_rotation, axis_linear, axis_invalid, CtrlGroup, grp_axes_num}
use motoros.Fpu.{Fpu}
use motoros.CtrlGroup.{axis_type_at, at, no_pulses, no_doubles}

-- Ros_CtrlGroup_HasBaseTrack
abbrev pub has_base_track : CtrlGroup → Bool
has_base_track g = elim g.base_track_group_index [ none ↦ false | some i ↦ true ]

-- The two registers of each axis
abbrev pub register_addresses : List (ℕ × ℕ) → List ℕ
register_addresses [] = []
register_addresses (r ∷ rs) = r.0 ∷ r.1 ∷ register_addresses rs

-- `(high << 16) | low` in 32 bits
abbrev pub combine_registers : ℕ → ℕ → ℕ
combine_registers low high = bit_or (high * 65536 % 2 ^ 32) low

module _ (fpu : Fpu) where
  open fpu use {mul, div, of_int, to_int, millionth, rad_per_degree}

  -- The speed of an axis in pulses per second, from 0.0001 degrees or micrometers per second
  abbrev pub pulse_speed : CtrlGroup → ℕ → Double → Double
  pulse_speed g i value = elim (axis_type_at g i) [
    | axis_rotation ↦
        mul (mul (div value (of_int (pos 10000))) rad_per_degree) (at g.pulse_to_rad i)
    | axis_linear ↦ mul (div value (of_int (pos 1000000))) (at g.pulse_to_meter i)
    | axis_invalid ↦ value
  ]

  -- The loop over the axes, `n` left, from axis `i` on
  unfoldable pub speeds_from : CtrlGroup → List ℕ → ℕ → ℕ → List ℤ
  speeds_from g registers zero i = []
  speeds_from g registers (suc n) i =
      let value = combine_registers (get_or registers (i * 2) 0) (get_or registers (i * 2 + 1) 0) in
      to_int (pulse_speed g i (of_int (pos value))) ∷ speeds_from g registers n (i + 1)

  module _ (api : MotoPlus) where
    -- Ros_CtrlGroup_GetFBServoSpeed with the registers that are enabled. `registerValues` is not
    -- initialised in the source; the call fills it if it succeeds.
    unfoldable pub read_speeds : CtrlGroup → api.World → List (ℕ × ℕ) → Bool × List ℤ
    unfolding speeds_from
    read_speeds g w registers =
        let (status, values) =
          api.read_io w (register_addresses registers) (replicate (grp_axes_num * 2) 0) in
        if eqb_ℤ status (pos 0)
        then (true, speeds_from g values grp_axes_num 0)
        else (false, no_pulses fpu)

    unfoldable pub get_fb_servo_speed : CtrlGroup → api.World → Bool × List ℤ
    unfolding read_speeds
    get_fb_servo_speed g w = elim g.speed_feedback [
      | none ↦ (false, no_pulses fpu)
      | some registers ↦ read_speeds g w registers
    ]

    -- The loop over the torques, `n` left, from axis `i` on
    unfoldable pub torques_from : List ℤ → ℕ → ℕ → List Double
    torques_from raw zero i = []
    torques_from raw (suc n) i =
        mul (of_int (get_or raw i (pos 0))) millionth ∷ torques_from raw n (i + 1)

    -- Ros_CtrlGroup_GetTorque
    unfoldable pub get_torque : CtrlGroup → api.World → Bool × List Double
    unfolding torques_from
    get_torque g w =
        let (status, raw) = api.get_torques w in
        if eqb_ℤ status (pos 0)
        then (true, torques_from (get_or raw g.group_no []) grp_axes_num 0)
        else (false, no_doubles)

    -- Ros_CtrlGroup_GetEncoderTemperature writes into an array that holds `old`.
    unfoldable pub get_encoder_temperature : CtrlGroup → api.World → List ℤ → Bool × List ℤ
    get_encoder_temperature g w old =
        let (status, temperatures) = api.get_encoder_temp w g.group_id in
        if eqb_ℤ status (pos 0) then (true, temperatures) else (false, old)
