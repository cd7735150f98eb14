-- ===== src/IncMove.antt =====
-- The arithmetic of the FSU speed limit in Ros_MotionControl_IncMoveLoopStart of
-- src/MotionControl.c: what a group still has to send, and how much of it goes out in one
-- interpolation cycle. A LONG is an integer; the pulses of a robot stay far below 2 ^ 31.
pub mod Limit
pub mod Accounts
pub mod Cycle
pub mod Pass
mod Tests
use motoros.Prelude.{
  ℕ, zero, suc, ◌+◌, ℤ, pos, negsuc, ◌+ℤ◌, ◌-ℤ◌, Bool, true, false, not, ◌||◌, List, [], ◌∷◌, map,
  ltb, leb, eqb_ℤ, ltb_ℤ, abs, get_or, if◌then◌else◌,
}

-- One axis of a group: an entry of newPulseInc, toProcessPulses, processedPulses, maxSpeed,
-- maxSpeedRemain, prevMaxSpeed, prevMaxSpeedRemain, prevPulsePosData and moveData, and the
-- configured maxInc.maxIncrement.
pub record Axis : Type 0 where
  pub new_inc : ℤ
  pub to_process : ℤ
  pub processed : ℤ
  pub max_speed : ℤ
  pub max_speed_remain : ℤ
  pub prev_max_speed : ℤ
  pub prev_max_speed_remain : ℤ
  pub prev_pos : ℤ
  pub sent : ℤ
  pub max_increment : ℕ

abbrev pub abs_ℤ : ℤ → ℤ
abs_ℤ z = pos (abs z)

abbrev pub is_zero : ℤ → Bool
is_zero z = eqb_ℤ z (pos 0)

-- newPulseInc is what was put into moveData; it is a speed if it comes from the queue.
unfoldable pub record_speed : Bool → ℤ → Axis → Axis
record_speed queue_read inc a =
    let moved : Axis = record a { new_inc = inc; sent = inc } in
    if queue_read
    then record moved { max_speed = abs_ℤ inc; max_speed_remain = abs_ℤ inc }
    else moved

-- The pulses that the controller has not processed, before the new ones are added.
unfoldable pub left_over : ℤ → Axis → ℤ
left_over position a = a.to_process -ℤ (position -ℤ a.prev_pos)

unfoldable pub account : ℤ → Axis → Axis
unfolding left_over
account position a = record a {
  processed = position -ℤ a.prev_pos;
  prev_pos = position;
  to_process = left_over position a +ℤ a.new_inc;
}

unfoldable pub is_missing_pulse : List ℤ → List Axis → Bool
unfolding left_over
is_missing_pulse (x ∷ xs) (a ∷ axes) = not (is_zero (left_over x a)) || is_missing_pulse xs axes
is_missing_pulse _ _ = false

unfoldable pub account_all : List ℤ → List Axis → List Axis
unfolding account
account_all (x ∷ xs) (a ∷ axes) = account x a ∷ account_all xs axes
account_all _ axes = axes

unfoldable pub has_unprocessed : List Axis → Bool
has_unprocessed [] = false
has_unprocessed (a ∷ axes) = not (is_zero a.to_process) || has_unprocessed axes

unfoldable pub use_up_speed : Axis → Axis
use_up_speed a = record a {
  prev_max_speed_remain =
      (if is_zero a.to_process then pos 0 else abs_ℤ a.prev_max_speed_remain -ℤ abs_ℤ a.processed);
}

unfoldable pub some_speed_remains : List Axis → Bool
some_speed_remains [] = false
some_speed_remains (a ∷ axes) = ltb_ℤ (pos 0) a.prev_max_speed_remain || some_speed_remains axes

unfoldable pub transfer_speed : Axis → Axis
transfer_speed a = record a {
  prev_max_speed = a.max_speed;
  prev_max_speed_remain = a.prev_max_speed_remain +ℤ a.max_speed_remain;
}

-- `max_inc`, a UINT64; a speed is used only if it is positive.
unfoldable pub max_inc : Axis → ℕ
max_inc a =
    if ltb_ℤ (pos 0) a.prev_max_speed
    then abs a.prev_max_speed
    else if ltb_ℤ (pos 0) a.max_speed
    then abs a.max_speed
    else if not (is_zero a.new_inc)
    then abs a.new_inc
    else a.max_increment

-- The number -n
abbrev pub neg_ℕ : ℕ → ℤ
neg_ℕ n = pos 0 -ℤ pos n

unfoldable pub limit : Axis → Axis
unfolding max_inc
limit a = if is_zero a.to_process then a else record a {
  sent =
      (if leb (abs a.to_process) (max_inc a)
        then a.to_process
        else if ltb_ℤ a.to_process (pos 0)
        then neg_ℕ (max_inc a)
        else pos (max_inc a));
}

unfoldable pub keep_speed : Axis → Axis
keep_speed a = record a { prev_max_speed = abs_ℤ a.sent; prev_max_speed_remain = abs_ℤ a.sent }

-- `memcpy(newPulseInc[i], ..)` for all axes
unfoldable pub record_speeds : Bool → List ℤ → List Axis → List Axis
unfolding record_speed
record_speeds queue_read (x ∷ xs) (a ∷ axes) =
    record_speed queue_read x a ∷ record_speeds queue_read xs axes
record_speeds queue_read _ axes = axes

-- The second half of a cycle for one group, from the pulses of moveData and the position of the
-- controller: the skip flag for the next cycle, whether pulses are left, the axes with what is sent.
pub record Limited : Type 0 where
  pub skip_reading : Bool
  pub unprocessed : Bool
  pub axes : List Axis

unfoldable pub limit_group : Bool → List ℤ → List ℤ → List Axis → Limited
unfolding record_speeds is_missing_pulse account_all has_unprocessed use_up_speed some_speed_remains
    transfer_speed limit keep_speed
limit_group queue_read pulses position axes =
    let started = record_speeds queue_read pulses axes in
    let counted = account_all position started in
    if is_missing_pulse position started
    then (let used = map use_up_speed counted in
        let skip = some_speed_remains used in
        record {
          skip_reading = skip;
          unprocessed = has_unprocessed counted;
          axes = map limit (if skip then used else map transfer_speed used);
        })
    else record {
      skip_reading = false;
      unprocessed = has_unprocessed counted;
      axes = map keep_speed counted;
    }
