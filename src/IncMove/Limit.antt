-- ===== src/IncMove/Limit.antt =====
-- How much of the pulses that are left an axis sends (src/MotionControl.c, the FSU speed limit of
-- Ros_MotionControl_IncMoveLoopStart).
use motoros.Prelude.{◌+◌, ◌≤◌, ◌≡◌, ◌≢◌, ◌⊎◌, pos, ◌-ℤ◌, abs, -ℤ_parts, arith}
use motoros.IncMove.{Axis, max_inc, limit}

-- What an axis that has pulses to process sends is at most the speed limit, has their sign, and
-- never overshoots: what is sent and what is left add up to what there was. It sends everything if
-- that is within the limit, and exactly the limit otherwise. An axis that has none sends what was
-- read from the queue, whatever that is.
pub limit-sent :
    (a : Axis)
    → let s = (limit a).sent in
      ((a.to_process ≡ pos 0) × (s ≡ a.sent))
      ⊎ ((a.to_process ≢ pos 0)
          × (abs s ≤ max_inc a)
          × (abs s + abs (a.to_process -ℤ s) ≡ abs a.to_process)
          × ((s ≡ a.to_process) ⊎ (abs s ≡ max_inc a)))
unfolding limit
limit-sent a =
    let m = max_inc a in
    ground (
      arith,
      -ℤ_parts a.to_process a.to_process,
      -ℤ_parts (pos 0) (pos m),
      -ℤ_parts a.to_process (pos 0 -ℤ pos m),
      -ℤ_parts a.to_process (pos m),
    )
