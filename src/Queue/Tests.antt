-- ===== src/Queue/Tests.antt =====
-- The queue of the sample robot.
use motoros.Prelude.{◌≡◌, refl, pos, ◌+ℤ◌, [], ◌∷◌, ◌++◌, arith}
use motoros.Queue.{enqueue, take_increment, q_offset_idx}
use motoros.Queue.Contents.{IsRing, contents, contents_from, contents-enqueue}
use motoros.Queue.Increment.{has_entry, taken_cycle, cycle, take_increment-cycle}
use motoros.Queue.Pulses.{Shared, History, pulses, moved, AllAxes, History-pulses}
use motoros.Sample.Robot.{two_increments, increment, eight}

pub two_increments-IsRing : IsRing two_increments
two_increments-IsRing = record {
  full_size = refl;
  idx_in_range = omega arith;
  cnt_in_range = omega arith;
}

contents-enqueue_example :
    IsRing (enqueue (increment 12 (pos 5)) two_increments)
    × (contents (enqueue (increment 12 (pos 5)) two_increments)
        ≡ contents two_increments ++ increment 12 (pos 5) ∷ [])
contents-enqueue_example =
    contents-enqueue two_increments (increment 12 (pos 5)) two_increments-IsRing (omega arith)

take_increment-cycle_example :
    let t = take_increment 0 4 4 two_increments in
    IsRing t.queue
    × (t.queue_read ≡ has_entry (contents two_increments))
    × (taken_cycle t ≡ cycle 0 4 4 (contents two_increments))
take_increment-cycle_example = take_increment-cycle 0 4 4 two_increments two_increments-IsRing

-- Both increments belong to the period that begins at 4.
both_taken : (take_increment 0 4 4 two_increments).move.pos ≡ eight (pos 30)
unfolding take_increment ◌+ℤ◌
both_taken = refl

abbrev shared : Shared
shared = record { queue = two_increments; q_time = 4 }

abbrev put_one : Shared
put_one = record { queue = enqueue (increment 12 (pos 5)) two_increments; q_time = 4 }

abbrev took_one : Shared
took_one = record {
  queue = (take_increment 0 4 4 put_one.queue).queue;
  q_time = (take_increment 0 4 4 put_one.queue).q_time;
}

put_then_taken :
    History 0 4 shared
      (increment 12 (pos 5) ∷ [])
      ((take_increment 0 4 4 put_one.queue).move ∷ [])
      took_one
put_then_taken = History.take (History.add (increment 12 (pos 5)) History.start (omega arith) refl)

pub two_increments-AllAxes : AllAxes (contents two_increments)
unfolding contents contents_from q_offset_idx
two_increments-AllAxes = (refl, (refl, tt))

History-pulses_example :
    IsRing took_one.queue
    × AllAxes (contents took_one.queue)
    × (pulses 3 (contents two_increments) +ℤ pulses 3 (increment 12 (pos 5) ∷ [])
        ≡ moved 3 ((take_increment 0 4 4 put_one.queue).move ∷ [])
          +ℤ pulses 3 (contents took_one.queue))
History-pulses_example =
    History-pulses 0 4 3 two_increments-IsRing two_increments-AllAxes put_then_taken
