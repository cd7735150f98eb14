-- ===== src/Queue.antt =====
-- The increment queue of a control group: a ring of Q_SIZE entries (src/CtrlGroup.h, and the parts
-- of src/MotionControl.c that put entries in and take them out).
pub mod Contents
pub mod Increment
pub mod Pulses
pub mod Tests
use motoros.Prelude.{
  ℕ, zero, suc, ◌+◌, ◌-◌, ℤ, pos, ◌+ℤ◌, Bool, false, ◌&&◌, ◌||◌, not, List, [], ◌∷◌, leb, ◌==◌,
  get_or, set, replicate, if◌then◌else◌,
}
use motoros.MotoPlus.{GroupMove}
use motoros.Data.{IncrementalData, IncrementalQ, q_size, grp_axes_num}

-- Q_OFFSET_IDX: its arguments are never negative here, so its second test never passes.
unfoldable pub q_offset_idx : ℕ → ℕ → ℕ → ℕ
q_offset_idx a b c = if leb c (a + b) then a + b - c else a + b

abbrev pub zero_increment : IncrementalData
zero_increment = record {
  time = 0;
  frame = 0;
  user = 0;
  tool = 0;
  inc = replicate grp_axes_num (pos 0);
}

abbrev pub entry : List IncrementalData → ℕ → IncrementalData
entry es i = get_or es i zero_increment

-- The critical section of Ros_MotionControl_AddPulseIncPointToQ.
unfoldable pub enqueue : IncrementalData → IncrementalQ → IncrementalQ
unfolding q_offset_idx
enqueue d q = record q {
  entries = set q.entries (q_offset_idx q.idx q.cnt q_size) d;
  cnt = q.cnt + 1;
}

-- The critical section of Ros_MotionControl_ClearQ_All.
unfoldable pub clear : IncrementalQ → IncrementalQ
clear q = record q { cnt = 0 }

-- MP_INC_PULSE_DTYPE of the M+ headers enters as an argument.
abbrev pub no_move : ℕ → GroupMove
no_move pulse_dtype = record {
  tool = 0;
  frame = pulse_dtype;
  user = 0;
  pos = replicate grp_axes_num (pos 0);
}

-- `pos[axis] += inc[axis]` for every axis
unfoldable pub add_pulses : List ℤ → List ℤ → List ℤ
add_pulses [] ys = []
add_pulses (x ∷ xs) [] = x ∷ xs
add_pulses (x ∷ xs) (y ∷ ys) = (x +ℤ y) ∷ add_pulses xs ys

-- The next entry belongs to the interpolation period that began at `q_time`.
abbrev pub same_period : ℕ → ℕ → IncrementalData → Bool
same_period period q_time d = leb q_time d.time && leb (d.time - q_time) period

abbrev pub other_format : GroupMove → IncrementalData → Bool
other_format g d = not (g.tool == d.tool) || not (g.frame == d.frame) || not (g.user == d.user)

-- Where the reading of a queue stands: the pulses so far, the time of the last entry, the queue.
pub record Reading : Type 0 where
  pub move : GroupMove
  pub inc_data_time : ℕ
  pub queue : IncrementalQ

abbrev pub absorb : IncrementalQ → ℕ → GroupMove → Reading
absorb q n g =
    let d = entry q.entries q.idx in
    record {
      move = record g { pos = add_pulses g.pos d.inc };
      inc_data_time = d.time;
      queue = record q { idx = q_offset_idx q.idx 1 q_size; cnt = n };
    }

-- The loop `while (q->cnt > 0)`; the first argument is `q->cnt`.
unfoldable pub read_more : ℕ → ℕ → ℕ → Reading → Reading
unfolding q_offset_idx add_pulses
read_more zero period q_time r = r
read_more (suc n) period q_time r =
    let d = entry r.queue.entries r.queue.idx in
    let rest = read_more n period q_time (absorb r.queue n r.move) in
    if same_period period q_time d then (if other_format r.move d then r else rest) else r

-- The critical section in which Ros_MotionControl_IncMoveLoopStart reads the queue of a group: the
-- move, the group's new `q_time`, whether an entry was read, the queue.
pub record Taken : Type 0 where
  pub move : GroupMove
  pub q_time : ℕ
  pub queue_read : Bool
  pub queue : IncrementalQ

abbrev pub first_entry : IncrementalQ → ℕ → Reading
first_entry q n =
    let d = entry q.entries q.idx in
    record {
      move = record { tool = d.tool; frame = d.frame; user = d.user; pos = d.inc };
      inc_data_time = d.time;
      queue = record q { idx = q_offset_idx q.idx 1 q_size; cnt = n };
    }

abbrev taken : Reading → Taken
taken r = record {
  move = r.move;
  q_time = r.inc_data_time;
  queue_read = Bool.true;
  queue = r.queue;
}

abbrev take_cnt : ℕ → ℕ → ℕ → ℕ → IncrementalQ → Taken
take_cnt zero pulse_dtype period q_time q = record {
  move = no_move pulse_dtype;
  q_time = q_time;
  queue_read = false;
  queue = q;
}
take_cnt (suc n) pulse_dtype period q_time q = taken (read_more n period q_time (first_entry q n))

unfoldable pub take_increment : ℕ → ℕ → ℕ → IncrementalQ → Taken
unfolding read_more
take_increment pulse_dtype period q_time q = take_cnt q.cnt pulse_dtype period q_time q
