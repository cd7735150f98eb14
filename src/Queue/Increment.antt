-- ===== src/Queue/Increment.antt =====
-- What one interpolation cycle takes from the queue of a group
-- (Ros_MotionControl_IncMoveLoopStart of src/MotionControl.c), against lists of entries.
use motoros.Prelude.{
  ℕ, zero, suc, ◌≡◌, refl, ap, Bool, true, false, List, [], ◌∷◌, arith, Bool-cases, inl, inr,
  if◌then◌else◌,
}
use motoros.Data.{IncrementalData, IncrementalQ}
use motoros.MotoPlus.{GroupMove}
use motoros.Queue.{
  no_move, Reading, Taken, add_pulses, same_period, other_format, absorb, first_entry, read_more,
  take_increment, entry,
}
use motoros.Queue.Contents.{contents_from, contents, IsRing, offset-lt}

-- The specification: the first entry, and those behind it as long as they fall into the period and
-- have the format of the first.
pub record Cycle : Type 0 where
  pub move : GroupMove
  pub time : ℕ
  pub rest : List IncrementalData

unfoldable pub merge : ℕ → ℕ → GroupMove → ℕ → List IncrementalData → Cycle
merge period q_time g t [] = record { move = g; time = t; rest = [] }
merge period q_time g t (d ∷ ds) =
    let more = merge period q_time (record g { pos = add_pulses g.pos d.inc }) d.time ds in
    let stop : Cycle = record { move = g; time = t; rest = d ∷ ds } in
    if same_period period q_time d then (if other_format g d then stop else more) else stop

unfoldable pub cycle : ℕ → ℕ → ℕ → List IncrementalData → Cycle
unfolding merge
cycle pulse_dtype period q_time [] = record { move = no_move pulse_dtype; time = q_time; rest = [] }
cycle pulse_dtype period q_time (d ∷ ds) =
    merge period q_time (record { tool = d.tool; frame = d.frame; user = d.user; pos = d.inc })
      d.time ds

unfoldable pub has_entry : List IncrementalData → Bool
has_entry [] = false
has_entry (d ∷ ds) = true

abbrev cycle_of : Reading → Cycle
cycle_of r = record { move = r.move; time = r.inc_data_time; rest = contents r.queue }

abbrev GoodReading : ℕ → Reading → Type 0
GoodReading n r = IsRing r.queue × (r.queue.cnt ≡ n)

absorb-IsRing :
    (q : IncrementalQ) (n : ℕ) (g : GroupMove)
    → IsRing q
    → q.cnt ≡ suc n
    → IsRing (absorb q n g).queue
absorb-IsRing q n g h e = record {
  full_size = h.full_size;
  idx_in_range = offset-lt q.idx 1 h.idx_in_range (omega arith);
  cnt_in_range = omega (arith, h.cnt_in_range);
}

-- The reading stands where it stood, with the contents read off.
stopped :
    (n : ℕ) (r : Reading)
    → r.queue.cnt ≡ n
    → ◌≡◌ {A = Cycle} (cycle_of r) (record {
      move = r.move;
      time = r.inc_data_time;
      rest = contents_from n r.queue.idx r.queue.entries;
    })
unfolding contents
stopped n r e =
    ap
      (λ k. record {
        move = r.move;
        time = r.inc_data_time;
        rest = contents_from k r.queue.idx r.queue.entries;
      })
      e

read_more-merge :
    (n period q_time : ℕ) (r : Reading)
    → IsRing r.queue
    → r.queue.cnt ≡ n
    → IsRing (read_more n period q_time r).queue
      × (cycle_of (read_more n period q_time r)
          ≡ merge period q_time r.move r.inc_data_time
              (contents_from n r.queue.idx r.queue.entries))
unfolding read_more merge contents_from
read_more-merge zero period q_time r h e = (h, stopped zero r e)
read_more-merge (suc n) period q_time r h e =
    let d = entry r.queue.entries r.queue.idx in
    elim (Bool-cases (same_period period q_time d)) [
      | inr late ↦ rw late (h, stopped (suc n) r e)
      | inl same ↦ elim (Bool-cases (other_format r.move d)) [
        | inl other ↦ rw (same, other) (h, stopped (suc n) r e)
        | inr like ↦
            rw (same, like)
              (read_more-merge n period q_time (absorb r.queue n r.move)
                (absorb-IsRing r.queue n r.move h e) refl)
      ]
    ]

abbrev pub taken_cycle : Taken → Cycle
taken_cycle t = record { move = t.move; time = t.q_time; rest = contents t.queue }

take_increment_of :
    (n pulse_dtype period q_time : ℕ) (q : IncrementalQ)
    → IsRing q
    → q.cnt ≡ n
    → let t = take_increment pulse_dtype period q_time q in
      IsRing t.queue
      × (t.queue_read ≡ has_entry (contents q))
      × (taken_cycle t ≡ cycle pulse_dtype period q_time (contents q))
unfolding take_increment contents contents_from cycle has_entry
take_increment_of zero pulse_dtype period q_time q h e = rw e (
  record { full_size = h.full_size; idx_in_range = h.idx_in_range; cnt_in_range = omega arith },
  refl,
  refl,
)
take_increment_of (suc n) pulse_dtype period q_time q h e =
    let (ring, merged) =
      read_more-merge n period q_time (first_entry q n)
        (absorb-IsRing q n (first_entry q n).move h e) refl in
    rw e (ring, refl, merged)

-- One cycle of the loop reads from a well-formed ring exactly the first entry and the entries behind
-- it that fall into the interpolation period and have its format, adds up their pulses, records
-- the time of the last one, and leaves a well-formed ring with the others; an empty ring gives no
-- pulses and keeps the time.
pub take_increment-cycle :
    (pulse_dtype period q_time : ℕ) (q : IncrementalQ)
    → IsRing q
    → let t = take_increment pulse_dtype period q_time q in
      IsRing t.queue
      × (t.queue_read ≡ has_entry (contents q))
      × (taken_cycle t ≡ cycle pulse_dtype period q_time (contents q))
take_increment-cycle pulse_dtype period q_time q h =
    take_increment_of q.cnt pulse_dtype period q_time q h refl
