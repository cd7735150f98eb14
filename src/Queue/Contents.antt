-- ===== src/Queue/Contents.antt =====
-- What a queue holds, oldest entry first, and how the operations of the queue change it
-- (Ros_MotionControl_AddPulseIncPointToQ, Ros_MotionControl_ClearQ_All of src/MotionControl.c).
use mathlib.Core.Path.{ap₂}
use native.Mathlib.Numerals.{add-one}
use motoros.Prelude.{
  ℕ, zero, suc, ◌+◌, ◌≤◌, ◌<◌, ◌≡◌, ◌≢◌, refl, sym, ◌∙◌, ap, List, [], ◌∷◌, ◌++◌, length, set,
  arith, length-set, get_or-set_self, get_or-set_ne,
}
use motoros.Data.{IncrementalData, IncrementalQ, q_size}
use motoros.Queue.{q_offset_idx, entry, enqueue, clear, zero_increment}

-- `n` entries of the ring from index `i` on
unfoldable pub contents_from : ℕ → ℕ → List IncrementalData → List IncrementalData
contents_from zero i es = []
contents_from (suc n) i es = entry es i ∷ contents_from n (q_offset_idx i 1 q_size) es

unfoldable pub contents : IncrementalQ → List IncrementalData
contents q = contents_from q.cnt q.idx q.entries

-- The array has its size, and the count and the index are in range.
pub record IsRing (q : IncrementalQ) : Type 0 where
  pub full_size : length q.entries ≡ q_size
  pub idx_in_range : q.idx < q_size
  pub cnt_in_range : q.cnt ≤ q_size

pub offset-lt : (i n : ℕ) → i < 200 → n < 200 → q_offset_idx i n 200 < 200
unfolding q_offset_idx
offset-lt i n h k = ground arith

offset_one-offset :
    (i n : ℕ)
    → i < 200
    → n < 199
    → q_offset_idx (q_offset_idx i 1 200) n 200 ≡ q_offset_idx i (suc n) 200
unfolding q_offset_idx
offset_one-offset i n h k = ground arith

offset-ne : (i n : ℕ) → i < 200 → suc n < 200 → q_offset_idx i (suc n) 200 ≢ i
unfolding q_offset_idx
offset-ne i n h k = ground arith

offset_zero : (i : ℕ) → i < 200 → q_offset_idx i 0 200 ≡ i
unfolding q_offset_idx
offset_zero i h = ground arith

-- A write behind the window does not change the window.
contents_from-set :
    (n i j r : ℕ) (es : List IncrementalData) (d : IncrementalData)
    → i < 200
    → n + r < 200
    → j ≡ q_offset_idx i (n + r) 200
    → contents_from n i (set es j d) ≡ contents_from n i es
unfolding contents_from
contents_from-set zero i j r es d h k e = refl
contents_from-set (suc n) i j r es d h k e =
    let e' : j ≡ q_offset_idx i (suc (n + r)) 200 =
      e ∙ ap (λ t. q_offset_idx i t 200) (omega arith) in
    let away : j ≢ i = λ p. offset-ne i (n + r) h (omega arith) (sym e' ∙ p) in
    ap₂ ◌∷◌ (get_or-set_ne es j i d zero_increment away) (
      contents_from-set n (q_offset_idx i 1 200) j r es d (offset-lt i 1 h (omega arith))
        (omega arith) (e' ∙ sym (offset_one-offset i (n + r) h (omega arith))))

contents_from-enqueue :
    (n i : ℕ) (es : List IncrementalData) (d : IncrementalData)
    → i < 200
    → n < 200
    → length es ≡ 200
    → contents_from (suc n) i (set es (q_offset_idx i n 200) d) ≡ contents_from n i es ++ d ∷ []
unfolding contents_from
contents_from-enqueue zero i es d h k l =
    rw (offset_zero i h) (ap (λ x. x ∷ []) (get_or-set_self es i d zero_increment (omega arith)))
contents_from-enqueue (suc n) i es d h k l =
    ap₂ ◌∷◌ (get_or-set_ne es (q_offset_idx i (suc n) 200) i d zero_increment (offset-ne i n h k)) (
      rw (← offset_one-offset i n h (omega arith)) (
        contents_from-enqueue n (q_offset_idx i 1 200) es d (offset-lt i 1 h (omega arith))
          (omega arith) l))

module _ (q : IncrementalQ) where
  -- An entry that is put into a ring with room goes behind what the ring holds, and the ring stays
  -- well formed.
  pub contents-enqueue :
      (d : IncrementalData)
      → IsRing q
      → q.cnt < q_size
      → IsRing (enqueue d q) × (contents (enqueue d q) ≡ contents q ++ d ∷ [])
  unfolding contents enqueue
  contents-enqueue d ring room = (
    record {
      full_size = length-set q.entries (q_offset_idx q.idx q.cnt 200) d ∙ ring.full_size;
      idx_in_range = ring.idx_in_range;
      cnt_in_range = omega arith;
    },
    rw add-one
        (contents_from-enqueue q.cnt q.idx q.entries d ring.idx_in_range room ring.full_size),
  )

  -- Clearing empties the queue, and the ring stays well formed.
  pub contents-clear : IsRing q → IsRing (clear q) × (contents (clear q) ≡ [])
  unfolding contents clear contents_from
  contents-clear ring = (
    record {
      full_size = ring.full_size;
      idx_in_range = ring.idx_in_range;
      cnt_in_range = omega arith;
    },
    refl,
  )
