-- ===== src/Interpolate/Ticks.antt =====
-- The times of the increments of a segment, and the points that belong to them
-- (Ros_MotionControl_AddToIncQueueProcess of src/MotionControl.c).
use motoros.Prelude.{
  ℕ, suc, ◌+◌, ◌<◌, ◌≤◌, ◌≡◌, refl, List, [], ◌∷◌, arith, length, ap, ◌⊎◌, ltb, Bool-cases, inl,
  inr, ◌∙◌,
}
use motoros.Data.{Double, JointMotionData, IncrementalData}
use motoros.Fpu.{Fpu}
use motoros.Interpolate.{Clock, tick, Segment, Coefficients, positions_at, next_point}

-- The times rise by at most a period each, from `t` on, and none is behind `end_time`.
abbrev pub Spaced : ℕ → ℕ → ℕ → List IncrementalData → Type 0
Spaced period end_time t [] = Unit
Spaced period end_time t (d ∷ ds) =
    (t < d.time) × (d.time ≤ t + period) × (d.time ≤ end_time) × Spaced period end_time d.time ds

module _ (period end_time : ℕ) (c : Clock) where
  abbrev next : Clock
  next = tick period end_time c

  pub tick_lem :
      c.calculation_time ≡ c.time
      → 0 < c.time_inc
      → c.time_inc ≤ period
      → c.time < end_time
      → (c.time < next.time)
        × (next.time ≤ c.time + period)
        × (next.time ≤ end_time)
        × (0 < next.time_inc)
        × (next.time_inc ≤ period)
        × ((next.time ≡ next.calculation_time) ⊎ (next.time ≡ end_time))
  unfolding tick
  tick_lem e lo hi before = elim (Bool-cases (ltb (c.calculation_time + c.time_inc) end_time)) [
    | inl more ↦ ground arith
    | inr done ↦ ground arith
  ]

module _ (fpu : Fpu) where
  pub length-positions_at :
      (t : Double) (ks : List Coefficients) (ps vs xs : List Double)
      → length (positions_at fpu t ks ps vs xs) ≡ length xs
  unfolding positions_at
  length-positions_at t [] ps vs xs = refl
  length-positions_at t (k ∷ ks) [] vs xs = refl
  length-positions_at t (k ∷ ks) (p ∷ ps) [] xs = refl
  length-positions_at t (k ∷ ks) (p ∷ ps) (v ∷ vs) [] = refl
  length-positions_at t (k ∷ ks) (p ∷ ps) (v ∷ vs) (x ∷ xs) =
      ap suc (length-positions_at t ks ps vs xs)

  module _ (seg : Segment) (e cur : JointMotionData) (period : ℕ) (c : Clock) where
    abbrev following : JointMotionData
    following = next_point fpu seg e (tick period e.time c) cur

    pub next_point-time : following.time ≡ (tick period e.time c).time
    unfolding next_point tick
    next_point-time = ground arith

    pub length-next_point : length e.pos ≡ 8 → length cur.pos ≡ 8 → length following.pos ≡ 8
    unfolding next_point
    length-next_point he hc =
        elim (Bool-cases (ltb (tick period e.time c).calculation_time e.time)) [
          | inl more ↦ rw more (length-positions_at _ _ _ _ cur.pos ∙ hc)
          | inr done ↦ rw done he
        ]

    -- The point at the end of the segment is the end point itself, with nothing rounded.
    pub next_point-last : (tick period e.time c).time ≡ e.time → following ≡ e
    unfolding next_point tick
    next_point-last h = elim (Bool-cases (ltb (c.calculation_time + c.time_inc) e.time)) [
      | inl more ↦ absurd (ground arith)
      | inr done ↦ rw done (ground arith)
    ]
