-- ===== src/Startup/Fresh.antt =====
-- The groups that the start-up makes: src/CtrlGroup.c, Ros_CtrlGroup_Create.
use motoros.Prelude.{
  ℕ, zero, suc, ◌+◌, ◌≤◌, ◌<◌, ◌≡◌, refl, pos, Bool, true, false, ◌&&◌, none, some, List, [], ◌∷◌,
  ◌==◌, ltb_ℤ, pos_part, get_or, set, length-replicate, arith, Bool-cases, inl, inr,
}
use motoros.Data.{AxisType, axis_invalid, Coord, CtrlGroup}
use motoros.MotoPlus.{Model}
use motoros.CtrlGroup.{is_invalid_axis}
use motoros.CtrlGroup.Names.{Name}
use motoros.Queue.{zero_increment}
use motoros.Queue.Contents.{IsRing}
use motoros.Platform.{Platform, World}
use motoros.Startup.{
  Parameters, adjust_types, reads_ok, filled_group, new_group, create_group, empty_queue,
}
use motoros.Startup.Initialize.{at_start}

set-axis_invalid :
    (types : List AxisType) (i a : ℕ)
    → get_or types a axis_invalid ≡ axis_invalid
    → get_or (set types i axis_invalid) a axis_invalid ≡ axis_invalid
set-axis_invalid [] i a h = h
set-axis_invalid (t ∷ ts) zero zero h = refl
set-axis_invalid (t ∷ ts) zero (suc a) h = h
set-axis_invalid (t ∷ ts) (suc i) zero h = h
set-axis_invalid (t ∷ ts) (suc i) (suc a) h = set-axis_invalid ts i a h

set-axis_invalid_self :
    (types : List AxisType) (i : ℕ)
    → get_or (set types i axis_invalid) i axis_invalid ≡ axis_invalid
set-axis_invalid_self [] i = refl
set-axis_invalid_self (t ∷ ts) zero = refl
set-axis_invalid_self (t ∷ ts) (suc i) = set-axis_invalid_self ts i

module _ (max_inc : List ℕ) where
  -- An axis that is invalid stays so.
  adjust_types-keeps :
      (n i a : ℕ) (types : List AxisType)
      → get_or types a axis_invalid ≡ axis_invalid
      → get_or (adjust_types max_inc n i types) a axis_invalid ≡ axis_invalid
  unfolding adjust_types
  adjust_types-keeps zero i a types h = h
  adjust_types-keeps (suc n) i a types h = elim (Bool-cases (get_or max_inc i 0 == 0)) [
    | inl still ↦
        rw still
          (adjust_types-keeps n (i + 1) a (set types i axis_invalid) (set-axis_invalid types i a h))
    | inr moves ↦ rw moves (adjust_types-keeps n (i + 1) a types h)
  ]

  adjust_types-at :
      (n i a : ℕ) (types : List AxisType)
      → i ≤ a
      → a < i + n
      → get_or max_inc a 0 ≡ 0
      → get_or (adjust_types max_inc n i types) a axis_invalid ≡ axis_invalid
  unfolding adjust_types
  adjust_types-at zero i a types lo hi e = absurd (omega arith)
  adjust_types-at (suc n) i a types lo hi e = elim (Bool-cases (i == a)) [
    | inl here ↦
        let same : i ≡ a = ground arith in
        let still : (get_or max_inc a 0 == 0) ≡ true = rw e refl in
        rw (same, still)
          (adjust_types-keeps n (a + 1) a (set types a axis_invalid)
            (set-axis_invalid_self types a))
    | inr later ↦ adjust_types-at n (i + 1) a _ (ground arith) (omega arith) e
  ]

module _ (m : Parameters) where
  -- What holds of group `i` after the start-up
  pub record IsFresh (i : ℕ) (g : CtrlGroup) : Type 0 where
    pub index : g.group_no ≡ i
    pub axes : g.num_axes ≡ pos_part (m.axis_count i)
    pub has_axes : 0 < g.num_axes
    pub ring : IsRing g.inc_q
    pub empty : g.inc_q.cnt ≡ 0
    pub no_points : g.has_data_to_process ≡ false
    pub no_iterator : g.trajectory_iterator ≡ none
    -- An axis that cannot move is invalid.
    pub moves : (a : ℕ) → a < 8 → get_or g.max_inc a 0 ≡ 0 → is_invalid_axis g a ≡ true

  -- The calls for group `i` succeed, it has axes and its task starts.
  abbrev pub can_create : Platform → ℕ → ℕ → Bool
  can_create p period i =
      (ltb_ℤ (pos 0) (m.axis_count i) && reads_ok p.ids m period i) && m.interpolation_starts i

  -- The queue that was cleared
  empty_queue-IsRing : IsRing empty_queue
  empty_queue-IsRing = record {
    full_size = length-replicate 200 zero_increment;
    idx_in_range = omega arith;
    cnt_in_range = omega arith;
  }

  -- The maximum speed, the position, the names and the calibration are not what IsFresh is about.
  pub IsFresh-placed :
      (i : ℕ) (g : CtrlGroup) (place : Coord)
      → IsFresh i g
      → IsFresh i (record g { calibration = place })
  unfolding is_invalid_axis
  IsFresh-placed i g place f = record {
    index = f.index;
    axes = f.axes;
    has_axes = f.has_axes;
    ring = f.ring;
    empty = f.empty;
    no_points = f.no_points;
    no_iterator = f.no_iterator;
    moves = λ a l e. f.moves a l e;
  }

  module _ (p : Platform) (model : Model) (period : ℕ) (last : Bool) where
    pub new_group-IsFresh :
        (i : ℕ) (w : World p) (names : List Name)
        → ltb_ℤ (pos 0) (m.axis_count i) ≡ true
        → IsFresh i (record (at_start p m (new_group p.ids m p.fpu model period last i) w) {
          joint_names = names;
        })
    unfolding new_group filled_group is_invalid_axis
    new_group-IsFresh i w names some_axes = record {
      index = refl;
      axes = refl;
      has_axes = ground arith;
      ring = empty_queue-IsRing;
      empty = refl;
      no_points = refl;
      no_iterator = refl;
      moves = λ a l e.
          rw
            (adjust_types-at (m.max_inc_per_ip_cycle i period).1 8 0 a (m.axis_motion_type i).1
              (omega arith) (omega arith) e)
            refl;
    }

    pub create_group-some :
        (i : ℕ) (w : World p)
        → can_create p period i ≡ true
        → create_group p m model period last i w
          ≡ (some (new_group p.ids m p.fpu model period last i), w)
    unfolding create_group
    create_group-some i w h =
        elim (Bool-cases (ltb_ℤ (pos 0) (m.axis_count i) && reads_ok p.ids m period i)) [
          | inl read ↦ elim (Bool-cases (m.interpolation_starts i)) [
            | inl starts ↦ rw (read, starts) refl
            | inr fails ↦
                let no : can_create p period i ≡ false = rw (read, fails) refl in
                absurd (cc (h, no))
          ]
          | inr failed ↦
              let no : can_create p period i ≡ false = rw failed refl in absurd (cc (h, no))
        ]

    pub create_group-none :
        (i : ℕ) (w : World p)
        → can_create p period i ≡ false
        → (after : World p) × (create_group p m model period last i w ≡ (none, after))
    unfolding create_group
    create_group-none i w h =
        elim (Bool-cases (ltb_ℤ (pos 0) (m.axis_count i) && reads_ok p.ids m period i)) [
          | inl read ↦ elim (Bool-cases (m.interpolation_starts i)) [
            | inl starts ↦
                let created : can_create p period i ≡ true = rw (read, starts) refl in
                absurd (cc (h, created))
            | inr fails ↦ rw (read, fails) (_, refl)
          ]
          | inr failed ↦ rw failed (w, refl)
        ]
