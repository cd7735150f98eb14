-- ===== src/Trajectory/Refused.antt =====
-- What the queueing of a point does, and what a refused point leaves alone (src/MotionControl.c, src/ServiceQueueTrajPoint.c).
use motoros.Prelude.{
  ℕ, zero, suc, ◌+◌, ◌≡◌, ◌≢◌, ◌⊎◌, ◌≤◌, inl, inr, refl, sym, ap, ◌∙◌, map, ◌==◌, Bool-cases, Bool,
  true, false, Option, none, some, List, [], ◌∷◌, arith, length, get_or,
}
use motoros.Data.{JointMotionData, CtrlGroup, Controller}
use motoros.Platform.{Platform, World}
use motoros.Controller.{is_motion_mode_trajectory, is_motion_mode_point_queue}
use motoros.Trajectory.{Point, convert}
use motoros.Trajectory.Init.{no_point, find_joint, is_found, target, points_of, set_points}
use motoros.Trajectory.Started.{find_joint-set_points}
use motoros.Trajectory.Queued.{
  queue_success, is_success, set_valid, validate_next, is_busy_at, some_busy, points_from,
  replace_from, iterator_of, convert_next, queue_joints, process_queued, queue_traj_point_trigger,
}

-- A conversion does not make a point valid.
convert-valid :
    (p : Platform) (whole : Bool) (joint axis : ℕ) (pt : Point) (ds : List JointMotionData) (k : ℕ)
    → (get_or (convert p.fpu whole joint axis 0 0 (pt ∷ []) ds).1 k no_point).valid
      ≡ (get_or ds k no_point).valid
unfolding convert
convert-valid p whole joint axis pt [] k = refl
convert-valid p whole joint axis pt (d ∷ ds) zero = ground arith
convert-valid p whole joint axis pt (d ∷ ds) (suc k) = ground arith

replaced-valid :
    (p : Platform) (whole : Bool) (joint axis : ℕ) (pt : Point) (i : ℕ) (ds : List JointMotionData)
    (k : ℕ)
    → (get_or
        (replace_from i ds (convert p.fpu whole joint axis 0 0 (pt ∷ []) (points_from i ds)).1)
        k
        no_point).valid
      ≡ (get_or ds k no_point).valid
replaced-valid p whole joint axis pt zero ds k = convert-valid p whole joint axis pt ds k
replaced-valid p whole joint axis pt (suc i) [] k = refl
replaced-valid p whole joint axis pt (suc i) (d ∷ ds) zero = refl
replaced-valid p whole joint axis pt (suc i) (d ∷ ds) (suc k) =
    replaced-valid p whole joint axis pt i ds k

stored-busy_at :
    (p : Platform) (whole : Bool) (joint axis : ℕ) (pt : Point) (i : Option ℕ)
    (ds : List JointMotionData)
    → is_busy_at (convert_next p.fpu whole joint axis pt i ds).1 i ≡ is_busy_at ds i
unfolding convert_next
stored-busy_at p whole joint axis pt none ds = refl
stored-busy_at p whole joint axis pt (some i) ds = replaced-valid p whole joint axis pt i ds i

stored-some_busy :
    (p : Platform) (whole : Bool) (joint axis : ℕ) (pt : Point) (gs : List CtrlGroup) (i : ℕ)
    → some_busy (
        set_points gs i
          (convert_next p.fpu whole joint axis pt (iterator_of gs i) (points_of gs i)).1)
      ≡ some_busy gs
unfolding some_busy set_points
stored-some_busy p whole joint axis pt [] i = refl
stored-some_busy p whole joint axis pt (g ∷ gs) zero =
    rw (stored-busy_at p whole joint axis pt g.trajectory_iterator g.trajectory_to_process) refl
stored-some_busy p whole joint axis pt (g ∷ gs) (suc i) =
    rw (stored-some_busy p whole joint axis pt gs i) refl

abbrev pub iterator : CtrlGroup → Option ℕ
iterator g = g.trajectory_iterator

set_points-iterators :
    (gs : List CtrlGroup) (i : ℕ) (ds : List JointMotionData)
    → map iterator (set_points gs i ds) ≡ map iterator gs
unfolding set_points
set_points-iterators [] i ds = refl
set_points-iterators (g ∷ gs) zero ds = refl
set_points-iterators (g ∷ gs) (suc i) ds =
    ap (λ is. g.trajectory_iterator ∷ is) (set_points-iterators gs i ds)

abbrev pub AllFound : List (List ℕ) → List CtrlGroup → Type 0
AllFound [] gs = Unit
AllFound (name ∷ names) gs = (is_found (find_joint name gs 0) ≡ true) × AllFound names gs

AllFound-set_points :
    (names : List (List ℕ)) (gs : List CtrlGroup) (i : ℕ) (ds : List JointMotionData)
    → AllFound names (set_points gs i ds)
    → AllFound names gs
AllFound-set_points [] gs i ds h = tt
AllFound-set_points (name ∷ names) gs i ds (here, there) = (
  sym (ap is_found (find_joint-set_points name gs i ds 0)) ∙ here,
  AllFound-set_points names gs i ds there,
)

-- The point that a group moves to next is valid; there is none without an iterator, or with one that
-- stands behind the array.
abbrev pub IsNextValid : List JointMotionData → Option ℕ → Type 0
IsNextValid ds none = Unit
IsNextValid ds (some i) = (length ds ≤ i) ⊎ (is_busy_at ds (some i) ≡ true)

abbrev pub AllNextValid : List CtrlGroup → Type 0
AllNextValid [] = Unit
AllNextValid (g ∷ gs) = IsNextValid g.trajectory_to_process g.trajectory_iterator × AllNextValid gs

set_valid-IsNextValid : (ds : List JointMotionData) (i : ℕ) → IsNextValid (set_valid ds i) (some i)
set_valid-IsNextValid [] i = inl (omega arith)
set_valid-IsNextValid (d ∷ ds) zero = inr refl
set_valid-IsNextValid (d ∷ ds) (suc i) = elim (set_valid-IsNextValid ds i) [
  | inl behind ↦ inl (omega (arith, behind))
  | inr valid ↦ inr valid
]

validated_next :
    (ds : List JointMotionData) (o : Option ℕ)
    → IsNextValid (elim o [ none ↦ ds | some i ↦ set_valid ds i ]) o
validated_next ds none = tt
validated_next ds (some i) = set_valid-IsNextValid ds i

validated-AllNextValid : (gs : List CtrlGroup) → AllNextValid (map validate_next gs)
validated-AllNextValid [] = tt
validated-AllNextValid (g ∷ gs) =
    (validated_next g.trajectory_to_process g.trajectory_iterator, validated-AllNextValid gs)

validated-iterators : (gs : List CtrlGroup) → map iterator (map validate_next gs) ≡ map iterator gs
validated-iterators [] = refl
validated-iterators (g ∷ gs) = ap (λ is. g.trajectory_iterator ∷ is) (validated-iterators gs)

module _ (p : Platform) where
  queue_joints-some_busy :
      (whole : Bool) (pt : Point) (names : List (List ℕ)) (joint : ℕ) (gs : List CtrlGroup)
      → some_busy (queue_joints p whole pt names joint gs).1 ≡ some_busy gs
  unfolding queue_joints
  queue_joints-some_busy whole pt [] joint gs = refl
  queue_joints-some_busy whole pt (name ∷ names) joint gs =
      let (group, axis) = target (find_joint name gs 0) in
      let converted =
        convert_next p.fpu whole joint axis pt (iterator_of gs group) (points_of gs group) in
      let stored = set_points gs group converted.1 in
      ground (
        arith,
        stored-some_busy p whole joint axis pt gs group,
        queue_joints-some_busy whole pt names (joint + 1) stored,
      )

  queue_joints-iterators :
      (whole : Bool) (pt : Point) (names : List (List ℕ)) (joint : ℕ) (gs : List CtrlGroup)
      → map iterator (queue_joints p whole pt names joint gs).1 ≡ map iterator gs
  unfolding queue_joints
  queue_joints-iterators whole pt [] joint gs = refl
  queue_joints-iterators whole pt (name ∷ names) joint gs =
      let (group, axis) = target (find_joint name gs 0) in
      let converted =
        convert_next p.fpu whole joint axis pt (iterator_of gs group) (points_of gs group) in
      let stored = set_points gs group converted.1 in
      ground (
        arith,
        set_points-iterators gs group converted.1,
        queue_joints-iterators whole pt names (joint + 1) stored,
      )

  queue_joints-AllFound :
      (whole : Bool) (pt : Point) (names : List (List ℕ)) (joint : ℕ) (gs : List CtrlGroup)
      → is_success (queue_joints p whole pt names joint gs).0 ≡ true
      → AllFound names gs
  unfolding queue_joints
  queue_joints-AllFound whole pt [] joint gs e = tt
  queue_joints-AllFound whole pt (name ∷ names) joint gs e =
      let (group, axis) = target (find_joint name gs 0) in
      let converted =
        convert_next p.fpu whole joint axis pt (iterator_of gs group) (points_of gs group) in
      let stored = set_points gs group converted.1 in
      (
        ground (arith, e),
        AllFound-set_points names gs group converted.1
            (queue_joints-AllFound whole pt names (joint + 1) stored (ground (arith, e))),
      )

  -- The point is taken: every joint that it names is found in a group, the groups go on with the
  -- iterators that they had, and the point of each iterator is now valid, if it is one of the array.
  abbrev pub IsTaken : List (List ℕ) → Controller → Controller → Type 0
  IsTaken names c d =
      AllFound names c.groups
      × (map iterator d.groups ≡ map iterator c.groups)
      × AllNextValid d.groups

  taken :
      (names : List (List ℕ)) (pt : Point) (c : Controller)
      → let q = queue_joints p (is_motion_mode_trajectory c) pt names 0 c.groups in
        is_success q.0 ≡ true → IsTaken names c (record c { groups = map validate_next q.1 })
  taken names pt c e =
      let whole = is_motion_mode_trajectory c in
      let gs = (queue_joints p whole pt names 0 c.groups).1 in
      (
        queue_joints-AllFound whole pt names 0 c.groups e,
        validated-iterators gs ∙ queue_joints-iterators whole pt names 0 c.groups,
        validated-AllNextValid gs,
      )

  -- A point that comes for a point queue whose first point has been started, with the controller in
  -- that mode: if it is refused, either nothing has changed, or no group had a valid point to move
  -- to and none has one now, so that nothing of the refused point is moved. If it is accepted, no
  -- group had a valid point to move to, the point has as many names as the robot has joints, each of
  -- which is found in a group, and the point that each group moves to next has become valid, if its
  -- iterator stands in the array of points, with the iterators as they were.
  pub queue_traj_point_trigger-cases :
      (names : List (List ℕ)) (pt : Point) (c : Controller) (w : World p)
      → is_motion_mode_point_queue c ≡ true
      → c.must_initialize_point_queue ≡ false
      → let r = queue_traj_point_trigger p names pt c w in
        ((r.0 ≢ queue_success) × (r.1 ≡ c))
        ⊎ (((r.0 ≢ queue_success) × (some_busy c.groups ≡ false) × (some_busy r.1.groups ≡ false))
            ⊎ ((r.0 ≡ queue_success)
                × (some_busy c.groups ≡ false)
                × (c.total_axes_count ≡ length names)
                × IsTaken names c r.1))
  unfolding queue_traj_point_trigger process_queued
  queue_traj_point_trigger-cases names pt c w mode later =
      let q = queue_joints p (is_motion_mode_trajectory c) pt names 0 c.groups in
      let kept = queue_joints-some_busy (is_motion_mode_trajectory c) pt names 0 c.groups in
      elim (Bool-cases (c.total_axes_count == length names)) [
        | inr few ↦ rw (mode, later, few) (inl (λ e. cc e, refl))
        | inl all ↦ elim (Bool-cases (some_busy c.groups)) [
          | inl moving ↦ rw (mode, later, all, moving) (inl (λ e. cc e, refl))
          | inr free ↦ elim (Bool-cases (is_success q.0)) [
            | inl good ↦
                rw (mode, later, all, free, good)
                  (inr (inr (refl, refl, ground (arith, all), taken names pt c good)))
            | inr bad ↦
                rw (mode, later, all, free, bad)
                  (inr (inl (λ e. absurd (cc (e, bad)), refl, kept ∙ free)))
          ]
        ]
      ]
