-- ===== src/Trajectory/Started.antt =====
-- What the start of a trajectory leaves behind (Ros_MotionControl_Init of src/MotionControl.c).
use motoros.Prelude.{
  ◌+◌, ℕ, zero, suc, ◌≡◌, ◌≢◌, ◌⊎◌, refl, ap, ◌∙◌, Bool, true, false, Option, none, some, List, [],
  ◌∷◌, map, arith, Bool-cases, inl, inr, length, ◌==◌, ◌&&◌, ◌||◌, if◌then◌else◌,
}
use motoros.Data.{CtrlGroup, Controller, JointMotionData}
use motoros.Platform.{Platform, World}
use motoros.Motion.Stop.{has_data_to_process}
use motoros.Controller.{is_motion_mode_trajectory}
use motoros.Trajectory.{
  Point, InitStatus, init_ok, init_already_in_motion, init_incomplete_jointlist, convert,
}
use motoros.Trajectory.Init.{
  is_ok, target, clear_points, abort_group, check_sizes, set_points, points_of, find_joint,
  find_axis, Assigned, is_found, mark, assign_joints, start_groups, start_assigned, init,
}

cleared-no_data :
    (gs : List CtrlGroup)
    → has_data_to_process gs ≡ false
    → has_data_to_process (map clear_points gs) ≡ false
unfolding has_data_to_process
cleared-no_data [] h = refl
cleared-no_data (g ∷ gs) h = ground (arith, cleared-no_data gs)

aborted-no_data : (gs : List CtrlGroup) → has_data_to_process (map abort_group gs) ≡ false
unfolding has_data_to_process
aborted-no_data [] = refl
aborted-no_data (g ∷ gs) = aborted-no_data gs

not_ok : (s : InitStatus) → is_ok s ≡ false → s ≢ init_ok
not_ok s h = ground arith

pub ok_only : (s : InitStatus) → is_ok s ≡ true → s ≡ init_ok
ok_only s h = ground arith

set_points-no_data :
    (gs : List CtrlGroup) (i : ℕ) (ds : List JointMotionData)
    → has_data_to_process (set_points gs i ds) ≡ has_data_to_process gs
unfolding has_data_to_process set_points
set_points-no_data [] i ds = refl
set_points-no_data (g ∷ gs) zero ds = refl
set_points-no_data (g ∷ gs) (suc i) ds = rw (set_points-no_data gs i ds) refl

-- Whether a joint of the trajectory is found in the group `i`
abbrev pub has_joint : List (List ℕ) → List CtrlGroup → ℕ → Bool
has_joint [] gs i = false
has_joint (name ∷ names) gs i =
    (is_found (find_joint name gs 0) && ((target (find_joint name gs 0)).0 == i))
    || has_joint names gs i

found_first :
    (name : List ℕ) (g : CtrlGroup) (k : ℕ) {x y : Option (ℕ × ℕ)}
    → x ≡ y
    → ◌≡◌ {A = Option (ℕ × ℕ)}
        (elim (find_axis name g.joint_names 0) [ none ↦ x | some axis ↦ some (k, axis) ])
        (elim (find_axis name g.joint_names 0) [ none ↦ y | some axis ↦ some (k, axis) ])
found_first name g k e =
    ap
      (λ (o : Option (ℕ × ℕ)). elim (find_axis name g.joint_names 0) as (λ x. Option (ℕ × ℕ)) [
        | none ↦ o
        | some axis ↦ some (k, axis)
      ])
      e

-- The groups have the same joints if they only differ in their points.
pub find_joint-set_points :
    (name : List ℕ) (gs : List CtrlGroup) (i : ℕ) (ds : List JointMotionData) (k : ℕ)
    → find_joint name (set_points gs i ds) k ≡ find_joint name gs k
unfolding find_joint set_points
find_joint-set_points name [] i ds k = refl
find_joint-set_points name (g ∷ gs) zero ds k = refl
find_joint-set_points name (g ∷ gs) (suc i) ds k =
    found_first name g k (find_joint-set_points name gs i ds (k + 1))

has_joint-set_points :
    (names : List (List ℕ)) (gs : List CtrlGroup) (i : ℕ) (ds : List JointMotionData) (j : ℕ)
    → has_joint names (set_points gs i ds) j ≡ has_joint names gs j
has_joint-set_points [] gs i ds j = refl
has_joint-set_points (name ∷ names) gs i ds j =
    rw (find_joint-set_points name gs i ds 0, has_joint-set_points names gs i ds j) refl

find_joint-cleared :
    (name : List ℕ) (gs : List CtrlGroup) (k : ℕ)
    → find_joint name (map clear_points gs) k ≡ find_joint name gs k
unfolding find_joint
find_joint-cleared name [] k = refl
find_joint-cleared name (g ∷ gs) k = found_first name g k (find_joint-cleared name gs (k + 1))

has_joint-cleared :
    (names : List (List ℕ)) (gs : List CtrlGroup) (j : ℕ)
    → has_joint names (map clear_points gs) j ≡ has_joint names gs j
has_joint-cleared [] gs j = refl
has_joint-cleared (name ∷ names) gs j =
    rw (find_joint-cleared name gs 0, has_joint-cleared names gs j) refl

or_false : (b : Bool) → (b || false) ≡ b
or_false true = refl
or_false false = refl

-- The first status that is not OK
abbrev pub first_failure : List InitStatus → InitStatus
first_failure [] = init_ok
first_failure (s ∷ ss) = if is_ok s then first_failure ss else s

module _ (p : Platform) where
  assign_joints-no_data :
      (whole : Bool) (pts : List Point) (names : List (List ℕ)) (joint : ℕ) (gs : List CtrlGroup)
      (used : ℕ → Bool)
      → has_data_to_process gs ≡ false
      → has_data_to_process (assign_joints p whole pts names joint gs used).groups ≡ false
  unfolding assign_joints
  assign_joints-no_data whole pts [] joint gs used h = h
  assign_joints-no_data whole pts (name ∷ names) joint gs used h =
      let (group, axis) = target (find_joint name gs 0) in
      let converted = convert p.fpu whole joint axis 0 0 pts (points_of gs group) in
      let stored = set_points gs group converted.1 in
      let kept = set_points-no_data gs group converted.1 in
      ground
        (arith, kept, assign_joints-no_data whole pts names (joint + 1) stored (mark used group))

  -- After the joints are assigned, the groups that were marked are those of the joints.
  assign_joints-used :
      (whole : Bool) (pts : List Point) (names : List (List ℕ)) (joint : ℕ) (gs : List CtrlGroup)
      (used : ℕ → Bool) (j : ℕ)
      → is_ok (assign_joints p whole pts names joint gs used).status ≡ true
      → (assign_joints p whole pts names joint gs used).used j ≡ (has_joint names gs j || used j)
  unfolding assign_joints
  assign_joints-used whole pts [] joint gs used j h = refl
  assign_joints-used whole pts (name ∷ names) joint gs used j h =
      let (group, axis) = target (find_joint name gs 0) in
      let converted = convert p.fpu whole joint axis 0 0 pts (points_of gs group) in
      let stored = set_points gs group converted.1 in
      ground (
        arith,
        has_joint-set_points names gs group converted.1 j,
        assign_joints-used whole pts names (joint + 1) stored (mark used group) j,
      )

  -- Every group that is used is ready to be broken up from its second point on, and the others have
  -- no points.
  abbrev pub AllStarted : (ℕ → Bool) → ℕ → List CtrlGroup → Type 0
  AllStarted used i [] = Unit
  AllStarted used i (g ∷ gs) =
      (((used i ≡ true) × (g.has_data_to_process ≡ true) × (g.trajectory_iterator ≡ some 1))
        ⊎ ((used i ≡ false) × (g.has_data_to_process ≡ false)))
      × AllStarted used (i + 1) gs

  start_groups-AllStarted :
      (n : ℕ) (w : World p) (used : ℕ → Bool) (i : ℕ) (gs : List CtrlGroup)
      → has_data_to_process gs ≡ false
      → (start_groups p n w used i gs).0 ≡ init_ok
      → AllStarted used i (start_groups p n w used i gs).1
  unfolding start_groups has_data_to_process
  start_groups-AllStarted n w used i [] h k = tt
  start_groups-AllStarted n w used i (g ∷ gs) h k =
      ground (arith, start_groups-AllStarted n w used (i + 1) gs)

  -- Refused, with no group started, or all groups released together.
  abbrev pub IsRefused : InitStatus × Controller → Type 0
  IsRefused r =
      (r.0 ≢ init_ok)
      × (r.1.all_groups_init_complete ≡ false)
      × (has_data_to_process r.1.groups ≡ false)

  abbrev pub IsReleased : (ℕ → Bool) → InitStatus × Controller → Type 0
  IsReleased used r =
      (r.0 ≡ init_ok) × (r.1.all_groups_init_complete ≡ true) × AllStarted used 0 r.1.groups

  -- The assignment of the joints to the groups that `init` makes.
  abbrev assigned : List (List ℕ) → List Point → Controller → Assigned
  assigned names pts c =
      assign_joints p (is_motion_mode_trajectory c) pts names 0 (map clear_points c.groups)
        (λ i. false)

  assigned-used :
      (names : List (List ℕ)) (pts : List Point) (c : Controller)
      → is_ok (assigned names pts c).status ≡ true
      → (assigned names pts c).used ≡ has_joint names c.groups
  assigned-used names pts c h =
      let same = λ (j : ℕ).
        assign_joints-used (is_motion_mode_trajectory c) pts names 0 (map clear_points c.groups)
          (λ k. false) j h
        ∙ ap (λ (b : Bool). b || false) (has_joint-cleared names c.groups j)
        ∙ or_false (has_joint names c.groups j) in
      λ i j. same j i

  -- The checks of a trajectory, in their order: the number of the joints, the sizes of the points, each
  -- joint with its points, and the start of each group that has a joint.
  abbrev pub checks_of : List (List ℕ) → List Point → Controller → World p → List InitStatus
  checks_of names pts c w =
      (if c.total_axes_count == length names then init_ok else init_incomplete_jointlist)
      ∷ check_sizes c.total_axes_count pts
      ∷ (assigned names pts c).status
      ∷ (start_groups p (length pts) w (has_joint names c.groups) 0 (assigned names pts c).groups).0
      ∷ []

  start_assigned-cases :
      (n : ℕ) (w : World p) (c : Controller) (a : Assigned) (joints : ℕ → Bool)
      → c.all_groups_init_complete ≡ false
      → has_data_to_process a.groups ≡ false
      → (is_ok a.status ≡ true → a.used ≡ joints)
      → let r = start_assigned p n w c a in
        (r.0 ≡ first_failure (a.status ∷ (start_groups p n w joints 0 a.groups).0 ∷ []))
        × (IsRefused r ⊎ IsReleased joints r)
  unfolding start_assigned
  start_assigned-cases n w c a joints idle h same = elim (Bool-cases (is_ok a.status)) [
    | inr wrong ↦ rw wrong (refl, inl (not_ok a.status wrong, idle, h))
    | inl right ↦
        let groups = start_groups p n w joints 0 a.groups in
        rw (same right, right)
          (elim (Bool-cases (is_ok groups.0)) [
            | inr bad ↦ rw bad (refl, inl (not_ok groups.0 bad, idle, aborted-no_data groups.1))
            | inl good ↦ rw good (
              refl,
              inr (
                refl,
                refl,
                start_groups-AllStarted n w joints 0 a.groups h (ok_only groups.0 good),
              ),
            )
          ])
  ]

  -- The controller in which a trajectory is checked.
  abbrev cleared_for : Controller → Controller
  cleared_for c = record c { all_groups_init_complete = false; groups = map clear_points c.groups }

  init_free :
      (names : List (List ℕ)) (pts : List Point) (c : Controller) (w : World p)
      → has_data_to_process c.groups ≡ false
      → let r = init p names pts c w in
        (r.0 ≡ first_failure (checks_of names pts c w))
        × (IsRefused r ⊎ IsReleased (has_joint names c.groups) r)
  unfolding init
  init_free names pts c w free =
      let a = assigned names pts c in
      let none_left = cleared-no_data c.groups free in
      let kept =
        assign_joints-no_data (is_motion_mode_trajectory c) pts names 0 (map clear_points c.groups)
          (λ i. false) none_left in
      elim (Bool-cases (c.total_axes_count == length names)) [
        | inr few ↦ rw (free, few) (refl, inl (not_ok _ refl, refl, none_left))
        | inl all ↦ elim (Bool-cases (is_ok (check_sizes c.total_axes_count pts))) [
          | inr bad ↦ rw (free, all, bad) (refl, inl (not_ok _ bad, refl, none_left))
          | inl good ↦
              rw (free, all, good)
                (start_assigned-cases (length pts) w (cleared_for c) a (has_joint names c.groups)
                  refl kept (assigned-used names pts c))
        ]
      ]

  -- A trajectory that comes while some group has points is refused, and nothing changes. Otherwise its
  -- status is that of the first check that fails, of the number of the joints, the sizes of the
  -- points, the joints and the start of the groups in turn. If one fails, no group has points to
  -- break up and the groups are not released. If none fails, the groups are released together: each
  -- group in which a joint of the trajectory is found starts at its second point, and the others
  -- have no points.
  pub init-cases :
      (names : List (List ℕ)) (pts : List Point) (c : Controller) (w : World p)
      → let r = init p names pts c w in
        ((has_data_to_process c.groups ≡ true) × (r.0 ≡ init_already_in_motion) × (r.1 ≡ c))
        ⊎ ((has_data_to_process c.groups ≡ false)
            × (r.0 ≡ first_failure (checks_of names pts c w))
            × (IsRefused r ⊎ IsReleased (has_joint names c.groups) r))
  unfolding init
  init-cases names pts c w = elim (Bool-cases (has_data_to_process c.groups)) [
    | inl busy ↦ rw busy (inl (refl, refl, refl))
    | inr free ↦ let (status, ends) = init_free names pts c w free in inr (free, status, ends)
  ]
