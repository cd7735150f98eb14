-- ===== src/Position/Published.antt =====
-- What Ros_PositionMonitor_UpdateLocation of src/PositionMonitor.c publishes.
use motoros.Prelude.{
  ℕ, zero, suc, ◌+◌, ◌<◌, ◌≡◌, refl, ap, ◌∙◌, Bool, ◌&&◌, some, List, [], ◌∷◌, get_elem?, get_or,
  length, arith, Bool-cases, inl, inr,
}
use motoros.MotoPlus.{MotoPlus}
use motoros.Data.{Double, CtrlGroup}
use motoros.Fpu.{Fpu}
use motoros.CtrlGroup.{GroupIds, is_robot, at, to_ros_pos, moto_to_sequential}
use motoros.CtrlGroup.Names.{Name}
use motoros.Position.{group_joint_names, all_joint_names}
use motoros.Position.Frames.{Frames, Links}
use motoros.Position.Frames.Chain.{KnowsTrack, calculate_transforms-some}
use motoros.Position.Location.{
  Feedback, JointValues, Published, copy_values, base_track_group, read_feedback, read_all,
  group_values, put_links, update_links, add_state, then_publish, publish_from, update_location,
}
use motoros.Position.Copied.{length-firsts}
use motoros.Position.Gathered.{
  first_joint, joint_count, gather, HasAxes, gather-at, all_joint_names-at,
}

module _ (fpu : Fpu) (ids : GroupIds) where
  -- The messages of the groups
  abbrev pub states_of : List Double → List CtrlGroup → List Feedback → List JointValues
  states_of old [] fs = []
  states_of old (g ∷ gs) [] = []
  states_of old (g ∷ gs) (f ∷ fs) = group_values fpu ids g f old ∷ states_of old gs fs

  length-states_of :
      (old : List Double) (gs : List CtrlGroup) (fs : List Feedback)
      → length fs ≡ length gs
      → length (states_of old gs fs) ≡ length gs
  length-states_of old [] fs w = refl
  length-states_of old (g ∷ gs) [] w = absurd (omega (arith, w))
  length-states_of old (g ∷ gs) (f ∷ fs) w = ap suc (length-states_of old gs fs (omega (arith, w)))

  states_of-at :
      (old : List Double) (gs : List CtrlGroup) (fs : List Feedback) (i : ℕ) {g : CtrlGroup}
      {f : Feedback}
      → get_elem? gs i ≡ some g
      → get_elem? fs i ≡ some f
      → get_elem? (states_of old gs fs) i ≡ some (group_values fpu ids g f old)
  states_of-at old [] fs i e h = absurd (cc e)
  states_of-at old (x ∷ gs) [] i e h = absurd (cc h)
  states_of-at old (x ∷ gs) (y ∷ fs) zero {g} {f} e h =
      let same_g : x ≡ g = cc e in
      let same_f : y ≡ f = cc h in
      ap (λ (z : CtrlGroup). some (group_values fpu ids z y old)) same_g
      ∙ ap (λ (z : Feedback). some (group_values fpu ids g z old)) same_f
  states_of-at old (x ∷ gs) (y ∷ fs) (suc i) e h = states_of-at old gs fs i e h

  module _ (old : List Double) where
    HasAxes-position :
        (gs : List CtrlGroup) (fs : List Feedback)
        → length fs ≡ length gs
        → HasAxes (λ v. v.position) gs (states_of old gs fs)
    unfolding group_values
    HasAxes-position [] fs w = tt
    HasAxes-position (g ∷ gs) [] w = absurd (omega (arith, w))
    HasAxes-position (g ∷ gs) (f ∷ fs) w = (
      length-firsts g.num_axes 0 (to_ros_pos fpu ids g f.pulses old),
      HasAxes-position gs fs (omega (arith, w)),
    )

    HasAxes-velocity :
        (gs : List CtrlGroup) (fs : List Feedback)
        → length fs ≡ length gs
        → HasAxes (λ v. v.velocity) gs (states_of old gs fs)
    unfolding group_values
    HasAxes-velocity [] fs w = tt
    HasAxes-velocity (g ∷ gs) [] w = absurd (omega (arith, w))
    HasAxes-velocity (g ∷ gs) (f ∷ fs) w = (
      length-firsts g.num_axes 0 (to_ros_pos fpu ids g f.speeds old),
      HasAxes-velocity gs fs (omega (arith, w)),
    )

    HasAxes-effort :
        (gs : List CtrlGroup) (fs : List Feedback)
        → length fs ≡ length gs
        → HasAxes (λ v. v.effort) gs (states_of old gs fs)
    unfolding group_values
    HasAxes-effort [] fs w = tt
    HasAxes-effort (g ∷ gs) [] w = absurd (omega (arith, w))
    HasAxes-effort (g ∷ gs) (f ∷ fs) w = (
      length-firsts g.num_axes 0 (moto_to_sequential ids g f.torques old),
      HasAxes-effort gs fs (omega (arith, w)),
    )

  module _ (k : Frames) (publish_tf : Bool) (groups : List CtrlGroup) (old : List Double) where
    -- The motions of the tracks of these robots are known.
    abbrev pub KnowsTracks : List CtrlGroup → Type 0
    KnowsTracks [] = Unit
    KnowsTracks (g ∷ gs) = KnowsTrack fpu ids k g (base_track_group groups g) × KnowsTracks gs

    update_links-some :
        (index : ℕ) (g : CtrlGroup) (f : Feedback) (links : List Links)
        → KnowsTrack fpu ids k g (base_track_group groups g)
        → (next : List Links) × (update_links fpu ids k publish_tf groups old index g f links
            ≡ some next)
    unfolding update_links
    update_links-some index g f links known =
        let (l, e) =
          calculate_transforms-some fpu ids k index g (base_track_group groups g) f.pulses
            f.track_pulses old known in
        elim (Bool-cases (publish_tf && is_robot ids g)) [
          | inl robot ↦ rw robot (_, ap (put_links fpu ids k publish_tf groups old index links) e)
          | inr other ↦ rw other (links, refl)
        ]

    publish_from-gather :
        (index n : ℕ) (all : JointValues) (gs : List CtrlGroup) (fs : List Feedback)
        (links : List Links)
        → KnowsTracks gs
        → length fs ≡ length gs
        → (p : Published) × (publish_from fpu ids k publish_tf groups old index n all gs fs links
            ≡ some p)
          × (p.states ≡ states_of old gs fs)
          × (p.all ≡ gather all n gs (states_of old gs fs))
    unfolding publish_from
    publish_from-gather index n all [] fs links known w = (_, refl, refl, refl)
    publish_from-gather index n all (g ∷ gs) [] links known w = absurd (omega (arith, w))
    publish_from-gather index n all (g ∷ gs) (f ∷ fs) links (here, rest) w =
        let v = group_values fpu ids g f old in
        let (next, e) = update_links-some index g f links here in
        let (p, made, states, gathered) =
          publish_from-gather (index + 1) (n + g.num_axes) (copy_values all n v) gs fs next rest
            (omega (arith, w)) in
        (
          record p { states = v ∷ p.states },
          ap
                (then_publish fpu ids k publish_tf groups old (λ l.
                  add_state fpu ids k publish_tf groups old v (
                    publish_from fpu ids k publish_tf groups old (index + 1) (n + g.num_axes)
                      (copy_values all n v) gs fs l)))
                e
              ∙ ap (add_state fpu ids k publish_tf groups old v) made,
          ap (λ (vs : List JointValues). v ∷ vs) states,
          gathered,
        )

module _ (fpu : Fpu) (ids : GroupIds) (api : MotoPlus) (w : api.World)
    (groups : List CtrlGroup) where
  length-read_all :
      (gs : List CtrlGroup) (before : List Feedback)
      → length before ≡ length gs
      → length (read_all fpu ids api w groups gs before) ≡ length gs
  unfolding read_all
  length-read_all [] before e = refl
  length-read_all (g ∷ gs) [] e = absurd (omega (arith, e))
  length-read_all (g ∷ gs) (b ∷ bs) e = ap suc (length-read_all gs bs (omega (arith, e)))

  read_all-at :
      (gs : List CtrlGroup) (before : List Feedback) (i : ℕ) {g : CtrlGroup} {b : Feedback}
      → get_elem? gs i ≡ some g
      → get_elem? before i ≡ some b
      → get_elem? (read_all fpu ids api w groups gs before) i
        ≡ some (read_feedback fpu ids api w groups g b)
  unfolding read_all
  read_all-at [] before i e h = absurd (cc e)
  read_all-at (x ∷ gs) [] i e h = absurd (cc h)
  read_all-at (x ∷ gs) (y ∷ bs) zero {g} {b} e h =
      let same_g : x ≡ g = cc e in
      let same_b : y ≡ b = cc h in
      ap (λ (z : CtrlGroup). some (read_feedback fpu ids api w groups z y)) same_g
      ∙ ap (λ (z : Feedback). some (read_feedback fpu ids api w groups g z)) same_b
  read_all-at (x ∷ gs) (y ∷ bs) (suc i) e h = read_all-at gs bs i e h

-- The message of all groups says the same as the message of a group, of a joint with the same name.
abbrev pub IsParallel : JointValues → ℕ → JointValues → ℕ → Type 0
IsParallel all j v k =
    (at all.position j ≡ at v.position k)
    × (at all.velocity j ≡ at v.velocity k)
    × (at all.effort j ≡ at v.effort k)

-- The message of all groups has an entry for each joint.
abbrev pub HasJoints : JointValues → ℕ → Type 0
HasJoints v n = (length v.position ≡ n) × (length v.velocity ≡ n) × (length v.effort ≡ n)

-- If every array has an entry for each group and each joint, and the motions of the base tracks are
-- known, an update publishes; the message of a group is made of what was read for it, and a joint
-- of it has the position, the speed, the torque and the name that the message of all groups has
-- behind the joints of the groups before it.
pub update_location-IsParallel :
    (fpu : Fpu) (ids : GroupIds) (k : Frames) (publish_tf : Bool) (groups : List CtrlGroup)
    (old : List Double) (api : MotoPlus) (w : api.World) (before : List Feedback)
    (all : JointValues) (links : List Links) (names : List Name) (i j : ℕ) {g : CtrlGroup}
    {b : Feedback}
    → KnowsTracks fpu ids k publish_tf groups old groups
    → length before ≡ length groups
    → HasJoints all (joint_count groups)
    → get_elem? groups i ≡ some g
    → get_elem? before i ≡ some b
    → j < g.num_axes
    → (p : Published) × (v : JointValues) × (update_location fpu ids k publish_tf groups old api w
          before all links
        ≡ some p)
      × (get_elem? p.states i ≡ some v)
      × (v ≡ group_values fpu ids g (read_feedback fpu ids api w groups g b) old)
      × IsParallel p.all (first_joint groups i + j) v j
      × (get_or (all_joint_names ids names 0 groups) (first_joint groups i + j) []
          ≡ get_or (group_joint_names ids names i g) j [])
unfolding update_location
update_location-IsParallel fpu ids k publish_tf groups old api w before all links names i j {g} {b}
      known e (hp, hv, he) at_g at_b l =
    let fs = read_all fpu ids api w groups groups before in
    let same = length-read_all fpu ids api w groups groups before e in
    let (p, made, states, gathered) =
      publish_from-gather fpu ids k publish_tf groups old 0 0 all groups fs links known same in
    let vs = states_of fpu ids old groups fs in
    let v = group_values fpu ids g (read_feedback fpu ids api w groups g b) old in
    let one =
      states_of-at fpu ids old groups fs i at_g
        (read_all-at fpu ids api w groups groups before i at_g at_b) in
    let each = length-states_of fpu ids old groups fs same in
    let place = first_joint groups i + j in
    let zero_i : 0 + i ≡ i = omega arith in
    (
      p,
      v,
      made,
      ap (λ (xs : List JointValues). get_elem? xs i) states ∙ one,
      refl,
      (
        ap (λ (m : JointValues). at m.position place) gathered
            ∙ gather-at (λ m. m.position) all groups vs i j
                (record { part-copy_values = λ a x n. refl })
                (HasAxes-position fpu ids old groups fs same) each hp at_g one l,
        ap (λ (m : JointValues). at m.velocity place) gathered
            ∙ gather-at (λ m. m.velocity) all groups vs i j
                (record { part-copy_values = λ a x n. refl })
                (HasAxes-velocity fpu ids old groups fs same) each hv at_g one l,
        ap (λ (m : JointValues). at m.effort place) gathered
            ∙ gather-at (λ m. m.effort) all groups vs i j
                (record { part-copy_values = λ a x n. refl })
                (HasAxes-effort fpu ids old groups fs same) each he at_g one l,
      ),
      all_joint_names-at ids names groups 0 i j at_g l
          ∙ ap (λ (m : ℕ). get_or (group_joint_names ids names m g) j []) zero_i,
    )
