-- ===== src/Position/Naming.antt =====
-- The names in the messages of src/PositionMonitor.c and the names of the axes in src/CtrlGroup.c agree.
use motoros.Prelude.{
  ℕ, zero, suc, ◌+◌, ◌-◌, ◌≤◌, ◌<◌, ◌≡◌, ◌⊎◌, refl, sym, ap, ◌∙◌, true, false, ◌&&◌, some, List, [],
  ◌∷◌, map, get_or, set, length, length-set, get_or-set_self, arith, Bool-cases, inl, inr, ltb,
  ◌==◌, replicate, if◌then◌else◌,
}
use native.Mathlib.Decide.{ℕ_discrete}
use motoros.Data.{Double, CtrlGroup}
use motoros.CtrlGroup.{
  GroupIds, is_robot, is_invalid_axis, at, few_to_sequential, seven_to_sequential,
  moto_to_sequential,
}
use motoros.CtrlGroup.Names.{Name, configured, joint_names_in_moto_order}
use motoros.CtrlGroup.Filled.{fill_names-length, Fills, Fills-next, Fills-valid}
use motoros.CtrlGroup.Order.{HasValid, to_sequential-step, few_to_sequential-at}
use motoros.Position.{name_index, names_from, group_joint_names}

-- The value that belongs to a name, for every axis
abbrev pub values : (Name → Double) → List Name → List Double
values v names = map v names

values-at :
    (v : Name → Double) (names : List Name) (i : ℕ)
    → i < length names
    → at (values v names) i ≡ v (get_or names i [])
values-at v [] i h = absurd (omega arith)
values-at v (n ∷ ns) zero h = refl
values-at v (n ∷ ns) (suc i) h = values-at v ns i (omega arith)

names_from-at :
    (ids : GroupIds) (names : List Name) (g : CtrlGroup) (group_index n joint k : ℕ)
    → k < n
    → get_or (names_from ids names g group_index n joint) k []
      ≡ configured names group_index (name_index ids g (joint + k))
unfolding names_from
names_from-at ids names g i zero joint k h = absurd (omega arith)
names_from-at ids names g i (suc n) joint zero h =
    let here : joint ≡ joint + 0 = omega arith in
    ap (λ (j : ℕ). configured names i (name_index ids g j)) here
names_from-at ids names g i (suc n) joint (suc k) h =
    let there : (joint + 1) + k ≡ joint + suc k = omega arith in
    names_from-at ids names g i n (joint + 1) k (omega arith)
    ∙ ap (λ (j : ℕ). configured names i (name_index ids g j)) there

-- The first `n` axes are valid.
abbrev pub AllValid : CtrlGroup → ℕ → Type 0
AllValid g n = (a : ℕ) → a < n → is_invalid_axis g a ≡ false

seven_index : ℕ → ℕ
seven_index j = if ltb j 2 then j else if j == 2 then j + 4 else j - 1

seven_index-lt : (j : ℕ) → j < 7 → seven_index j < 7
unfolding seven_index
seven_index-lt j h = ground arith

seven_values :
    (moto more : List Double) (j : ℕ)
    → j < 7
    → at
        (at moto 0 ∷ at moto 1 ∷ at moto 6 ∷ at moto 2 ∷ at moto 3 ∷ at moto 4 ∷ at moto 5 ∷ more)
        j
      ≡ at moto (seven_index j)
unfolding seven_index
seven_values moto more zero h = refl
seven_values moto more (suc zero) h = refl
seven_values moto more (suc (suc zero)) h = refl
seven_values moto more (suc (suc (suc zero))) h = refl
seven_values moto more (suc (suc (suc (suc zero)))) h = refl
seven_values moto more (suc (suc (suc (suc (suc zero))))) h = refl
seven_values moto more (suc (suc (suc (suc (suc (suc zero)))))) h = refl
seven_values moto more (suc (suc (suc (suc (suc (suc (suc j))))))) h = absurd (omega arith)

seven_to_sequential-at :
    (moto old : List Double) (j : ℕ)
    → length old ≡ 8
    → j < 7
    → at (seven_to_sequential 7 0 moto old) j ≡ at moto (seven_index j)
unfolding seven_to_sequential
seven_to_sequential-at moto (a ∷ b ∷ c ∷ d ∷ e ∷ f ∷ x ∷ more) j w l = seven_values moto more j l
seven_to_sequential-at moto [] j w l = absurd (omega arith)
seven_to_sequential-at moto (a ∷ []) j w l = absurd (omega arith)
seven_to_sequential-at moto (a ∷ b ∷ []) j w l = absurd (omega arith)
seven_to_sequential-at moto (a ∷ b ∷ c ∷ []) j w l = absurd (omega arith)
seven_to_sequential-at moto (a ∷ b ∷ c ∷ d ∷ []) j w l = absurd (omega arith)
seven_to_sequential-at moto (a ∷ b ∷ c ∷ d ∷ e ∷ []) j w l = absurd (omega arith)
seven_to_sequential-at moto (a ∷ b ∷ c ∷ d ∷ e ∷ f ∷ []) j w l = absurd (omega arith)

module _ (v : Name → Double) (names : List Name) (g : CtrlGroup) (out : List Name) where
  -- The values of a robot of few axes come in the order in which its axes were named.
  few_to_sequential-values :
      (n rpi mpi j : ℕ) (old : List Double)
      → HasValid g n mpi
      → Fills names g mpi rpi out
      → length out ≡ 8
      → rpi + n ≤ length old
      → rpi ≤ j
      → j < rpi + n
      → at (few_to_sequential g n rpi mpi (values v out) old) j ≡ v (configured names g.group_no j)
  few_to_sequential-values zero rpi mpi j old h f w k a b = absurd (omega arith)
  few_to_sequential-values (suc n) rpi mpi j old (m, e, lo, hi, h) f w k a b =
      let moto = values v out in
      let read = set old rpi (at moto m) in
      let (named, rest) = Fills-next names g 8 mpi rpi m hi e f in
      rw (to_sequential-step g moto n rpi mpi m moto old e) (elim (ℕ_discrete j rpi) [
        | yes here ↦ rw here (
            few_to_sequential-at g moto n (rpi + 1) (m + 1) rpi moto read h (omega arith)
            ∙ get_or-set_self old rpi (at moto m) 0 (omega arith)
            ∙ values-at v out m (omega (arith, w))
            ∙ ap v named)
        | no later ↦
            few_to_sequential-values n (rpi + 1) (m + 1) j read h rest w
              (omega (arith, length-set old rpi (at moto m))) (omega arith) (omega arith)
      ])

  Fills-all :
      (n a : ℕ) → n ≤ 8 → AllValid g n → Fills names g 0 0 out → a ≤ n → Fills names g a a out
  Fills-all n zero most all f h = f
  Fills-all n (suc a) most all f h =
      let next : suc a ≡ a + 1 = omega arith in
      let before = Fills-all n a most all f (omega arith) in
      rw next ((Fills-valid names g a a (omega arith) (all a (omega arith)) before).1)

  -- With all axes valid, an axis has the name of its number.
  name-all :
      (n a : ℕ)
      → n ≤ 8
      → AllValid g n
      → Fills names g 0 0 out
      → a < n
      → get_or out a [] ≡ configured names g.group_no a
  name-all n a most all f h =
      (Fills-valid names g a a (omega arith) (all a h) (Fills-all n a most all f (omega arith))).0

-- The robot has few axes, and as many valid ones; or the first axes of the group are valid.
abbrev pub IsNamed : GroupIds → CtrlGroup → Type 0
IsNamed ids g =
    (((is_robot ids g && ltb g.num_axes 6) ≡ true) × HasValid g g.num_axes 0)
    ⊎ (((is_robot ids g && ltb g.num_axes 6) ≡ false) × AllValid g g.num_axes)

module _ (ids : GroupIds) (g : CtrlGroup) where
  name_index-plain :
      (j : ℕ) → ((g.num_axes == 7) && is_robot ids g) ≡ false → name_index ids g j ≡ j
  unfolding name_index
  name_index-plain j plain = rw plain refl

  name_index-seven :
      (j : ℕ) → ((g.num_axes == 7) && is_robot ids g) ≡ true → name_index ids g j ≡ seven_index j
  unfolding name_index seven_index
  name_index-seven j seven = rw seven refl

module _ (ids : GroupIds) (g : CtrlGroup) (names : List Name) where
  -- The name in the message is the one that was configured for the joint in its place.
  group_joint_names-at :
      (k : ℕ) {i : ℕ}
      → name_index ids g k ≡ i
      → k < g.num_axes
      → get_or (group_joint_names ids names g.group_no g) k [] ≡ configured names g.group_no i
  unfolding group_joint_names
  group_joint_names-at k {i} e l =
      let here : 0 + k ≡ k = omega arith in
      names_from-at ids names g g.group_no g.num_axes 0 k l
      ∙ ap (λ (j : ℕ). configured names g.group_no (name_index ids g j)) here
      ∙ ap (configured names g.group_no) e

joint_names-Fills :
    (names : List Name) (g : CtrlGroup) (out : List Name)
    → joint_names_in_moto_order names g ≡ some out
    → Fills names g 0 0 out
unfolding joint_names_in_moto_order
joint_names-Fills names g out e = (8, replicate 8 [], refl, refl, e)

joint_names-length :
    (names : List Name) (g : CtrlGroup) (out : List Name)
    → joint_names_in_moto_order names g ≡ some out
    → length out ≡ 8
unfolding joint_names_in_moto_order
joint_names-length names g out e = fill_names-length names g 8 0 0 (replicate 8 []) e

module _ (ids : GroupIds) (g : CtrlGroup) (moto old : List Double) where
  -- The three branches of the conversion of the order
  sequential-seven :
      ((g.num_axes == 7) && is_robot ids g) ≡ true
      → moto_to_sequential ids g moto old ≡ seven_to_sequential g.num_axes 0 moto old
  unfolding moto_to_sequential
  sequential-seven seven = rw seven refl

  sequential-few :
      ((g.num_axes == 7) && is_robot ids g) ≡ false
      → (is_robot ids g && ltb g.num_axes 6) ≡ true
      → moto_to_sequential ids g moto old ≡ few_to_sequential g g.num_axes 0 0 moto old
  unfolding moto_to_sequential
  sequential-few not_seven few = rw (not_seven, few) refl

  sequential-plain :
      ((g.num_axes == 7) && is_robot ids g) ≡ false
      → (is_robot ids g && ltb g.num_axes 6) ≡ false
      → moto_to_sequential ids g moto old ≡ moto
  unfolding moto_to_sequential
  sequential-plain not_seven not_few = rw (not_seven, not_few) refl

module _ (ids : GroupIds) (g : CtrlGroup) where
  seven-num_axes : ((g.num_axes == 7) && is_robot ids g) ≡ true → g.num_axes ≡ 7
  seven-num_axes h = ground arith

  seven-not_few :
      ((g.num_axes == 7) && is_robot ids g) ≡ true → (is_robot ids g && ltb g.num_axes 6) ≡ true → ⊥
  seven-not_few h few = ground arith

-- The name that a message gives to a joint is the name of the axis whose value the message holds in
-- that place, for robots of seven axes, robots of few axes with gaps between them, and groups whose
-- first axes are the valid ones.
pub moto_to_sequential-group_joint_names :
    (ids : GroupIds) (g : CtrlGroup) (names out : List Name) (v : Name → Double) (old : List Double)
    (k : ℕ)
    → g.num_axes ≤ 8
    → IsNamed ids g
    → joint_names_in_moto_order names g ≡ some out
    → length old ≡ 8
    → k < g.num_axes
    → at (moto_to_sequential ids g (values v out) old) k
      ≡ v (get_or (group_joint_names ids names g.group_no g) k [])
moto_to_sequential-group_joint_names ids g names out v old k most named e w l =
    let fills : Fills names g 0 0 out = joint_names-Fills names g out e in
    let eight = joint_names-length names g out e in
    let moto = values v out in
    elim (Bool-cases ((g.num_axes == 7) && is_robot ids g)) [
      | inl seven ↦ elim named [
        | inl (few, valid) ↦ absurd (seven-not_few ids g seven few)
        | inr (not_few, all) ↦
            let is_seven = seven-num_axes ids g seven in
            let l7 : k < 7 = omega (arith, is_seven, l) in
            let below = seven_index-lt k l7 in
            ap (λ (xs : List Double). at xs k) (sequential-seven ids g moto old seven)
            ∙ ap (λ (n : ℕ). at (seven_to_sequential n 0 moto old) k) is_seven
            ∙ seven_to_sequential-at moto old k w l7
            ∙ values-at v out (seven_index k) (omega (arith, below, eight))
            ∙ ap v (
                name-all v names g out g.num_axes (seven_index k) most all fills
                  (omega (arith, below, is_seven)))
            ∙ sym (ap v (group_joint_names-at ids g names k (name_index-seven ids g k seven) l))
      ]
      | inr not_seven ↦
          let name =
            ap v (group_joint_names-at ids g names k (name_index-plain ids g k not_seven) l) in
          elim named [
            | inl (few, valid) ↦
                ap (λ (xs : List Double). at xs k) (sequential-few ids g moto old not_seven few)
                ∙ few_to_sequential-values v names g out g.num_axes 0 0 k old valid fills eight
                    (omega arith) (omega arith) (omega arith)
                ∙ sym name
            | inr (not_few, all) ↦
                ap (λ (xs : List Double). at xs k)
                  (sequential-plain ids g moto old not_seven not_few)
                ∙ values-at v out k (omega arith)
                ∙ ap v (name-all v names g out g.num_axes k most all fills l)
                ∙ sym name
          ]
    ]
