-- ===== src/CtrlGroup/Order.antt =====
-- The order of the joints of ROS and of the controller: a trajectory's values that are put into the
-- controller's order and back are the values of the trajectory (src/CtrlGroup.c).
use motoros.Prelude.{
  ltb, ◌==◌, Bool-cases, ℕ, zero, suc, ◌+◌, ◌≤◌, ◌<◌, ◌≡◌, ◌⊎◌, refl, ap, ◌∙◌, true, false, Option,
  some, none, List, [], ◌∷◌, length, set, arith, inl, inr, length-set, get_or-set_self,
  get_or-set_ne,
}
use native.Mathlib.Decide.{ℕ_discrete}
use motoros.Data.{Double, CtrlGroup}
use motoros.CtrlGroup.{
  GroupIds, is_robot, next_valid, few_to_moto, few_to_sequential, seven_to_moto,
  seven_to_sequential, sequential_to_moto, moto_to_sequential, no_doubles, at,
}

-- From axis `mpi` on there are `n` valid ones among the eight.
abbrev pub HasValid : CtrlGroup → ℕ → ℕ → Type 0
HasValid g zero mpi = Unit
HasValid g (suc n) mpi =
    (m : ℕ) × (next_valid g 8 mpi ≡ some m) × (mpi ≤ m) × (m < 8) × HasValid g n (m + 1)

module _ (g : CtrlGroup) (ros : List Double) where
  to_moto-step :
      (n rpi mpi m : ℕ) (moto : List Double)
      → next_valid g 8 mpi ≡ some m
      → few_to_moto g (suc n) rpi mpi ros moto
        ≡ few_to_moto g n (rpi + 1) (m + 1) ros (set moto m (at ros rpi))
  to_moto-step n rpi mpi m moto e =
      unfold few_to_moto in
      ap
        (λ (o : Option ℕ). elim o as (λ x. List Double) [
          | none ↦ moto
          | some k ↦ few_to_moto g n (rpi + 1) (k + 1) ros (set moto k (at ros rpi))
        ])
        e

  pub to_sequential-step :
      (n rpi mpi m : ℕ) (moto old : List Double)
      → next_valid g 8 mpi ≡ some m
      → few_to_sequential g (suc n) rpi mpi moto old
        ≡ few_to_sequential g n (rpi + 1) (m + 1) moto (set old rpi (at moto m))
  to_sequential-step n rpi mpi m moto old e =
      unfold few_to_sequential in
      ap
        (λ (o : Option ℕ). elim o as (λ x. List Double) [
          | none ↦ old
          | some k ↦ few_to_sequential g n (rpi + 1) (k + 1) moto (set old rpi (at moto k))
        ])
        e

  -- The conversion to the controller's order leaves what stands before axis `mpi`.
  few_to_moto-at :
      (n rpi mpi k : ℕ) (moto : List Double)
      → HasValid g n mpi
      → k < mpi
      → at (few_to_moto g n rpi mpi ros moto) k ≡ at moto k
  few_to_moto-at zero rpi mpi k moto h l = unfold few_to_moto in refl
  few_to_moto-at (suc n) rpi mpi k moto (m, e, a, b, h) l = rw (to_moto-step n rpi mpi m moto e) (
      few_to_moto-at n (rpi + 1) (m + 1) k (set moto m (at ros rpi)) h (omega arith)
      ∙ get_or-set_ne moto m k (at ros rpi) 0 (omega arith))

  pub few_to_sequential-at :
      (n rpi mpi k : ℕ) (moto old : List Double)
      → HasValid g n mpi
      → k < rpi
      → at (few_to_sequential g n rpi mpi moto old) k ≡ at old k
  few_to_sequential-at zero rpi mpi k moto old h l = unfold few_to_sequential in refl
  few_to_sequential-at (suc n) rpi mpi k moto old (m, e, a, b, h) l =
      rw (to_sequential-step n rpi mpi m moto old e) (
        few_to_sequential-at n (rpi + 1) (m + 1) k moto (set old rpi (at moto m)) h (omega arith)
        ∙ get_or-set_ne old rpi k (at moto m) 0 (omega arith))

  few_back :
      (n rpi mpi j : ℕ) (moto old : List Double)
      → HasValid g n mpi
      → length moto ≡ 8
      → rpi + n ≤ length old
      → rpi ≤ j
      → j < rpi + n
      → at (few_to_sequential g n rpi mpi (few_to_moto g n rpi mpi ros moto) old) j ≡ at ros j
  few_back zero rpi mpi j moto old h w k a b = absurd (omega arith)
  few_back (suc n) rpi mpi j moto old (m, e, c, d, h) w k a b =
      let next = set moto m (at ros rpi) in
      let moved = few_to_moto g n (rpi + 1) (m + 1) ros next in
      let read = set old rpi (at moved m) in
      rw (to_moto-step n rpi mpi m moto e, to_sequential-step n rpi mpi m moved old e)
        (elim (ℕ_discrete j rpi) [
          | yes here ↦ rw here (
              few_to_sequential-at n (rpi + 1) (m + 1) rpi moved read h (omega arith)
              ∙ get_or-set_self old rpi (at moved m) 0 (omega arith)
              ∙ few_to_moto-at n (rpi + 1) (m + 1) m next h (omega arith)
              ∙ get_or-set_self moto m (at ros rpi) 0 (omega arith))
          | no later ↦
              few_back n (rpi + 1) (m + 1) j next read h (length-set moto m (at ros rpi) ∙ w)
                (omega (arith, length-set old rpi (at moved m))) (omega arith) (omega arith)
        ])

  seven_values :
      (j : ℕ) (more : List Double)
      → j < 7
      → at (at ros 0 ∷ at ros 1 ∷ at ros 2 ∷ at ros 3 ∷ at ros 4 ∷ at ros 5 ∷ at ros 6 ∷ more) j
        ≡ at ros j
  seven_values zero more h = refl
  seven_values (suc zero) more h = refl
  seven_values (suc (suc zero)) more h = refl
  seven_values (suc (suc (suc zero))) more h = refl
  seven_values (suc (suc (suc (suc zero)))) more h = refl
  seven_values (suc (suc (suc (suc (suc zero))))) more h = refl
  seven_values (suc (suc (suc (suc (suc (suc zero)))))) more h = refl
  seven_values (suc (suc (suc (suc (suc (suc (suc j))))))) more h = absurd (omega arith)

  seven_back :
      (j : ℕ) (old : List Double)
      → length old ≡ 8
      → j < 7
      → at (seven_to_sequential 7 0 (seven_to_moto 7 0 ros no_doubles) old) j ≡ at ros j
  unfolding seven_to_sequential seven_to_moto
  seven_back j (a ∷ b ∷ c ∷ d ∷ e ∷ f ∷ x ∷ more) w l = seven_values j more l
  seven_back j [] w l = absurd (omega arith)
  seven_back j (a ∷ []) w l = absurd (omega arith)
  seven_back j (a ∷ b ∷ []) w l = absurd (omega arith)
  seven_back j (a ∷ b ∷ c ∷ []) w l = absurd (omega arith)
  seven_back j (a ∷ b ∷ c ∷ d ∷ []) w l = absurd (omega arith)
  seven_back j (a ∷ b ∷ c ∷ d ∷ e ∷ []) w l = absurd (omega arith)
  seven_back j (a ∷ b ∷ c ∷ d ∷ e ∷ f ∷ []) w l = absurd (omega arith)

-- A robot of fewer than six axes that has as many valid axes as it says, or of six or more: the
-- values of a trajectory point, put into the order of the controller and back into an array of
-- eight, are those of the point, for every axis.
pub moto_to_sequential-sequential_to_moto :
    (ids : GroupIds) (g : CtrlGroup) (ros old : List Double) (j : ℕ)
    → is_robot ids g ≡ true
    → g.num_axes ≤ 8
    → (6 ≤ g.num_axes) ⊎ HasValid g g.num_axes 0
    → length old ≡ 8
    → j < g.num_axes
    → at (moto_to_sequential ids g (sequential_to_moto ids g ros) old) j ≡ at ros j
unfolding moto_to_sequential sequential_to_moto
moto_to_sequential-sequential_to_moto ids g ros old j robot most valid w l =
    elim (ℕ_discrete g.num_axes 7) [
      | yes seven ↦ rw (robot, seven) (seven_back g ros j old w (omega arith))
      | no other ↦
          let not_seven : (g.num_axes == 7) ≡ false = ground arith in
          elim valid [
            | inl many ↦
                let not_few : ltb g.num_axes 6 ≡ false = ground arith in
                rw (robot, not_seven, not_few) refl
            | inr few ↦ elim (Bool-cases (ltb g.num_axes 6)) [
              | inr large ↦ rw (robot, not_seven, large) refl
              | inl small ↦
                  rw (robot, not_seven, small)
                    (few_back g ros g.num_axes 0 0 j no_doubles old few refl (omega arith)
                      (omega arith) (omega arith))
            ]
          ]
    ]
