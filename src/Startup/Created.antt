-- ===== src/Startup/Created.antt =====
-- How the initialization of the controller ends: src/ControllerStatusIO.c, Ros_Controller_Initialize.
use motoros.Prelude.{
  ℕ, zero, suc, ◌+◌, ◌≤◌, ◌<◌, ◌≡◌, ◌≢◌, ◌⊎◌, if◌then◌else◌, refl, pos, Bool, true, false, Option,
  none, some, List, [], ◌∷◌, ◌==◌, ltb_ℤ, pos_part, length, arith, Bool-cases, inl, inr,
}
use native.Mathlib.Decide.{ℕ_discrete}
use motoros.Data.{Coord, CtrlGroup, Controller}
use motoros.CtrlGroup.Names.{Name, joint_names_in_moto_order}
use motoros.Platform.{Platform, World}
use motoros.Startup.{Parameters, new_group}
use motoros.Startup.Initialize.{
  CalibData, names_for, set_calibration, all_made, count_axes, Making, halted, made, make_first,
  name_then, at_start, make_groups, place_at, calibrate, is_calibrated, load_calibration,
}
use motoros.Startup.Fresh.{
  IsFresh, IsFresh-placed, can_create, new_group-IsFresh, create_group-some, create_group-none,
}

-- The axes of `n` groups, from group `i` on
abbrev pub axes_from : Parameters → ℕ → ℕ → ℕ
axes_from m zero i = 0
axes_from m (suc n) i = pos_part (m.axis_count i) + axes_from m n (i + 1)

abbrev pub AllFresh : Parameters → ℕ → List CtrlGroup → Type 0
AllFresh m i [] = Unit
AllFresh m i (g ∷ gs) = IsFresh m i g × AllFresh m (i + 1) gs

-- The list is that of `n` groups from group `i` on.
abbrev pub AreGroups : Parameters → ℕ → ℕ → List CtrlGroup → Type 0
AreGroups m n i gs = (length gs ≡ n) × (count_axes gs ≡ axes_from m n i) × AllFresh m i gs

module _ (m : Parameters) where
  set_calibration-AreGroups :
      (k : ℕ) (place : Coord) (n i : ℕ) (gs : List CtrlGroup)
      → AreGroups m n i gs
      → AreGroups m n i (set_calibration k place gs)
  unfolding set_calibration count_axes
  set_calibration-AreGroups k place n i [] h = h
  set_calibration-AreGroups zero place n i (g ∷ gs) (l, c, (f, fs)) =
      (l, c, (IsFresh-placed m i g place f, fs))
  set_calibration-AreGroups (suc k) place zero i (g ∷ gs) (l, c, (f, fs)) =
      absurd (omega (arith, l))
  set_calibration-AreGroups (suc k) place (suc n) i (g ∷ gs) (l, c, (f, fs)) =
      let own : g.num_axes ≡ pos_part (m.axis_count i) = f.axes in
      let (l2, c2, fs2) =
        set_calibration-AreGroups k place n (i + 1) gs
          (omega (arith, l), omega (arith, c, own), fs) in
      (omega (arith, l2), omega (arith, c2, own), (f, fs2))

  module _ (p : Platform) where
    place_at-AreGroups :
        (read : ℕ → Option CalibData) (k : Option ℕ) (place : Coord) (n i : ℕ) (gs : List CtrlGroup)
        → AreGroups m n i gs
        → AreGroups m n i (place_at p m read k place gs)
    place_at-AreGroups read none place n i gs h = h
    place_at-AreGroups read (some k) place n i gs h = set_calibration-AreGroups k place n i gs h

    calibrate-AreGroups :
        (read : ℕ → Option CalibData) (d : CalibData) (n i : ℕ) (gs : List CtrlGroup)
        → AreGroups m n i gs
        → AreGroups m n i (calibrate p m read d gs)
    calibrate-AreGroups read d n i gs h = elim (Bool-cases (is_calibrated p.ids d)) [
      | inl robots ↦ rw robots (place_at-AreGroups read (m.group_number d.slave) d.place n i gs h)
      | inr others ↦ rw others h
    ]

    pub load_calibration-AreGroups :
        (read : ℕ → Option CalibData) (files file n i : ℕ) (gs : List CtrlGroup) (loaded : Bool)
        → AreGroups m n i gs
        → AreGroups m n i (load_calibration p m read files file gs loaded).0
    unfolding load_calibration
    load_calibration-AreGroups read zero file n i gs loaded h = h
    load_calibration-AreGroups read (suc files) file n i gs loaded h =
        elim (read file)
          as (λ o.
            AreGroups m n i
              (elim o as (λ x. List CtrlGroup × Bool) [
                | none ↦ load_calibration p m read files (file + 1) gs loaded
                | some d ↦ load_calibration p m read files (file + 1) (calibrate p m read d gs) true
              ]).0) [
                | none ↦ load_calibration-AreGroups read files (file + 1) n i gs loaded h
                | some d ↦
                    load_calibration-AreGroups read files (file + 1) n i (calibrate p m read d gs)
                      true (calibrate-AreGroups read d n i gs h)
              ]

    module _ (c : Controller) (total : ℕ) where
      abbrev made_group : ℕ → CtrlGroup
      made_group i = new_group p.ids m p.fpu c.model c.interpol_period (i + 1 == total) i

      -- A group among `n` from group `i` on cannot be created, or a name of one is missing.
      abbrev pub Refuses : ℕ → ℕ → Type 0
      Refuses n i = (k : ℕ) × (i ≤ k) × (k < i + n) × (can_create m p c.interpol_period k ≡ false)

      -- The names when group `i` is named: where none are configured, those of the groups that are
      -- created are set first.
      pub next_names : Bool → ℕ → List Name → List Name
      next_names default i names =
          if can_create m p c.interpol_period i
          then names_for default i (made_group i).num_axes names
          else names

      abbrev pub naming : Bool → ℕ → List Name → Option (List Name)
      naming default i names = joint_names_in_moto_order (next_names default i names) (made_group i)

      -- Of `n` groups from group `i` on, one that is created lacks a name.
      abbrev pub LacksName : Bool → ℕ → ℕ → List Name → Type 0
      LacksName default zero i names = ⊥
      LacksName default (suc n) i names =
          ((can_create m p c.interpol_period i ≡ true) × (naming default i names ≡ none))
          ⊎ LacksName default n (i + 1) (next_names default i names)

      -- None lacks a name.
      abbrev pub HaveNames : Bool → ℕ → ℕ → List Name → Type 0
      HaveNames default zero i names = Unit
      HaveNames default (suc n) i names =
          ((can_create m p c.interpol_period i ≡ false) ⊎ (naming default i names ≢ none))
          × HaveNames default n (i + 1) (next_names default i names)

      next_names-created :
          (default : Bool) (i : ℕ) (names : List Name)
          → can_create m p c.interpol_period i ≡ true
          → next_names default i names ≡ names_for default i (made_group i).num_axes names
      unfolding next_names
      next_names-created default i names own = rw own refl

      next_names-refused :
          (default : Bool) (i : ℕ) (names : List Name)
          → can_create m p c.interpol_period i ≡ false
          → next_names default i names ≡ names
      unfolding next_names
      next_names-refused default i names refused = rw refused refl

      abbrev pub AllCreated : ℕ → ℕ → Type 0
      AllCreated n i = (k : ℕ) → i ≤ k → k < i + n → can_create m p c.interpol_period k ≡ true

      abbrev pub AreMade : ℕ → ℕ → Option (List CtrlGroup) → Type 0
      AreMade n i none = Refuses n i
      AreMade n i (some gs) = AreGroups m n i gs × AllCreated n i

      -- How the loop ends
      abbrev pub IsMaking : Bool → ℕ → ℕ → List Name → Making p m → Type 0
      IsMaking default n i names (halted w) = LacksName default n i names
      IsMaking default n i names (made gs left w) =
          AreMade n i (all_made gs) × HaveNames default n i names

      AreMade-first :
          (n i : ℕ) (g : CtrlGroup) (o : Option (List CtrlGroup))
          → IsFresh m i g
          → can_create m p c.interpol_period i ≡ true
          → AreMade n (i + 1) o
          → AreMade (suc n) i (elim o [ none ↦ none | some rest ↦ some (g ∷ rest) ])
      unfolding count_axes
      AreMade-first n i g none f own (k, lo, hi, bad) = (k, omega arith, omega arith, bad)
      AreMade-first n i g (some gs) f own ((l, a, fs), all) =
          let axes : g.num_axes ≡ pos_part (m.axis_count i) = f.axes in
          (
            (omega (arith, l), omega (arith, a, axes), (f, fs)),
            λ k lo hi. elim (ℕ_discrete k i) [
              | yes here ↦ rw here own
              | no later ↦ all k (omega (arith, later, lo)) (omega arith)
            ],
          )

      -- The loop with the first group created
      make_first-IsMaking :
          (default : Bool) (n i : ℕ) (names : List Name) (g : CtrlGroup) (rest : Making p m)
          → IsFresh m i g
          → can_create m p c.interpol_period i ≡ true
          → naming default i names ≢ none
          → IsMaking default n (i + 1) (next_names default i names) rest
          → IsMaking default (suc n) i names (make_first p m (some g) rest)
      unfolding all_made
      make_first-IsMaking default n i names g (halted w) f own named h = inr h
      make_first-IsMaking default n i names g (made gs left w) f own named (h, all) =
          (AreMade-first n i g (all_made gs) f own h, (inr named, all))

      -- The loop with the first group not created
      skip-IsMaking :
          (default : Bool) (n i : ℕ) (names : List Name) (rest : Making p m)
          → can_create m p c.interpol_period i ≡ false
          → IsMaking default n (i + 1) (next_names default i names) rest
          → IsMaking default (suc n) i names (make_first p m none rest)
      unfolding all_made
      skip-IsMaking default n i names (halted w) refused h = inr h
      skip-IsMaking default n i names (made gs left w) refused (h, all) =
          ((i, omega arith, omega arith, refused), (inl refused, all))

      name_then-IsMaking :
          (default : Bool) (n i : ℕ) (w : World p) (names : List Name) (rest : Making p m)
          (o : Option (List Name))
          → naming default i names ≡ o
          → can_create m p c.interpol_period i ≡ true
          → ltb_ℤ (pos 0) (m.axis_count i) ≡ true
          → IsMaking default n (i + 1) (next_names default i names) rest
          → IsMaking default
              (suc n)
              i
              names
              (name_then p m (at_start p m (made_group i) w) w rest o)
      name_then-IsMaking default n i w names rest none e own some_axes h = inl (own, e)
      name_then-IsMaking default n i w names rest (some given) e own some_axes h =
          make_first-IsMaking default n i names _ rest
            (new_group-IsFresh m p c.model c.interpol_period (i + 1 == total) i w given some_axes)
            own (λ missing. cc (e, missing)) h

      pub make_groups-IsMaking :
          (default : Bool) (n i : ℕ) (names : List Name) (w : World p)
          → IsMaking default n i names (make_groups p m c default total n i names w)
      unfolding make_groups count_axes all_made
      make_groups-IsMaking default zero i names w =
          (((refl, refl, tt), λ k lo hi. absurd (omega arith)), tt)
      make_groups-IsMaking default (suc n) i names w =
          elim (Bool-cases (can_create m p c.interpol_period i)) [
            | inl own ↦
                let g = made_group i in
                let named = next_names default i names in
                rw
                  (
                    create_group-some m p c.model c.interpol_period (i + 1 == total) i w own,
                    ← next_names-created default i names own,
                  )
                  (name_then-IsMaking default n i w names
                    (make_groups p m c default total n (i + 1) named w)
                    (joint_names_in_moto_order named g) refl own (ground arith)
                    (make_groups-IsMaking default n (i + 1) named w))
            | inr refused ↦
                let (after, e) =
                  create_group-none m p c.model c.interpol_period (i + 1 == total) i w refused in
                let same = next_names-refused default i names refused in
                rw e (
                  skip-IsMaking default n i names
                    (make_groups p m c default total n (i + 1) names after) refused
                    (rw same (make_groups-IsMaking default n (i + 1) names after)))
          ]
