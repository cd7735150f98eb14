-- ===== src/Position/Gathered.antt =====
-- The message of all groups, filled one group behind the other: src/PositionMonitor.c.
use motoros.Prelude.{
  ℕ, zero, suc, ◌+◌, ◌<◌, ◌≡◌, refl, sym, ap, ◌∙◌, some, List, [], ◌∷◌, ◌++◌, map, get_elem?,
  get_or, length, arith, get_or-append_left, get_or-append_right,
}
use motoros.Data.{Double, CtrlGroup}
use motoros.CtrlGroup.{GroupIds, at}
use motoros.CtrlGroup.Names.{Name}
use motoros.Position.{names_from, group_joint_names, all_joint_names}
use motoros.Position.Location.{JointValues, copy, copy_values}
use motoros.Position.Copied.{copy_all, offset, total, copy_all-at}

-- How many joints the groups before group `i` have, and how many all have
abbrev pub first_joint : List CtrlGroup → ℕ → ℕ
first_joint [] i = 0
first_joint (g ∷ gs) zero = 0
first_joint (g ∷ gs) (suc i) = g.num_axes + first_joint gs i

abbrev pub joint_count : List CtrlGroup → ℕ
joint_count [] = 0
joint_count (g ∷ gs) = g.num_axes + joint_count gs

-- The message with the values of the groups one behind the other, from entry `n` on
abbrev pub gather : JointValues → ℕ → List CtrlGroup → List JointValues → JointValues
gather all n [] vs = all
gather all n (g ∷ gs) [] = all
gather all n (g ∷ gs) (v ∷ vs) = gather (copy_values all n v) (n + g.num_axes) gs vs

-- One array of a message
pub record IsPart (part : JointValues → List Double) : Type 0 where
  pub part-copy_values :
      (all v : JointValues) (n : ℕ) → part (copy_values all n v) ≡ copy (part all) n (part v)

-- The array has an entry for each axis.
abbrev pub HasAxes : (JointValues → List Double) → List CtrlGroup → List JointValues → Type 0
HasAxes part [] vs = Unit
HasAxes part (g ∷ gs) [] = ⊥
HasAxes part (g ∷ gs) (v ∷ vs) = (length (part v) ≡ g.num_axes) × HasAxes part gs vs

module _ (part : JointValues → List Double) where
  gather-copy_all :
      (all : JointValues) (n : ℕ) (gs : List CtrlGroup) (vs : List JointValues)
      → IsPart part
      → HasAxes part gs vs
      → length vs ≡ length gs
      → part (gather all n gs vs) ≡ copy_all (part all) n (map part vs)
  gather-copy_all all n [] [] p h w = refl
  gather-copy_all all n [] (v ∷ vs) p h w = absurd (omega (arith, w))
  gather-copy_all all n (g ∷ gs) [] p h w = absurd h
  gather-copy_all all n (g ∷ gs) (v ∷ vs) p (here, rest) w =
      gather-copy_all (copy_values all n v) (n + g.num_axes) gs vs p rest (omega (arith, w))
      ∙ ap (λ (xs : List Double). copy_all xs (n + g.num_axes) (map part vs))
          (p.part-copy_values all v n)
      ∙ ap (λ (m : ℕ). copy_all (copy (part all) n (part v)) (n + m) (map part vs)) (sym here)

  offset-first_joint :
      (gs : List CtrlGroup) (vs : List JointValues) (i : ℕ)
      → HasAxes part gs vs
      → length vs ≡ length gs
      → offset (map part vs) i ≡ first_joint gs i
  offset-first_joint [] [] i h w = refl
  offset-first_joint [] (v ∷ vs) i h w = absurd (omega (arith, w))
  offset-first_joint (g ∷ gs) [] i h w = absurd h
  offset-first_joint (g ∷ gs) (v ∷ vs) zero h w = refl
  offset-first_joint (g ∷ gs) (v ∷ vs) (suc i) (here, rest) w =
      omega (arith, here, offset-first_joint gs vs i rest (omega (arith, w)))

  total-joint_count :
      (gs : List CtrlGroup) (vs : List JointValues)
      → HasAxes part gs vs
      → length vs ≡ length gs
      → total (map part vs) ≡ joint_count gs
  total-joint_count [] [] h w = refl
  total-joint_count [] (v ∷ vs) h w = absurd (omega (arith, w))
  total-joint_count (g ∷ gs) [] h w = absurd h
  total-joint_count (g ∷ gs) (v ∷ vs) (here, rest) w =
      omega (arith, here, total-joint_count gs vs rest (omega (arith, w)))

  get_elem?-map-part :
      (vs : List JointValues) (i : ℕ) {v : JointValues}
      → get_elem? vs i ≡ some v
      → get_elem? (map part vs) i ≡ some (part v)
  get_elem?-map-part [] i e = absurd (cc e)
  get_elem?-map-part (v ∷ vs) zero {v = x} e =
      let same : v ≡ x = cc e in ap (λ (y : JointValues). some (part y)) same
  get_elem?-map-part (v ∷ vs) (suc i) e = get_elem?-map-part vs i e

  HasAxes-at :
      (gs : List CtrlGroup) (vs : List JointValues) (i : ℕ) {g : CtrlGroup} {v : JointValues}
      → HasAxes part gs vs
      → get_elem? gs i ≡ some g
      → get_elem? vs i ≡ some v
      → length (part v) ≡ g.num_axes
  HasAxes-at [] vs i h e f = absurd (cc e)
  HasAxes-at (g ∷ gs) [] i h e f = absurd h
  HasAxes-at (g ∷ gs) (v ∷ vs) zero {g = g1} {v = v1} (here, rest) e f =
      let same_g : g ≡ g1 = cc e in
      let same_v : v ≡ v1 = cc f in
      ap (λ (y : JointValues). length (part y)) (sym same_v)
      ∙ here
      ∙ ap (λ (y : CtrlGroup). y.num_axes) same_g
  HasAxes-at (g ∷ gs) (v ∷ vs) (suc i) (here, rest) e f = HasAxes-at gs vs i rest e f

  -- The array of the message of all groups holds at the places of a group what its own message holds.
  pub gather-at :
      (all : JointValues) (gs : List CtrlGroup) (vs : List JointValues) (i k : ℕ) {g : CtrlGroup}
      {v : JointValues}
      → IsPart part
      → HasAxes part gs vs
      → length vs ≡ length gs
      → length (part all) ≡ joint_count gs
      → get_elem? gs i ≡ some g
      → get_elem? vs i ≡ some v
      → k < g.num_axes
      → at (part (gather all 0 gs vs)) (first_joint gs i + k) ≡ at (part v) k
  gather-at all gs vs i k {g} {v} p h w room e f l =
      let axes = HasAxes-at gs vs i h e f in
      let start = offset-first_joint gs vs i h w in
      let placed : offset (map part vs) i + k ≡ 0 + (offset (map part vs) i + k) = omega arith in
      ap (λ (xs : List Double). at xs (first_joint gs i + k)) (gather-copy_all all 0 gs vs p h w)
      ∙ ap (λ (m : ℕ). at (copy_all (part all) 0 (map part vs)) (m + k)) (sym start)
      ∙ ap (at (copy_all (part all) 0 (map part vs))) placed
      ∙ copy_all-at (part all) 0 (map part vs) i k
          (omega (arith, room, total-joint_count gs vs h w)) (get_elem?-map-part vs i f)
          (omega (arith, axes, l))

module _ (ids : GroupIds) (names : List Name) where
  length-names_from : (g : CtrlGroup) (s n j : ℕ) → length (names_from ids names g s n j) ≡ n
  unfolding names_from
  length-names_from g s zero j = refl
  length-names_from g s (suc n) j = ap suc (length-names_from g s n (j + 1))

  length-group_joint_names :
      (s : ℕ) (g : CtrlGroup) → length (group_joint_names ids names s g) ≡ g.num_axes
  unfolding group_joint_names
  length-group_joint_names s g = length-names_from g s g.num_axes 0

  -- The names of the message of all groups at the places of a group are those of its own message.
  pub all_joint_names-at :
      (gs : List CtrlGroup) (s i k : ℕ) {g : CtrlGroup}
      → get_elem? gs i ≡ some g
      → k < g.num_axes
      → get_or (all_joint_names ids names s gs) (first_joint gs i + k) []
        ≡ get_or (group_joint_names ids names (s + i) g) k []
  unfolding all_joint_names
  all_joint_names-at [] s i k e l = absurd (cc e)
  all_joint_names-at (x ∷ gs) s zero k {g} e l =
      let same : x ≡ g = cc e in
      let own = group_joint_names ids names s x in
      let here : s ≡ s + 0 = omega arith in
      let first : 0 + k ≡ k = omega arith in
      ap (λ (j : ℕ). get_or (own ++ all_joint_names ids names (s + 1) gs) j []) first
      ∙ get_or-append_left own (all_joint_names ids names (s + 1) gs) k []
          (omega (arith, length-group_joint_names s x, ap (λ (y : CtrlGroup). y.num_axes) same, l))
      ∙ ap (λ (y : CtrlGroup). get_or (group_joint_names ids names s y) k []) same
      ∙ ap (λ (m : ℕ). get_or (group_joint_names ids names m g) k []) here
  all_joint_names-at (x ∷ gs) s (suc i) k {g} e l =
      let own = group_joint_names ids names s x in
      let later = all_joint_names ids names (s + 1) gs in
      let there : (x.num_axes + first_joint gs i) + k ≡ length own + (first_joint gs i + k) =
        omega (arith, length-group_joint_names s x) in
      let next : (s + 1) + i ≡ s + suc i = omega arith in
      ap (λ (m : ℕ). get_or (own ++ later) m []) there
      ∙ get_or-append_right own later (first_joint gs i + k) []
      ∙ all_joint_names-at gs (s + 1) i k e l
      ∙ ap (λ (m : ℕ). get_or (group_joint_names ids names m g) k []) next
