-- ===== src/Inform/Listed.antt =====
-- The groups that the header of a job lists: the end of Ros_InformChecker_CheckHeaderForGroupCombinations
-- of src/InformCheckerAndGenerator.c.
use motoros.Prelude.{
  ℕ, zero, suc, ◌≡◌, ◌↔◌, refl, sym, ap, ◌∙◌, ℤ, pos, Bool, true, ◌&&◌, ◌||◌, some, List, [], ◌∷◌,
  arith, eqb_ℤ, get_elem?, Bool-cases, inl, inr,
}
use motoros.Data.{CtrlGroup}
use motoros.Inform.Header.{is_listed, all_listed}

pub both : (a b : Bool) → (a && b) ≡ true → (a ≡ true) × (b ≡ true)
both a b e = ground (arith, e)

or_true : (b : Bool) → (b || true) ≡ true
or_true b = ground arith

eqb_ℤ→eq : (x y : ℤ) → eqb_ℤ x y ≡ true → x ≡ y
eqb_ℤ→eq x y e = ground (arith, e)

eqb_ℤ-self : (x y : ℤ) → x ≡ y → eqb_ℤ x y ≡ true
eqb_ℤ-self x y e = ground (arith, e)

-- Every group of the controller stands in the table.
abbrev pub AllInTable : List CtrlGroup → List ℤ → Type 0
AllInTable [] table = Unit
AllInTable (g ∷ gs) table =
    ((i : ℕ) × (get_elem? table i ≡ some (pos g.group_id))) × AllInTable gs table

is_listed-at :
    (g : ℕ) (table : List ℤ)
    → (is_listed g table ≡ true) ↔ ((i : ℕ) × (get_elem? table i ≡ some (pos g)))
unfolding is_listed
is_listed-at g [] = (λ e. absurd (cc e), λ h. absurd (cc h.1))
is_listed-at g (x ∷ xs) =
    let (out, back) = is_listed-at g xs in
    (
      λ e. elim (Bool-cases (eqb_ℤ x (pos g))) [
        | inl here ↦ (0, ap some (eqb_ℤ→eq x (pos g) here))
        | inr other ↦
            let (i, at) = out (sym (ap (λ (b : Bool). b || is_listed g xs) other) ∙ e) in
            (suc i, at)
      ],
      λ h. found h.0 h.1 back,
    )
  where
    found :
        (i : ℕ)
        → get_elem? (x ∷ xs) i ≡ some (pos g)
        → (((j : ℕ) × (get_elem? xs j ≡ some (pos g))) → is_listed g xs ≡ true)
        → (eqb_ℤ x (pos g) || is_listed g xs) ≡ true
    found zero e back = ap (λ (b : Bool). b || is_listed g xs) (eqb_ℤ-self x (pos g) (cc e))
    found (suc i) e back =
        ap (λ (b : Bool). eqb_ℤ x (pos g) || b) (back (i, e)) ∙ or_true (eqb_ℤ x (pos g))

pub all_listed-AllInTable :
    (gs : List CtrlGroup) (table : List ℤ) → (all_listed gs table ≡ true) ↔ AllInTable gs table
unfolding all_listed
all_listed-AllInTable [] table = (λ e. tt, λ h. refl)
all_listed-AllInTable (g ∷ gs) table =
    let (out, back) = is_listed-at g.group_id table in
    let (later, earlier) = all_listed-AllInTable gs table in
    (
      λ e.
          let (a, b) = both (is_listed g.group_id table) (all_listed gs table) e in
          (out a, later b),
      λ h. rw (back h.0, earlier h.1) refl,
    )
