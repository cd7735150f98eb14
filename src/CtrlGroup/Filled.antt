-- ===== src/CtrlGroup/Filled.antt =====
-- Which name an axis gets from Ros_CtrlGroup_UpdateJointNamesInMotoOrder (src/CtrlGroup.c).
use motoros.Prelude.{
  ℕ, zero, suc, ◌+◌, ◌≤◌, ◌<◌, ◌≡◌, refl, sym, ◌∙◌, Bool, true, false, Option, none, some, List, [],
  get_or, set, length, length-set, get_or-set_self, get_or-set_ne, arith, Bool-cases, inl, inr, leb,
}
use motoros.Data.{CtrlGroup}
use motoros.CtrlGroup.{is_invalid_axis, next_valid}
use motoros.CtrlGroup.Names.{Name, configured, is_no_name, unless, fill_names}

unless-some :
    (b : Bool) (o : Option (List Name)) {out : List Name} → unless b o ≡ some out → o ≡ some out
unless-some true o e = absurd (cc e)
unless-some false o e = e

module _ (names : List Name) (g : CtrlGroup) where
  -- The loop that stands at `axis` with the count `config` and ends with `out`
  abbrev pub Fills : ℕ → ℕ → List Name → Type 0
  Fills axis config out =
      (n : ℕ) × (before : List Name) × (n + axis ≡ 8)
      × (length before ≡ 8)
      × (fill_names names g n axis config before ≡ some out)

  fill_names-skip :
      (n axis config : ℕ) (before : List Name)
      → is_invalid_axis g axis ≡ true
      → fill_names names g (suc n) axis config before
        ≡ fill_names names g n (axis + 1) config before
  unfolding fill_names
  fill_names-skip n axis config before h = rw h refl

  fill_names-unless :
      (n axis config : ℕ) (before : List Name)
      → is_invalid_axis g axis ≡ false
      → fill_names names g (suc n) axis config before
        ≡ unless (is_no_name (configured names g.group_no config)) (
            fill_names names g n
              (axis + 1)
              (config + 1)
              (set before axis (configured names g.group_no config)))
  unfolding fill_names
  fill_names-unless n axis config before h = rw h refl

  fill_names-store :
      (n axis config : ℕ) (before : List Name) {out : List Name}
      → is_invalid_axis g axis ≡ false
      → fill_names names g (suc n) axis config before ≡ some out
      → fill_names names g n
          (axis + 1)
          (config + 1)
          (set before axis (configured names g.group_no config))
        ≡ some out
  fill_names-store n axis config before h e =
      unless-some (is_no_name (configured names g.group_no config))
        (fill_names names g n (axis + 1) (config + 1)
          (set before axis (configured names g.group_no config)))
        (sym (fill_names-unless n axis config before h) ∙ e)

  -- The names of the axes that the loop has passed stay.
  fill_names-before :
      (n axis config k : ℕ) (before : List Name) {out : List Name}
      → k < axis
      → fill_names names g n axis config before ≡ some out
      → get_or out k [] ≡ get_or before k []
  unfolding fill_names
  fill_names-before zero axis config k before l e = cc e
  fill_names-before (suc n) axis config k before l e = elim (Bool-cases (is_invalid_axis g axis)) [
    | inl invalid ↦
        fill_names-before n (axis + 1) config k before (omega arith)
          (sym (fill_names-skip n axis config before invalid) ∙ e)
    | inr valid ↦
        let name = configured names g.group_no config in
        fill_names-before n (axis + 1) (config + 1) k (set before axis name) (omega arith)
          (fill_names-store n axis config before valid e)
        ∙ get_or-set_ne before axis k name [] (λ same. omega (arith, same, l))
  ]

  pub fill_names-length :
      (n axis config : ℕ) (before : List Name) {out : List Name}
      → fill_names names g n axis config before ≡ some out
      → length out ≡ length before
  unfolding fill_names
  fill_names-length zero axis config before e = cc e
  fill_names-length (suc n) axis config before e = elim (Bool-cases (is_invalid_axis g axis)) [
    | inl invalid ↦
        fill_names-length n (axis + 1) config before
          (sym (fill_names-skip n axis config before invalid) ∙ e)
    | inr valid ↦
        let name = configured names g.group_no config in
        fill_names-length n (axis + 1) (config + 1) (set before axis name)
          (fill_names-store n axis config before valid e)
        ∙ length-set before axis name
  ]

  -- A valid axis gets the name that the count points at, and the count goes on.
  pub Fills-valid :
      (axis config : ℕ) {out : List Name}
      → axis < 8
      → is_invalid_axis g axis ≡ false
      → Fills axis config out
      → (get_or out axis [] ≡ configured names g.group_no config)
        × Fills (axis + 1) (config + 1) out
  Fills-valid axis config l valid (zero, before, e, w, f) = absurd (omega (arith, e, l))
  Fills-valid axis config l valid (suc n, before, e, w, f) =
      let name = configured names g.group_no config in
      let rest = fill_names-store n axis config before valid f in
      (
        fill_names-before n (axis + 1) (config + 1) axis (set before axis name) (omega arith) rest
            ∙ get_or-set_self before axis name [] (omega (arith, w, l)),
        (n, set before axis name, omega (arith, e), length-set before axis name ∙ w, rest),
      )

  Fills-invalid :
      (axis config : ℕ) {out : List Name}
      → axis < 8
      → is_invalid_axis g axis ≡ true
      → Fills axis config out
      → Fills (axis + 1) config out
  Fills-invalid axis config l invalid (zero, before, e, w, f) = absurd (omega (arith, e, l))
  Fills-invalid axis config l invalid (suc n, before, e, w, f) =
      (n, before, omega (arith, e), w, sym (fill_names-skip n axis config before invalid) ∙ f)

  next_valid-here :
      (fuel axis : ℕ) → is_invalid_axis g axis ≡ false → next_valid g (suc fuel) axis ≡ some axis
  unfolding next_valid
  next_valid-here fuel axis valid = rw valid refl

  next_valid-end :
      (fuel axis : ℕ)
      → is_invalid_axis g axis ≡ true
      → leb 8 (axis + 1) ≡ true
      → next_valid g (suc fuel) axis ≡ none
  unfolding next_valid
  next_valid-end fuel axis invalid end = rw (invalid, end) refl

  next_valid-on :
      (fuel axis : ℕ)
      → is_invalid_axis g axis ≡ true
      → leb 8 (axis + 1) ≡ false
      → next_valid g (suc fuel) axis ≡ next_valid g fuel (axis + 1)
  unfolding next_valid
  next_valid-on fuel axis invalid on = rw (invalid, on) refl

  next_valid-later :
      (fuel axis : ℕ) {m : ℕ}
      → is_invalid_axis g axis ≡ true
      → next_valid g (suc fuel) axis ≡ some m
      → next_valid g fuel (axis + 1) ≡ some m
  next_valid-later fuel axis invalid e = elim (Bool-cases (leb 8 (axis + 1))) [
    | inl end ↦ absurd (cc (e, next_valid-end fuel axis invalid end))
    | inr on ↦ sym (next_valid-on fuel axis invalid on) ∙ e
  ]

  next_valid-le : (fuel axis : ℕ) {m : ℕ} → next_valid g fuel axis ≡ some m → axis ≤ m
  unfolding next_valid
  next_valid-le zero axis e = absurd (cc e)
  next_valid-le (suc fuel) axis {m} e = elim (Bool-cases (is_invalid_axis g axis)) [
    | inl invalid ↦
        omega (arith, next_valid-le fuel (axis + 1) (next_valid-later fuel axis invalid e))
    | inr valid ↦
        let same : axis ≡ m = cc (e, next_valid-here fuel axis valid) in omega (arith, same)
  ]

  -- The next valid axis gets the name that the count points at.
  pub Fills-next :
      (fuel axis config m : ℕ) {out : List Name}
      → m < 8
      → next_valid g fuel axis ≡ some m
      → Fills axis config out
      → (get_or out m [] ≡ configured names g.group_no config) × Fills (m + 1) (config + 1) out
  unfolding next_valid
  Fills-next zero axis config m l e f = absurd (cc e)
  Fills-next (suc fuel) axis config m l e f = elim (Bool-cases (is_invalid_axis g axis)) [
    | inl invalid ↦
        Fills-next fuel (axis + 1) config m l (next_valid-later fuel axis invalid e)
          (Fills-invalid axis config (omega (arith, next_valid-le (suc fuel) axis e, l)) invalid f)
    | inr valid ↦
        let same : axis ≡ m = cc (e, next_valid-here fuel axis valid) in
        rw (sym same) (Fills-valid axis config (omega (arith, same, l)) valid f)
  ]
