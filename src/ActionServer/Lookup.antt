-- ===== src/ActionServer/Lookup.antt =====
-- What Ros_ActionServer_FJT_Parse_GoalPosTolerances and
-- Ros_ActionServer_FJT_Reorder_TrajPt_To_Internal_Order of src/ActionServer_FJT.c store for a joint,
-- against a search for the last setting.
use motoros.Prelude.{
  ℕ, suc, ◌<◌, ◌≡◌, ◌≢◌, refl, ap, ◌∙◌, Bool, true, false, Option, none, some, List, [], ◌∷◌, arith,
  length, length-set, get_or, get_or-set_self, get_or-set_ne, ◌==◌, Bool-cases, inl, inr,
  if◌then◌else◌,
}
use motoros.Data.{Double}
use motoros.ActionServer.Tolerance.{
  Name, JointTolerance, index_of, set_at, store_tolerances, store_positions,
}

-- Whether a setting is for joint `i`
abbrev pub is_for : Option ℕ → ℕ → Bool
is_for none i = false
is_for (some j) i = j == i

abbrev pub or_else {ℓ} : {A : Type ℓ} → Option A → A → A
or_else none x = x
or_else (some y) x = y

abbrev pub first_of {ℓ} : {A : Type ℓ} → Option A → Option A → Option A
first_of (some x) o = some x
first_of none o = o

-- The last tolerance that names joint `i`
unfoldable pub last_tolerance : List Name → List JointTolerance → ℕ → Option Double
last_tolerance names [] i = none
last_tolerance names (t ∷ ts) i =
    first_of (last_tolerance names ts i)
      (if is_for (index_of t.name names 0) i then some t.position else none)

-- The position of the last joint of the trajectory, from joint `k` on, that is joint `i`
unfoldable pub last_position : List Name → List Double → List Name → ℕ → ℕ → Option Double
last_position internal positions [] k i = none
last_position internal positions (n ∷ ns) k i =
    first_of (last_position internal positions ns (suc k) i)
      (if is_for (index_of n internal 0) i then some (get_or positions k 0) else none)

length-set_at : (o : Option ℕ) (x : Double) (xs : List Double) → length (set_at o x xs) ≡ length xs
length-set_at none x xs = refl
length-set_at (some i) x xs = length-set xs i x

get_or-set_at :
    (o : Option ℕ) (x : Double) (xs : List Double) (i : ℕ)
    → i < length xs
    → get_or (set_at o x xs) i 0 ≡ (if is_for o i then x else get_or xs i 0)
get_or-set_at none x xs i h = refl
get_or-set_at (some j) x xs i h = elim (Bool-cases (j == i)) [
  | inl same ↦ let e : j ≡ i = ground arith in rw (same, e) (get_or-set_self xs i x 0 h)
  | inr other ↦ let e : j ≢ i = λ (q : j ≡ i). ground arith in rw other (get_or-set_ne xs j i x 0 e)
]

pick :
    (o : Option Double) (b : Bool) (x y : Double)
    → or_else o (if b then x else y) ≡ or_else (first_of o (if b then some x else none)) y
pick none true x y = refl
pick none false x y = refl
pick (some z) b x y = refl

pub get_or-store_tolerances :
    (names : List Name) (ts : List JointTolerance) (out : List Double) (i : ℕ)
    → i < length out
    → get_or (store_tolerances names ts out) i 0
      ≡ or_else (last_tolerance names ts i) (get_or out i 0)
unfolding store_tolerances last_tolerance
get_or-store_tolerances names [] out i h = refl
get_or-store_tolerances names (t ∷ ts) out i h =
    let o = index_of t.name names 0 in
    get_or-store_tolerances names ts (set_at o t.position out) i
      (omega (arith, length-set_at o t.position out))
    ∙ ap (λ (x : Double). or_else (last_tolerance names ts i) x)
        (get_or-set_at o t.position out i h)
    ∙ pick (last_tolerance names ts i) (is_for o i) t.position (get_or out i 0)

pub get_or-store_positions :
    (internal : List Name) (positions : List Double) (ns : List Name) (k : ℕ) (out : List Double)
    (i : ℕ)
    → i < length out
    → get_or (store_positions internal positions ns k out) i 0
      ≡ or_else (last_position internal positions ns k i) (get_or out i 0)
unfolding store_positions last_position
get_or-store_positions internal positions [] k out i h = refl
get_or-store_positions internal positions (n ∷ ns) k out i h =
    let o = index_of n internal 0 in
    let x = get_or positions k 0 in
    get_or-store_positions internal positions ns (suc k) (set_at o x out) i
      (omega (arith, length-set_at o x out))
    ∙ ap (λ (y : Double). or_else (last_position internal positions ns (suc k) i) y)
        (get_or-set_at o x out i h)
    ∙ pick (last_position internal positions ns (suc k) i) (is_for o i) x (get_or out i 0)
