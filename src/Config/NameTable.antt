-- ===== src/Config/NameTable.antt =====
-- The table that the names of the joints are written to: joint_names of src/ConfigFile.h, as
-- Ros_ConfigFile_CheckYamlEvent of src/ConfigFile.c fills it.
use motoros.Prelude.{
  ℕ, zero, suc, ◌+◌, ◌*◌, ◌≤◌, ◌<◌, ◌≡◌, ◌≢◌, refl, ap, ◌∙◌, some, List, [], ◌∷◌, length, set,
  get_or, get_elem?, length-set, get_or-set_self, get_or-set_ne, arith,
}
use motoros.Config.Yaml.{write_name}

-- A name is not empty and fits an entry with the zero behind it, and a group has at most eight.
abbrev pub AllNamed : List (List ℕ) → Type 0
AllNamed [] = Unit
AllNamed (n ∷ ns) = (n ≢ []) × (length n < 32) × AllNamed ns

abbrev pub AllGroups : List (List (List ℕ)) → Type 0
AllGroups [] = Unit
AllGroups (g ∷ gs) = AllNamed g × (length g ≤ 8) × AllGroups gs

-- The names written one behind the other, and the groups eight entries apart
abbrev pub put_names : ℕ → List (List ℕ) → List (List ℕ) → List (List ℕ)
put_names k [] js = js
put_names k (n ∷ ns) js = put_names (k + 1) ns (write_name k n js)

abbrev pub put_groups : ℕ → List (List (List ℕ)) → List (List ℕ) → List (List ℕ)
put_groups k [] js = js
put_groups k (g ∷ gs) js = put_groups (k + 8) gs (put_names k g js)

length-write_name :
    (k : ℕ) (n : List ℕ) (js : List (List ℕ)) → length (write_name k n js) ≡ length js
length-write_name k n js =
    let a = set js k n in
    let b = set a (k + 1) [] in
    let c = set b (k + 2) [] in
    length-set c (k + 3) [] ∙ length-set b (k + 2) [] ∙ length-set a (k + 1) [] ∙ length-set js k n

module _ (k : ℕ) (n : List ℕ) (js : List (List ℕ)) where
  write_name-tail : (j : ℕ) → j ≤ k → get_or (write_name k n js) j [] ≡ get_or (set js k n) j []
  write_name-tail j h =
      let a = set js k n in
      let b = set a (k + 1) [] in
      let c = set b (k + 2) [] in
      get_or-set_ne c (k + 3) j [] [] (λ e. omega (arith, e, h))
      ∙ get_or-set_ne b (k + 2) j [] [] (λ e. omega (arith, e, h))
      ∙ get_or-set_ne a (k + 1) j [] [] (λ e. omega (arith, e, h))

  write_name-before : (j : ℕ) → j < k → get_or (write_name k n js) j [] ≡ get_or js j []
  write_name-before j h =
      write_name-tail j (omega arith) ∙ get_or-set_ne js k j n [] (λ e. omega (arith, e, h))

  write_name-at : k < length js → get_or (write_name k n js) k [] ≡ n
  write_name-at h = write_name-tail k (omega arith) ∙ get_or-set_self js k n [] h

put_names-before :
    (k : ℕ) (ns js : List (List ℕ)) (j : ℕ)
    → j < k
    → get_or (put_names k ns js) j [] ≡ get_or js j []
put_names-before k [] js j h = refl
put_names-before k (n ∷ ns) js j h =
    put_names-before (k + 1) ns (write_name k n js) j (omega arith) ∙ write_name-before k n js j h

length-put_names : (k : ℕ) (ns js : List (List ℕ)) → length (put_names k ns js) ≡ length js
length-put_names k [] js = refl
length-put_names k (n ∷ ns) js =
    length-put_names (k + 1) ns (write_name k n js) ∙ length-write_name k n js

-- The name `i` of a list that is written from the entry `k` on stands in its place.
put_names-at :
    (k : ℕ) (ns js : List (List ℕ)) (i : ℕ) {name : List ℕ}
    → k + length ns ≤ length js
    → get_elem? ns i ≡ some name
    → get_or (put_names k ns js) (k + i) [] ≡ name
put_names-at k [] js i h e = absurd (cc e)
put_names-at k (n ∷ ns) js zero {name} h e =
    let here : k + 0 ≡ k = omega arith in
    ap (λ (j : ℕ). get_or (put_names (k + 1) ns (write_name k n js)) j []) here
    ∙ put_names-before (k + 1) ns (write_name k n js) k (omega arith)
    ∙ write_name-at k n js (omega arith)
    ∙ cc e
put_names-at k (n ∷ ns) js (suc i) h e =
    let there : k + suc i ≡ (k + 1) + i = omega arith in
    ap (λ (j : ℕ). get_or (put_names (k + 1) ns (write_name k n js)) j []) there
    ∙ put_names-at (k + 1) ns (write_name k n js) i (omega (arith, length-write_name k n js)) e

put_groups-before :
    (k : ℕ) (gs : List (List (List ℕ))) (js : List (List ℕ)) (j : ℕ)
    → j < k
    → get_or (put_groups k gs js) j [] ≡ get_or js j []
put_groups-before k [] js j h = refl
put_groups-before k (g ∷ gs) js j h =
    put_groups-before (k + 8) gs (put_names k g js) j (omega arith) ∙ put_names-before k g js j h

-- A name `i` of a list has a number below its length.
get_elem?-length :
    (ns : List (List ℕ)) (i : ℕ) {name : List ℕ} → get_elem? ns i ≡ some name → i < length ns
get_elem?-length [] i e = absurd (cc e)
get_elem?-length (n ∷ ns) zero e = omega arith
get_elem?-length (n ∷ ns) (suc i) e = omega (arith, get_elem?-length ns i e)

pub put_groups-at :
    (k : ℕ) (gs : List (List (List ℕ))) (js : List (List ℕ)) (g i : ℕ) {names : List (List ℕ)}
    {name : List ℕ}
    → AllGroups gs
    → k + 8 * length gs ≤ length js
    → get_elem? gs g ≡ some names
    → get_elem? names i ≡ some name
    → get_or (put_groups k gs js) (k + (8 * g + i)) [] ≡ name
put_groups-at k [] js g i all h e f = absurd (cc e)
put_groups-at k (ns ∷ gs) js zero i {names} {name} all h e f =
    let same : get_elem? ns i ≡ some name = cc (e, f) in
    let here : k + (8 * 0 + i) ≡ k + i = omega arith in
    ap (λ (j : ℕ). get_or (put_groups (k + 8) gs (put_names k ns js)) j []) here
    ∙ put_groups-before (k + 8) gs (put_names k ns js) (k + i)
        (omega (arith, get_elem?-length ns i same, all.1))
    ∙ put_names-at k ns js i (omega (arith, all.1)) same
put_groups-at k (ns ∷ gs) js (suc g) i all h e f =
    let there : k + (8 * suc g + i) ≡ (k + 8) + (8 * g + i) = omega arith in
    ap (λ (j : ℕ). get_or (put_groups (k + 8) gs (put_names k ns js)) j []) there
    ∙ put_groups-at (k + 8) gs (put_names k ns js) g i all.2
        (omega (arith, length-put_names k ns js)) e f
