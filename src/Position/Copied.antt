-- ===== src/Position/Copied.antt =====
-- Arrays of doubles that are copied one behind the other: the message of all groups of
-- src/PositionMonitor.c.
use motoros.Prelude.{
  ℕ, zero, suc, ◌+◌, ◌≤◌, ◌<◌, ◌≡◌, refl, ap, ◌∙◌, some, List, [], ◌∷◌, set, get_elem?, length,
  length-set, get_or-set_self, get_or-set_ne, arith,
}
use motoros.Data.{Double}
use motoros.CtrlGroup.{at}
use motoros.Position.Location.{firsts, copy}

pub length-firsts : (n i : ℕ) (xs : List Double) → length (firsts n i xs) ≡ n
unfolding firsts
length-firsts zero i xs = refl
length-firsts (suc n) i xs = ap suc (length-firsts n (i + 1) xs)

pub length-copy :
    (dest : List Double) (n : ℕ) (xs : List Double) → length (copy dest n xs) ≡ length dest
unfolding copy
length-copy dest n [] = refl
length-copy dest n (x ∷ xs) = length-copy (set dest n x) (n + 1) xs ∙ length-set dest n x

copy-before :
    (dest : List Double) (n : ℕ) (xs : List Double) (j : ℕ)
    → j < n
    → at (copy dest n xs) j ≡ at dest j
unfolding copy
copy-before dest n [] j h = refl
copy-before dest n (x ∷ xs) j h =
    copy-before (set dest n x) (n + 1) xs j (omega arith)
    ∙ get_or-set_ne dest n j x 0 (λ e. omega (arith, e, h))

copy-at :
    (dest : List Double) (n : ℕ) (xs : List Double) (k : ℕ)
    → n + length xs ≤ length dest
    → k < length xs
    → at (copy dest n xs) (n + k) ≡ at xs k
unfolding copy
copy-at dest n [] k h l = absurd (omega arith)
copy-at dest n (x ∷ xs) zero h l =
    let here : n + 0 ≡ n = omega arith in
    ap (at (copy (set dest n x) (n + 1) xs)) here
    ∙ copy-before (set dest n x) (n + 1) xs n (omega arith)
    ∙ get_or-set_self dest n x 0 (omega arith)
copy-at dest n (x ∷ xs) (suc k) h l =
    let there : n + suc k ≡ (n + 1) + k = omega arith in
    ap (at (copy (set dest n x) (n + 1) xs)) there
    ∙ copy-at (set dest n x) (n + 1) xs k (omega (arith, length-set dest n x)) (omega arith)

-- The blocks one behind the other, from entry `n` on
abbrev pub copy_all : List Double → ℕ → List (List Double) → List Double
copy_all dest n [] = dest
copy_all dest n (b ∷ bs) = copy_all (copy dest n b) (n + length b) bs

-- Where block `i` begins, and the length of all
abbrev pub offset : List (List Double) → ℕ → ℕ
offset [] i = 0
offset (b ∷ bs) zero = 0
offset (b ∷ bs) (suc i) = length b + offset bs i

abbrev pub total : List (List Double) → ℕ
total [] = 0
total (b ∷ bs) = length b + total bs

copy_all-before :
    (dest : List Double) (n : ℕ) (bs : List (List Double)) (j : ℕ)
    → j < n
    → at (copy_all dest n bs) j ≡ at dest j
copy_all-before dest n [] j h = refl
copy_all-before dest n (b ∷ bs) j h =
    copy_all-before (copy dest n b) (n + length b) bs j (omega arith) ∙ copy-before dest n b j h

pub copy_all-at :
    (dest : List Double) (n : ℕ) (bs : List (List Double)) (i k : ℕ) {b : List Double}
    → n + total bs ≤ length dest
    → get_elem? bs i ≡ some b
    → k < length b
    → at (copy_all dest n bs) (n + (offset bs i + k)) ≡ at b k
copy_all-at dest n [] i k h e l = absurd (cc e)
copy_all-at dest n (x ∷ bs) zero k {b} h e l =
    let same : x ≡ b = cc e in
    let here : n + (0 + k) ≡ n + k = omega arith in
    ap (at (copy_all (copy dest n x) (n + length x) bs)) here
    ∙ copy_all-before (copy dest n x) (n + length x) bs (n + k)
        (omega (arith, ap (λ (y : List Double). length y) same, l))
    ∙ copy-at dest n x k (omega arith) (omega (arith, ap (λ (y : List Double). length y) same, l))
    ∙ ap (λ (y : List Double). at y k) same
copy_all-at dest n (x ∷ bs) (suc i) k h e l =
    let there : n + ((length x + offset bs i) + k) ≡ (n + length x) + (offset bs i + k) =
      omega arith in
    ap (at (copy_all (copy dest n x) (n + length x) bs)) there
    ∙ copy_all-at (copy dest n x) (n + length x) bs i k (omega (arith, length-copy dest n x)) e l
