-- ===== src/Inform/Read.antt =====
-- Reading the lines of src/FileUtilityFunctions.c back, and what
-- Ros_InformChecker_CheckInformLines of src/InformCheckerAndGenerator.c accepts.
use motoros.Prelude.{
  ℕ, zero, suc, ◌+◌, ◌<◌, ◌≤◌, ◌≡◌, ◌≢◌, ◌↔◌, refl, ap, Bool, true, Option, none, some, List, [],
  ◌∷◌, ◌++◌, length, arith, Bool-cases, inl, inr,
}
use motoros.MotoPlus.{Model}
use motoros.Controller.{strncmp_eq}
use motoros.Inform.{Line, find_eol, read_buffer, read_line, write_lines, instructions}
use motoros.Inform.Job.{check_lines, check_inform_lines, check_line, later_lines}

-- No carriage return
abbrev pub IsPlain : List ℕ → Type 0
IsPlain [] = Unit
IsPlain (c ∷ cs) = (c ≢ 13) × IsPlain cs

-- A line that fits the buffer together with its end
abbrev pub IsLine : Line → Type 0
IsLine l = IsPlain l × (length l + 2 ≤ 512)

abbrev pub AllLines : List Line → Type 0
AllLines [] = Unit
AllLines (l ∷ ls) = IsLine l × AllLines ls

find_eol-append :
    (n : ℕ) (l rest : List ℕ)
    → IsPlain l
    → length l + 2 ≤ n
    → find_eol n (l ++ (13 ∷ 10 ∷ rest)) ≡ some (l, rest)
unfolding find_eol
find_eol-append zero l rest plain h = absurd (omega arith)
find_eol-append (suc zero) l rest plain h = absurd (omega arith)
find_eol-append (suc (suc n)) [] rest plain h = refl
find_eol-append (suc (suc n)) (c ∷ []) rest plain h =
    let ih = find_eol-append (suc n) [] rest tt (omega arith) in ground (arith, ih, plain.0)
find_eol-append (suc (suc n)) (c ∷ d ∷ l) rest plain h =
    let ih = find_eol-append (suc n) (d ∷ l) rest plain.1 (omega arith) in
    ground (arith, ih, plain.0)

-- What was written as a line is read as that line, and the file then stands behind it.
pub read_buffer-append :
    (n : ℕ) (l rest : List ℕ)
    → IsPlain l
    → length l + 2 ≤ n
    → read_buffer n (l ++ (13 ∷ 10 ∷ rest)) ≡ some (l, rest)
read_buffer-append n [] rest plain h = rw (find_eol-append n [] rest plain h) refl
read_buffer-append n (c ∷ l) rest plain h = rw (find_eol-append n (c ∷ l) rest plain h) refl

read_line-append : (l rest : List ℕ) → IsLine l → read_line (l ++ (13 ∷ 10 ∷ rest)) ≡ some (l, rest)
unfolding read_line
read_line-append l rest h = read_buffer-append 512 l rest h.0 h.1

strncmp_eq_self : (n : ℕ) (l : List ℕ) → strncmp_eq n l l ≡ true
unfolding strncmp_eq
strncmp_eq_self zero l = refl
strncmp_eq_self (suc n) [] = refl
strncmp_eq_self (suc n) (c ∷ l) = ground (arith, strncmp_eq_self n l)

strncmp_eq_sound : (n : ℕ) (a b : List ℕ) → length a < n → strncmp_eq n a b ≡ true → a ≡ b
unfolding strncmp_eq
strncmp_eq_sound zero a b h e = absurd (omega arith)
strncmp_eq_sound (suc n) [] [] h e = refl
strncmp_eq_sound (suc n) [] (y ∷ b) h e = absurd (cc e)
strncmp_eq_sound (suc n) (x ∷ a) [] h e = absurd (cc e)
strncmp_eq_sound (suc n) (x ∷ a) (y ∷ b) h e = ground (arith, strncmp_eq_sound n a b (omega arith))

-- The lines are the first ones of the expected lines.
abbrev pub IsBeginning : List Line → List Line → Type 0
IsBeginning ls expected = (rest : List Line) × (ls ++ rest ≡ expected)

abbrev Accepts : List Line → List Line → Option Bool → Type 0
Accepts ls expected o = (o ≡ some true) ↔ IsBeginning ls expected

check_lines-reads :
    (n : ℕ) (expected : List Line) (file : List ℕ) {r : Option (Line × List ℕ)}
    → read_line file ≡ r
    → check_lines (suc n) expected file
      ≡ check_line (check_lines n (later_lines expected)) expected r
unfolding check_lines
check_lines-reads n expected file e =
    ap (check_line (check_lines n (later_lines expected)) expected) e

read_line-end : read_line [] ≡ none
unfolding read_line
read_line-end = refl

check_line-Accepts :
    (n : ℕ) (e : Line) (es : List Line) (l : Line) (ls : List Line) (rest : List ℕ)
    → length l < 512
    → Accepts ls es (check_lines n es rest)
    → Accepts (l ∷ ls) (e ∷ es) (check_line (check_lines n es) (e ∷ es) (some (l, rest)))
check_line-Accepts n e es l ls rest short ih = elim (Bool-cases (strncmp_eq 512 l e)) [
  | inl same ↦
      let at = strncmp_eq_sound 512 l e short same in
      rw same (
        λ ok. let (more, whole) = ih.0 ok in (more, cc (at, whole)),
        λ found. ih.1 (found.0, cc found.1),
      )
  | inr other ↦ rw other (
    λ ok. absurd (cc ok),
    λ found. let at : l ≡ e = cc found.1 in absurd (cc (other, strncmp_eq_self 512 l, at)),
  )
]

check_lines-Accepts :
    (n : ℕ) (expected ls : List Line)
    → AllLines ls
    → length ls < n
    → Accepts ls expected (check_lines n expected (write_lines ls))
unfolding write_lines
check_lines-Accepts zero expected ls all h = absurd (omega arith)
check_lines-Accepts (suc n) expected [] all h =
    rw (check_lines-reads n expected [] read_line-end) (λ ok. (expected, refl), λ found. refl)
check_lines-Accepts (suc n) [] (l ∷ ls) all h =
    rw
      (check_lines-reads n [] (l ++ (13 ∷ 10 ∷ write_lines ls))
        (read_line-append l (write_lines ls) all.0))
      (λ ok. absurd (cc ok), λ found. absurd (cc found.1))
check_lines-Accepts (suc n) (e ∷ es) (l ∷ ls) all h =
    let ih = check_lines-Accepts n es ls all.1 (omega arith) in
    let step =
      check_lines-reads n (e ∷ es) (l ++ (13 ∷ 10 ∷ write_lines ls))
        (read_line-append l (write_lines ls) all.0) in
    rw step (check_line-Accepts n e es l ls (write_lines ls) (omega (arith, all.0.1)) ih)

-- With fuel for more lines than the job has behind NOP
pub check_inform_lines-IsBeginning :
    (m : Model) (ls : List Line) {n : ℕ}
    → AllLines ls
    → length ls < n
    → (check_inform_lines n m (write_lines ls) ≡ some true) ↔ IsBeginning ls (instructions m)
unfolding check_inform_lines
check_inform_lines-IsBeginning m ls {n} all h = check_lines-Accepts n (instructions m) ls all h
