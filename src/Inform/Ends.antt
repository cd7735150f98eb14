-- ===== src/Inform/Ends.antt =====
-- The reading of a job of src/InformCheckerAndGenerator.c comes to its end.
use motoros.Prelude.{
  ℕ, zero, suc, ◌<◌, ◌≤◌, ◌≡◌, ◌↔◌, refl, ap, sym, ◌∙◌, ℤ, Bool, true, false, ◌&&◌, Option, none,
  some, List, [], ◌∷◌, length, arith, ◌==◌, Bool-cases, inl, inr,
}
use motoros.MotoPlus.{Model}
use motoros.Data.{CtrlGroup}
use motoros.CtrlGroup.{GroupIds}
use motoros.Controller.{strncmp_eq}
use motoros.Inform.{
  Line, codes, nop, find_eol, split_at, found_or, read_buffer, read_line, put_before, instructions,
}
use motoros.Inform.Header.{
  no_combinations, read_header, header_line, all_listed, contains, after_group, put_group_line,
}
use motoros.Inform.Listed.{AllInTable, both, all_listed-AllInTable}
use motoros.Inform.Job.{
  check_lines, check_line, check_inform_lines, is_job_ok, check_rest, check_body, later_lines,
}

-- What is left is shorter.
abbrev pub Shorter : List ℕ → Option (Line × List ℕ) → Type 0
Shorter file none = Unit
Shorter file (some (l, rest)) = length rest < length file

put_before-Shorter :
    (c : ℕ) (cs : List ℕ) (o : Option (Line × List ℕ))
    → Shorter cs o
    → Shorter (c ∷ cs) (put_before c o)
put_before-Shorter c cs none h = tt
put_before-Shorter c cs (some (l, rest)) h = omega (arith, h)

find_eol-Shorter : (n : ℕ) (cs : List ℕ) → Shorter cs (find_eol n cs)
unfolding find_eol
find_eol-Shorter zero cs = tt
find_eol-Shorter (suc n) [] = tt
find_eol-Shorter (suc n) (c ∷ []) = tt
find_eol-Shorter (suc zero) (c ∷ d ∷ cs) = tt
find_eol-Shorter (suc (suc n)) (c ∷ d ∷ cs) = elim (Bool-cases ((c == 13) && (d == 10))) [
  | inl ends ↦ rw ends (omega arith)
  | inr goes_on ↦ rw goes_on (
      put_before-Shorter c (d ∷ cs) (find_eol (suc n) (d ∷ cs)) (find_eol-Shorter (suc n) (d ∷ cs)))
]

split_at-shorter : (n : ℕ) (cs : List ℕ) → length (split_at n cs).1 ≤ length cs
unfolding split_at
split_at-shorter zero cs = omega arith
split_at-shorter (suc n) [] = omega arith
split_at-shorter (suc n) (c ∷ cs) = omega (arith, split_at-shorter n cs)

found_or-Shorter :
    (file : List ℕ) (buffer : Line × List ℕ) (o : Option (Line × List ℕ))
    → length buffer.1 < length file
    → Shorter file o
    → length (found_or buffer o).1 < length file
found_or-Shorter file buffer none h s = h
found_or-Shorter file buffer (some r) h s = s

pub read_buffer-Shorter : (n : ℕ) (file : List ℕ) → Shorter file (read_buffer (suc n) file)
unfolding split_at
read_buffer-Shorter n [] = tt
read_buffer-Shorter n (c ∷ cs) =
    found_or-Shorter (c ∷ cs) (split_at (suc n) (c ∷ cs)) (find_eol (suc n) (c ∷ cs))
      (omega (arith, split_at-shorter n cs)) (find_eol-Shorter (suc n) (c ∷ cs))

read_line-Shorter : (file : List ℕ) → Shorter file (read_line file)
unfolding read_line
read_line-Shorter file = read_buffer-Shorter 511 file

-- The result of the check of the lines
abbrev Answers : Option Bool → Type 0
Answers o = (b : Bool) × (o ≡ some b)

check_line-Answers :
    (n : ℕ) (expected : List Line) (file : List ℕ) (o : Option (Line × List ℕ))
    → Shorter file o
    → length file < suc n
    → ((rest : List ℕ) → length rest < n → Answers (check_lines n (later_lines expected) rest))
    → Answers (check_line (check_lines n (later_lines expected)) expected o)
check_line-Answers n expected file none s h ih = (true, refl)
check_line-Answers n [] file (some (l, rest)) s h ih = (false, refl)
check_line-Answers n (e ∷ es) file (some (l, rest)) s h ih =
    elim (Bool-cases (strncmp_eq 512 l e)) [
      | inl same ↦ rw same (ih rest (omega (arith, s, h)))
      | inr other ↦ rw other (false, refl)
    ]

check_lines-Answers :
    (n : ℕ) (expected : List Line) (file : List ℕ)
    → length file < n
    → Answers (check_lines n expected file)
unfolding check_lines
check_lines-Answers zero expected file h = absurd (omega arith)
check_lines-Answers (suc n) expected file h =
    check_line-Answers n expected file (read_line file) (read_line-Shorter file) h
      (check_lines-Answers n (later_lines expected))

module _ (ids : GroupIds) (split : ℕ → List ℕ → Option (List (List ℕ))) where
  -- How the header is read from a table and a file on, up to the table and the file behind it: to the
  -- end of the file, to NOP, or to a line of a group that cannot be split; a line of a group changes
  -- the table, and any other line is passed.
  pub data HeaderRead : List ℤ → List ℕ → List ℤ → List ℕ → Type 0 where
    at_end :
        {table : List ℤ} {file : List ℕ} → read_line file ≡ none → HeaderRead table file table []
    at_nop :
        {table : List ℤ} {file : List ℕ} {l : Line} {rest : List ℕ}
        → read_line file ≡ some (l, rest)
        → strncmp_eq 512 l nop ≡ true
        → HeaderRead table file table rest
    at_bad_group :
        {table : List ℤ} {file : List ℕ} {l : Line} {rest : List ℕ}
        → read_line file ≡ some (l, rest)
        → strncmp_eq 512 l nop ≡ false
        → contains (codes "///GROUP") l ≡ true
        → put_group_line ids split l table ≡ none
        → HeaderRead table file table rest
    group_line :
        {table : List ℤ} {file : List ℕ} {l : Line} {rest : List ℕ} {more : List ℤ} {last : List ℤ}
        {left : List ℕ}
        → read_line file ≡ some (l, rest)
        → strncmp_eq 512 l nop ≡ false
        → contains (codes "///GROUP") l ≡ true
        → put_group_line ids split l table ≡ some more
        → HeaderRead more rest last left
        → HeaderRead table file last left
    other_line :
        {table : List ℤ} {file : List ℕ} {l : Line} {rest : List ℕ} {last : List ℤ} {left : List ℕ}
        → read_line file ≡ some (l, rest)
        → strncmp_eq 512 l nop ≡ false
        → contains (codes "///GROUP") l ≡ false
        → HeaderRead table rest last left
        → HeaderRead table file last left

  -- The header ends with a table, and what is left is no longer than `n`.
  abbrev Leaves : List ℤ → List ℕ → ℕ → Option (List ℤ × List ℕ) → Type 0
  Leaves t file n o =
      (table : List ℤ) × (rest : List ℕ) × (o ≡ some (table, rest))
      × (length rest < n)
      × HeaderRead t file table rest

  group-Leaves :
      (n : ℕ) (table : List ℤ) (file : List ℕ) (l : Line) (rest : List ℕ) (o : Option (List ℤ))
      → read_line file ≡ some (l, rest)
      → strncmp_eq 512 l nop ≡ false
      → contains (codes "///GROUP") l ≡ true
      → put_group_line ids split l table ≡ o
      → length rest < n
      → ((t : List ℤ) (r : List ℕ) → length r < n → Leaves t r n (read_header ids split n t r))
      → Leaves table file (suc n) (after_group ids split (read_header ids split n) table rest o)
  group-Leaves n table file l rest none e other group bad h ih =
      (table, rest, refl, omega (arith, h), at_bad_group e other group bad)
  group-Leaves n table file l rest (some more) e other group good h ih =
      let (last, left, read, short, done) = ih more rest h in
      (last, left, read, omega (arith, short), group_line e other group good done)

  header_line-Leaves :
      (n : ℕ) (table : List ℤ) (file : List ℕ) (o : Option (Line × List ℕ))
      → read_line file ≡ o
      → Shorter file o
      → length file < suc n
      → ((t : List ℤ) (r : List ℕ) → length r < n → Leaves t r n (read_header ids split n t r))
      → Leaves table file (suc n) (header_line ids split (read_header ids split n) table o)
  unfolding header_line
  header_line-Leaves n table file none e s h ih = (table, [], refl, omega arith, at_end e)
  header_line-Leaves n table file (some (l, rest)) e s h ih =
      elim (Bool-cases (strncmp_eq 512 l nop)) [
        | inl ends ↦ rw ends (table, rest, refl, omega (arith, s, h), at_nop e ends)
        | inr other ↦ rw other (elim (Bool-cases (contains (codes "///GROUP") l)) [
          | inl group ↦ rw group (
              group-Leaves n table file l rest (put_group_line ids split l table) e other group refl
                (omega (arith, s, h)) ih)
          | inr none_here ↦
              let (last, left, read, short, done) = ih table rest (omega (arith, s, h)) in
              rw none_here
                (last, left, read, omega (arith, short), other_line e other none_here done)
        ])
      ]

  read_header-Leaves :
      (n : ℕ) (table : List ℤ) (file : List ℕ)
      → length file < n
      → Leaves table file n (read_header ids split n table file)
  unfolding read_header
  read_header-Leaves zero table file h = absurd (omega arith)
  read_header-Leaves (suc n) table file h =
      header_line-Leaves n table file (read_line file) refl (read_line-Shorter file) h
        (read_header-Leaves n)

  -- The check of any job file comes to its end: the header is read line by line to NOP, to the end of
  -- the file or to a line of a group that cannot be split, which gives a table of groups; the
  -- instructions are read from behind it, with no more reads than the file has characters and one;
  -- and the file passes exactly if every group of the controller stands in the table and the
  -- instructions pass.
  pub is_job_ok-reads :
      (m : Model) (groups : List CtrlGroup) (file : List ℕ)
      → (table : List ℤ) × (rest : List ℕ) × (b : Bool) × HeaderRead no_combinations file table rest
        × (check_inform_lines (suc (length file)) m rest ≡ some b)
        × ((is_job_ok ids split m groups file ≡ true) ↔ (AllInTable groups table × (b ≡ true)))
  unfolding is_job_ok check_inform_lines
  is_job_ok-reads m groups file =
      let n = suc (length file) in
      let (table, rest, e, h, read) = read_header-Leaves n no_combinations file (omega arith) in
      let (b, c) = check_lines-Answers n (instructions m) rest h in
      let (out, back) = all_listed-AllInTable groups table in
      let result : is_job_ok ids split m groups file ≡ (all_listed groups table && b) =
        ap (check_rest ids split m n groups) e
        ∙ ap (λ (o : Option Bool). all_listed groups table && check_body o) c in
      (
        table,
        rest,
        b,
        read,
        c,
        (
          λ ok. let (x, y) = both (all_listed groups table) b (sym result ∙ ok) in (out x, y),
          λ hs. result ∙ rw (back hs.0, hs.1) refl,
        ),
      )
