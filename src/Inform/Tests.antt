-- ===== src/Inform/Tests.antt =====
-- A job that breaks off, and the job that is generated for one robot.
use motoros.Prelude.{
  ℕ, suc, ◌≡◌, ◌↔◌, refl, ℤ, Bool, true, Option, some, List, [], ◌∷◌, length, arith, ◌==◌,
  if◌then◌else◌, ◌+ℤ◌, ◌-ℤ◌, suc, false, sym, ap, ◌∙◌, Bool-cases, inl, inr,
}
use motoros.Controller.{strncmp_eq}
use motoros.MotoPlus.{yrc1000}
use motoros.Sample.Robot.{sample_ids, six_axes}
use motoros.Inform.{
  Line, codes, find_eol, split_at, read_line, write_lines, instructions, ros_init_job_lines,
}
use motoros.Inform.Header.{
  no_combinations, starts_with, contains, digits, atoi, drop_chars, put_tags, put_group_line,
  header_line, read_header, is_listed, all_listed, decimal, group_lines,
}
use motoros.Inform.Job.{check_lines, check_inform_lines, job_text, is_job_ok}
use motoros.Inform.Read.{IsPlain, AllLines, IsBeginning, check_inform_lines-IsBeginning}
use motoros.Inform.Listed.{AllInTable}
use motoros.Inform.Ends.{HeaderRead, is_job_ok-reads}

-- The first two instructions
abbrev broken_off : List Line
broken_off = codes "DOUT OT#(890) OFF" ∷ codes "DOUT OT#(889) OFF" ∷ []

abbrev add_to_first : ℕ → List (List ℕ) → List (List ℕ)
add_to_first c [] = (c ∷ []) ∷ []
add_to_first c (w ∷ ws) = (c ∷ w) ∷ ws

-- The parts between the delimiters `d`
abbrev split_on : ℕ → List ℕ → List (List ℕ)
split_on d [] = []
split_on d (c ∷ cs) = let rest = split_on d cs in if c == d then [] ∷ rest else add_to_first c rest

abbrev split_text : ℕ → List ℕ → Option (List (List ℕ))
split_text d cs = some (split_on d cs)

abbrev generated : List ℕ
generated = job_text sample_ids yrc1000 (codes "INIT_ROS") (codes "///DATE") (six_axes ∷ [])

generated_is_ok : is_job_ok sample_ids split_text yrc1000 (six_axes ∷ []) generated ≡ true
unfolding is_job_ok job_text write_lines group_lines ros_init_job_lines instructions read_header
    read_line find_eol split_at header_line put_group_line put_tags contains starts_with atoi digits
    drop_chars all_listed is_listed decimal check_inform_lines check_lines strncmp_eq ◌+ℤ◌ ◌-ℤ◌
generated_is_ok = refl

-- A test for IsPlain
abbrev has_no_return : List ℕ → Bool
has_no_return [] = true
has_no_return (c ∷ cs) = let rest = has_no_return cs in if c == 13 then false else rest

has_no_return-IsPlain : (cs : List ℕ) → has_no_return cs ≡ true → IsPlain cs
has_no_return-IsPlain [] h = tt
has_no_return-IsPlain (c ∷ cs) h = elim (Bool-cases (c == 13)) [
  | inl yes_it_is ↦
      absurd (cc (h, ap (λ (b : Bool). if b then false else has_no_return cs) yes_it_is))
  | inr other ↦ (
    ground (arith, other),
    has_no_return-IsPlain cs
        (sym (ap (λ (b : Bool). if b then false else has_no_return cs) other) ∙ h),
  )
]

broken_off-AllLines : AllLines broken_off
broken_off-AllLines =
    let one = has_no_return-IsPlain (codes "DOUT OT#(890) OFF") refl in
    let two = has_no_return-IsPlain (codes "DOUT OT#(889) OFF") refl in
    ((one, omega arith), ((two, omega arith), tt))

check_inform_lines-IsBeginning_example :
    (check_inform_lines 3 yrc1000 (write_lines broken_off) ≡ some true)
    ↔ IsBeginning broken_off (instructions yrc1000)
check_inform_lines-IsBeginning_example =
    check_inform_lines-IsBeginning yrc1000 broken_off broken_off-AllLines (omega arith)

is_job_ok-reads_example :
    (table : List ℤ) × (rest : List ℕ) × (b : Bool) × HeaderRead sample_ids split_text
      no_combinations generated table rest
    × (check_inform_lines (suc (length generated)) yrc1000 rest ≡ some b)
    × ((is_job_ok sample_ids split_text yrc1000 (six_axes ∷ []) generated ≡ true)
        ↔ (AllInTable (six_axes ∷ []) table × (b ≡ true)))
is_job_ok-reads_example = is_job_ok-reads sample_ids split_text yrc1000 (six_axes ∷ []) generated
