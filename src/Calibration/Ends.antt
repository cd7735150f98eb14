-- ===== src/Calibration/Ends.antt =====
-- The reading of RBCALIB.DAT of src/Ros_mpGetRobotCalibrationData.c comes to its end.
use motoros.Prelude.{
  ℕ, zero, suc, ◌≤◌, ◌<◌, ◌≡◌, refl, ℤ, Option, none, some, List, length, arith, Bool-cases, inl,
  inr,
}
use motoros.Data.{Double}
use motoros.Fpu.{Fpu}
use motoros.Inform.{Line, codes, read_buffer}
use motoros.Inform.Header.{contains}
use motoros.Inform.Ends.{Shorter, read_buffer-Shorter}
use motoros.Startup.Initialize.{CalibData}
use motoros.Calibration.{
  Files, line_or_empty, next_line, skip_lines, Turn, goes_on, alarmed, comma_parts, take_place,
  take_slave, take_master, take_number, read_record, after_record, read_turn, read_records,
}

line_or_empty-le :
    (file : List ℕ) (o : Option (Line × List ℕ))
    → Shorter file o
    → length (line_or_empty o).1 ≤ length file
line_or_empty-le file none h = omega arith
line_or_empty-le file (some (l, rest)) h = omega (arith, h)

next_line-le : (file : List ℕ) → length (next_line file).1 ≤ length file
next_line-le file = line_or_empty-le file (read_buffer 256 file) (read_buffer-Shorter 255 file)

skip_lines-le : (n : ℕ) (file : List ℕ) → length (skip_lines n file) ≤ length file
unfolding skip_lines
skip_lines-le zero file = omega arith
skip_lines-le (suc n) file = omega (arith, skip_lines-le n (next_line file).1, next_line-le file)

-- The turn leaves at most `n` characters, if it goes on.
abbrev pub Leaves : ℕ → Turn → Type 0
Leaves n (goes_on files rest) = length rest ≤ n
Leaves n (alarmed files code) = Unit

abbrev pub Ends : Option (Files × Option ℕ) → Type 0
Ends o = (r : Files × Option ℕ) × (o ≡ some r)

module _ (fpu : Fpu) (split : ℕ → List ℕ → Option (List (List ℕ))) (strtod : List ℕ → Double) where
  take_place-Leaves :
      (n : ℕ) (files : Files) (i : ℤ) (d : CalibData) (rest : List ℕ) (o : Option (List (List ℕ)))
      → length rest ≤ n
      → Leaves n (take_place fpu split strtod files i d rest o)
  take_place-Leaves n files i d rest none h = tt
  take_place-Leaves n files i d rest (some parts) h = h

  take_slave-Leaves :
      (n : ℕ) (files : Files) (i : ℤ) (d : CalibData) (rest : List ℕ) (o : Option (List (List ℕ)))
      → length rest ≤ n
      → Leaves n (take_slave fpu split strtod files i d rest o)
  take_slave-Leaves n files i d rest none h = tt
  take_slave-Leaves n files i d rest (some flags) h =
      let left = skip_lines 4 rest in
      take_place-Leaves n files i _ (next_line left).1
        (comma_parts fpu split strtod (next_line left).0)
        (omega (arith, next_line-le left, skip_lines-le 4 rest, h))

  take_master-Leaves :
      (n : ℕ) (files : Files) (i : ℤ) (d : CalibData) (rest : List ℕ) (o : Option (List (List ℕ)))
      → length rest ≤ n
      → Leaves n (take_master fpu split strtod files i d rest o)
  take_master-Leaves n files i d rest none h = tt
  take_master-Leaves n files i d rest (some flags) h =
      let left = skip_lines 5 rest in
      take_slave-Leaves n files i _ (next_line left).1
        (comma_parts fpu split strtod (next_line left).0)
        (omega (arith, next_line-le left, skip_lines-le 5 rest, h))

  take_number-Leaves :
      (n : ℕ) (raw : CalibData) (files : Files) (rest : List ℕ) (o : Option (List (List ℕ)))
      → length rest ≤ n
      → Leaves n (take_number fpu split strtod raw files rest o)
  take_number-Leaves n raw files rest none h = tt
  take_number-Leaves n raw files rest (some words) h =
      let left = skip_lines 1 rest in
      take_master-Leaves n files _ raw (next_line left).1
        (comma_parts fpu split strtod (next_line left).0)
        (omega (arith, next_line-le left, skip_lines-le 1 rest, h))

  read_record-Leaves :
      (raw : CalibData) (files : Files) (l : Line) (rest : List ℕ)
      → Leaves (length rest) (read_record fpu split strtod raw files (l, rest))
  unfolding read_record
  read_record-Leaves raw files l rest =
      take_number-Leaves (length rest) raw files rest (split 32 l) (omega arith)

  module _ (n : ℕ) (raw : CalibData) where
    after_record-Ends :
        (k : ℕ) (t : Turn)
        → Leaves k t
        → k < n
        → ((rest : List ℕ) (files : Files)
            → length rest < n
            → Ends (read_records fpu split strtod n raw rest files))
        → Ends (after_record fpu split strtod (read_records fpu split strtod n raw) t)
    after_record-Ends k (goes_on files rest) h l later = later rest files (omega (arith, h, l))
    after_record-Ends k (alarmed files code) h l later = (_, refl)

    read_turn-Ends :
        (files : Files) (file : List ℕ) (o : Option (Line × List ℕ))
        → Shorter file o
        → length file < suc n
        → ((rest : List ℕ) (files : Files)
            → length rest < n
            → Ends (read_records fpu split strtod n raw rest files))
        → Ends (read_turn fpu split strtod (read_records fpu split strtod n raw) raw files o)
    read_turn-Ends files file none h l later = (_, refl)
    read_turn-Ends files file (some (line, rest)) h l later =
        elim (Bool-cases (contains (codes "//RBCALIB") line)) [
          | inl begins ↦ rw begins (
              after_record-Ends (length rest) (read_record fpu split strtod raw files (line, rest))
                (read_record-Leaves raw files line rest) (omega (arith, h, l)) later)
          | inr other ↦ rw other (_, refl)
        ]

  -- Whatever the file of calibrations holds, the loop over its records ends within as many turns as
  -- it has characters, and one more.
  pub read_records-Ends :
      (n : ℕ) (raw : CalibData) (file : List ℕ) (files : Files)
      → length file < n
      → Ends (read_records fpu split strtod n raw file files)
  unfolding read_records
  read_records-Ends zero raw file files l = absurd (omega arith)
  read_records-Ends (suc n) raw file files l =
      read_turn-Ends n raw files file (read_buffer 256 file) (read_buffer-Shorter 255 file) l
        (λ rest fs m. read_records-Ends n raw rest fs m)
