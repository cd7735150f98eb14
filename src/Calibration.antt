-- ===== src/Calibration.antt =====
-- The calibration of robots to one another: src/Ros_mpGetRobotCalibrationData.c, which reads it from
-- the file RBCALIB.DAT on the controllers whose API cannot give it.
mod Flags
pub mod Lines
pub mod Ends
mod Tests
use motoros.Prelude.{
  ℕ, zero, suc, ◌+◌, ℤ, pos, negsuc, ◌-ℤ◌, Bool, true, false, Option, none, some, List, [], ◌∷◌,
  get_or, get_elem?, set, replicate, eqb_ℤ, if◌then◌else◌,
}
use motoros.MotoPlus.{Model, dx100, fs100, dx200, yrc1000, yrc1000u}
use motoros.Data.{Double, Coord}
use motoros.Fpu.{Fpu}
use motoros.Inform.{Line, codes, read_buffer}
use motoros.Inform.Header.{atoi, contains}
use motoros.Startup.Initialize.{CalibData, max_calibration_files}

-- SIZEOFBUFFER
abbrev pub buffer_size : ℕ
buffer_size = 256

abbrev pub Files : Type 0
Files = List (Option CalibData)

abbrev pub no_files : Files
no_files = replicate max_calibration_files none

-- The subcodes of ALARM_DAT_FILE_PARSE_FAIL
abbrev pub subcode_open : ℕ
subcode_open = 0

abbrev pub subcode_rbcalib : ℕ
subcode_rbcalib = 1

abbrev pub subcode_mgroup : ℕ
subcode_mgroup = 2

abbrev pub subcode_sgroup : ℕ
subcode_sgroup = 3

abbrev pub subcode_srang : ℕ
subcode_srang = 4

-- The array with the data of a file; an index outside of it is not followed.
abbrev pub put_file : ℤ → CalibData → Files → Files
put_file (pos i) d files = set files i (some d)
put_file (negsuc i) d files = files

-- A read whose answer is not read: the buffer, cleared at the end of the file, and what is left
abbrev pub line_or_empty : Option (Line × List ℕ) → Line × List ℕ
line_or_empty none = ([], [])
line_or_empty (some r) = r

abbrev pub next_line : List ℕ → Line × List ℕ
next_line file = line_or_empty (read_buffer buffer_size file)

-- What is left behind `n` lines that are not used
unfoldable pub skip_lines : ℕ → List ℕ → List ℕ
skip_lines zero file = file
skip_lines (suc n) file = skip_lines n (next_line file).1

-- The first of the flags, `n` left, from group `i` on, that is 1
unfoldable pub first_flag : List (List ℕ) → ℕ → ℕ → Option ℕ
unfolding atoi
first_flag parts zero i = none
first_flag parts (suc n) i =
    let later = first_flag parts n (i + 1) in
    if eqb_ℤ (atoi (get_or parts i [])) (pos 1) then some i else later

abbrev pub or_old : Option ℕ → ℕ → ℕ
or_old none d = d
or_old (some x) d = x

-- How the reading of a record ends: with what the array holds and what is left of the file, or with an
-- alarm
pub data Turn : Type 0 where
  goes_on : Files → List ℕ → Turn
  alarmed : Files → ℕ → Turn

-- rcutils_split: none is a result that is not OK. A part that is missing is empty here; the source
-- reads behind the end of the array then. strtod is the C library's.
module _ (fpu : Fpu) (split : ℕ → List ℕ → Option (List (List ℕ))) (strtod : List ℕ → Double) where
  -- The parts between commas of the second word
  abbrev pub second_word : Option (List (List ℕ)) → Option (List (List ℕ))
  second_word none = none
  second_word (some words) = split 44 (get_or words 1 [])

  abbrev pub comma_parts : Line → Option (List (List ℕ))
  comma_parts l = second_word (split 32 l)

  -- `(int)(strtod(..) * factor)`
  abbrev pub scaled : ℕ → List ℕ → ℤ
  scaled factor part = fpu.to_int (fpu.mul (strtod part) (fpu.of_int (pos factor)))

  abbrev pub read_place : List (List ℕ) → Coord
  read_place parts = record {
    x = scaled 1000 (get_or parts 0 []);
    y = scaled 1000 (get_or parts 1 []);
    z = scaled 1000 (get_or parts 2 []);
    rx = scaled 10000 (get_or parts 3 []);
    ry = scaled 10000 (get_or parts 4 []);
    rz = scaled 10000 (get_or parts 5 []);
  }

  -- The steps of a record, each with the parts that it reads and what is left behind its line: the
  -- place, the slave, the master and the number of the file
  abbrev pub take_place : Files → ℤ → CalibData → List ℕ → Option (List (List ℕ)) → Turn
  take_place files index d rest none = alarmed (put_file index d files) subcode_srang
  take_place files index d rest (some parts) =
      goes_on (put_file index (record d { place = read_place parts }) files) rest

  abbrev pub read_srang : Files → ℤ → CalibData → Line × List ℕ → Turn
  read_srang files index d (l, rest) = take_place files index d rest (comma_parts l)

  abbrev pub take_slave : Files → ℤ → CalibData → List ℕ → Option (List (List ℕ)) → Turn
  take_slave files index d rest none = alarmed (put_file index d files) subcode_sgroup
  take_slave files index d rest (some flags) =
      read_srang files index (record d { slave = or_old (first_flag flags 32 0) d.slave })
        (next_line (skip_lines 4 rest))

  abbrev pub read_sgroup : Files → ℤ → CalibData → Line × List ℕ → Turn
  read_sgroup files index d (l, rest) = take_slave files index d rest (comma_parts l)

  abbrev pub take_master : Files → ℤ → CalibData → List ℕ → Option (List (List ℕ)) → Turn
  take_master files index d rest none = alarmed (put_file index d files) subcode_mgroup
  take_master files index d rest (some flags) =
      read_sgroup files index (record d { master = or_old (first_flag flags 32 0) d.master })
        (next_line (skip_lines 5 rest))

  abbrev pub read_mgroup : Files → ℤ → CalibData → Line × List ℕ → Turn
  read_mgroup files index d (l, rest) = take_master files index d rest (comma_parts l)

  abbrev pub take_number : CalibData → Files → List ℕ → Option (List (List ℕ)) → Turn
  take_number raw files rest none = alarmed files subcode_rbcalib
  take_number raw files rest (some words) =
      read_mgroup files (atoi (get_or words 1 []) -ℤ pos 1) raw (next_line (skip_lines 1 rest))

  -- A record, from its first line on. `raw` is what the memory that is allocated for it holds.
  unfoldable pub read_record : CalibData → Files → Line × List ℕ → Turn
  unfolding first_flag skip_lines atoi
  read_record raw files (l, rest) = take_number raw files rest (split 32 l)

  abbrev pub after_record :
      (List ℕ → Files → Option (Files × Option ℕ)) → Turn → Option (Files × Option ℕ)
  after_record later (goes_on files rest) = later rest files
  after_record later (alarmed files code) = some (files, some code)

  abbrev pub read_turn :
      (List ℕ → Files → Option (Files × Option ℕ))
      → CalibData
      → Files
      → Option (Line × List ℕ)
      → Option (Files × Option ℕ)
  read_turn later raw files none = some (files, none)
  read_turn later raw files (some (l, rest)) =
      if contains (codes "//RBCALIB") l
      then after_record later (read_record raw files (l, rest))
      else some (files, none)

  -- The loop over the records: what the array holds, and the alarm that was set; none is a want of
  -- turns.
  unfoldable pub read_records : ℕ → CalibData → List ℕ → Files → Option (Files × Option ℕ)
  unfolding read_record contains
  read_records zero raw file files = none
  read_records (suc n) raw file files =
      read_turn (read_records n raw) raw files (read_buffer buffer_size file)

  -- Ros_mpGetRobotCalibrationData_Initialize on FS100 and DX200: whether the file could be saved, and
  -- what it holds if it could be opened
  unfoldable pub initialize_calibration :
      ℕ → CalibData → Bool → Option (List ℕ) → Option (Files × Option ℕ)
  unfolding read_records
  initialize_calibration turns raw false opened = some (no_files, none)
  initialize_calibration turns raw true none = some (no_files, some subcode_open)
  initialize_calibration turns raw true (some file) = read_records turns raw file no_files

abbrev pub known : Option (Option CalibData) → Option CalibData
known none = none
known (some d) = d

-- Ros_mpGetRobotCalibrationData; `api` is the call of the M+ API.
unfoldable pub get_robot_calibration_data :
    Model → (ℕ → Option CalibData) → Files → ℕ → Option CalibData
get_robot_calibration_data yrc1000 api files i = api i
get_robot_calibration_data yrc1000u api files i = api i
get_robot_calibration_data _ api files i = known (get_elem? files i)
