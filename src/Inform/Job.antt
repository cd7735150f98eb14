-- ===== src/Inform/Job.antt =====
-- The check and the generation of the job: Ros_InformChecker_CheckInformLines, .._CreateJob and
-- .._ValidateJob of src/InformCheckerAndGenerator.c.
use motoros.Prelude.{
  ℕ, zero, suc, ℤ, Bool, true, false, not, ◌&&◌, Option, none, some, List, [], ◌∷◌, ◌++◌, length,
  if◌then◌else◌,
}
use motoros.MotoPlus.{Model}
use motoros.Data.{CtrlGroup}
use motoros.CtrlGroup.{GroupIds}
use motoros.Controller.{strncmp_eq}
use motoros.Inform.{
  Line, codes, max_job_line_length, read_line, write_lines, instructions, ros_init_job_lines,
}
use motoros.Inform.Header.{no_combinations, read_header, all_listed, group_lines}

abbrev pub next_line : List Line → Line
next_line [] = []
next_line (e ∷ es) = e

abbrev pub later_lines : List Line → List Line
later_lines [] = []
later_lines (e ∷ es) = es

abbrev pub no_more : List Line → Bool
no_more [] = true
no_more (e ∷ es) = false

-- The body of the loop of Ros_InformChecker_CheckInformLines, with the lines that are still expected
-- and the rest of the loop.
abbrev pub check_line : (List ℕ → Option Bool) → List Line → Option (Line × List ℕ) → Option Bool
check_line later expected none = some true
check_line later expected (some (l, rest)) =
    if no_more expected
    then some false
    else if strncmp_eq max_job_line_length l (next_line expected)
    then later rest
    else some false

-- The loop; `none` is a want of fuel.
unfoldable pub check_lines : ℕ → List Line → List ℕ → Option Bool
check_lines zero expected file = none
check_lines (suc n) expected file =
    check_line (check_lines n (later_lines expected)) expected (read_line file)

-- The file stands just past the NOP.
unfoldable pub check_inform_lines : ℕ → Model → List ℕ → Option Bool
unfolding check_lines
check_inform_lines n m file = check_lines n (instructions m) file

-- The text of a new job. `date` is the line with the present date.
unfoldable pub job_text : GroupIds → Model → List ℕ → Line → List CtrlGroup → List ℕ
unfolding write_lines group_lines ros_init_job_lines
job_text ids m name date groups = write_lines (
    codes "/JOB"
    ∷ (codes "//NAME " ++ name)
    ∷ codes "//POS"
    ∷ codes "///NPOS 0,0,0,0,0,0"
    ∷ codes "//INST"
    ∷ date
    ∷ codes "///COMM AUTO-GENERATED BY MotoROS2"
    ∷ codes "///ATTR SC,RW"
    ∷ (group_lines ids 1 groups ++ ros_init_job_lines m))

-- The subcodes of ALARM_INFORM_JOB_FAIL
pub data JobAlarm : Type 0 where
  fail_to_create_job fail_to_load_job fail_to_open_dram invalid_job : JobAlarm

-- What the check of the job leaves: the alarms in order, and the text that was loaded as the job.
pub record Checked : Type 0 where
  pub alarms : List JobAlarm
  pub loaded : Option (List ℕ)

-- What the controller answers: whether the job exists (mpSaveFile), the file when it is opened
-- (none if mpOpen fails), whether a file can be made and loaded (mpCreate, mpLoadFile).
pub record JobFiles : Type 0 where
  pub job_exists : Bool
  pub opened : Option (List ℕ)
  pub can_create : Bool
  pub can_load : Bool

-- Ros_InformChecker_CreateJob; the old job is deleted before the new one is loaded.
unfoldable pub create_job : JobFiles → List ℕ → Checked
create_job files text =
    if not files.can_create
    then record { alarms = fail_to_create_job ∷ []; loaded = none }
    else if files.can_load
    then record { alarms = []; loaded = some text }
    else record { alarms = fail_to_load_job ∷ []; loaded = none }

abbrev pub check_body : Option Bool → Bool
check_body (some b) = b
check_body none = false

abbrev pub alarms_of : Bool → List JobAlarm
alarms_of true = []
alarms_of false = invalid_job ∷ []

module _ (ids : GroupIds) (split : ℕ → List ℕ → Option (List (List ℕ))) (m : Model) where
  abbrev pub check_rest : ℕ → List CtrlGroup → Option (List ℤ × List ℕ) → Bool
  check_rest n groups none = false
  check_rest n groups (some (table, rest)) =
      all_listed groups table && check_body (check_inform_lines n m rest)

  -- The header and the instructions of a file. As many lines as characters, and one more, can be read.
  unfoldable pub is_job_ok : List CtrlGroup → List ℕ → Bool
  unfolding read_header all_listed check_inform_lines
  is_job_ok groups file =
      let n = suc (length file) in
      check_rest n groups (read_header ids split n no_combinations file)

  -- A read of a file that is not open gives no line.
  abbrev pub check_file : List CtrlGroup → Option (List ℕ) → List JobAlarm
  check_file groups (some file) = alarms_of (is_job_ok groups file)
  check_file groups none = fail_to_open_dram ∷ alarms_of (is_job_ok groups [])

  -- Ros_InformChecker_ValidateJob
  unfoldable pub validate_job : Bool → JobFiles → List ℕ → Line → List CtrlGroup → Checked
  unfolding is_job_ok create_job job_text
  validate_job allow_custom files name date groups =
      if not files.job_exists then create_job files (job_text ids m name date groups) else record {
        alarms = (if allow_custom then [] else check_file groups files.opened);
        loaded = none;
      }
