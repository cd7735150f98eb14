-- ===== src/Config/Load.antt =====
-- The files of the configuration in src/ConfigFile.c: the copy from USB and the loop of
-- Ros_ConfigFile_Parse, which waits for a file that it can open.
use motoros.Prelude.{ℕ, zero, suc, ◌+◌, Bool, true, false, Option, none, some, List, [], ◌∷◌, ◌++◌}
use motoros.MotoPlus.{Model, dx100, fs100, dx200, yrc1000, yrc1000u}
use motoros.Inform.{split_at}
use motoros.Config.{
  Settings, Network, AssertCode, Validated, validate_critical_settings,
  validate_non_critical_settings,
}
use motoros.Config.Yaml.{Parser, YamlEvent, check_yaml_events}

-- The subcodes of ALARM_CONFIGURATION_FAIL that are about the files
pub data FileAlarm : Type 0 where
  missing_file sram_access_failure sram_write_failure : FileAlarm

-- The file of the configuration on both drives, and the copy on USB that is marked as processed
pub record Drives : Type 0 where
  pub usb : Option (List ℕ)
  pub processed : Option (List ℕ)
  pub sram : Option (List ℕ)

-- BUFFER_SIZE
abbrev pub chunk_size : ℕ
chunk_size = 1024

-- A chunk that was written whole, or not
abbrev pub then_copy :
    (List ℕ → Option (List ℕ × List FileAlarm))
    → List ℕ
    → Bool × List ℕ
    → Option (List ℕ × List FileAlarm)
then_copy later out (true, written) = later (out ++ written)
then_copy later out (false, written) =
    some (out ++ written, sram_write_failure ∷ sram_write_failure ∷ [])

-- The loop that copies, with what is in the new file. `write i chunk` is whether write `i` takes the
-- whole chunk, and what it puts into the file; none is a want of turns.
unfoldable pub copy_chunks :
    (ℕ → List ℕ → Bool × List ℕ) → ℕ → ℕ → List ℕ → List ℕ → Option (List ℕ × List FileAlarm)
unfolding split_at
copy_chunks write n i [] out = some (out, [])
copy_chunks write zero i (c ∷ cs) out = none
copy_chunks write (suc n) i (c ∷ cs) out =
    let r = split_at chunk_size (c ∷ cs) in
    then_copy (copy_chunks write n (i + 1) r.1) out (write i r.0)

-- The file is renamed whether the copy succeeded or not.
abbrev pub copied :
    Drives → List ℕ → Option (List ℕ × List FileAlarm) → Option (Drives × List FileAlarm)
copied d file none = none
copied d file (some (out, alarms)) =
    some (record { usb = none; processed = some file; sram = some out }, alarms)

-- Ros_ConfigFile_CheckUsbForNewConfigFile, with paths that fit their buffers; `creates` is whether the
-- new file can be created.
unfoldable pub check_usb_for_new_config_file :
    (ℕ → List ℕ → Bool × List ℕ) → Bool → ℕ → Drives → Option (Drives × List FileAlarm)
unfolding copy_chunks
check_usb_for_new_config_file write creates turns d = elim d.usb [
  | none ↦ some (d, [])
  | some file ↦ elim creates [
    | false ↦ some (record d { sram = none }, sram_access_failure ∷ sram_access_failure ∷ [])
    | true ↦ copied d file (copy_chunks write turns 0 file [])
  ]
]

-- The copy is made on the controllers that keep the file in SRAM.
abbrev pub copies_from_usb : Model → Bool
copies_from_usb yrc1000 = true
copies_from_usb yrc1000u = true
copies_from_usb fs100 = false
copies_from_usb dx200 = false
copies_from_usb dx100 = false

-- A try to open the file: the events of what it holds, if it can be opened. A file that the parser does
-- not accept is not followed.
abbrev pub Try : Type 0
Try = Option (List YamlEvent)

abbrev pub alarm_once : Bool → List FileAlarm
alarm_once true = missing_file ∷ []
alarm_once false = []

abbrev pub with_file_alarms :
    List FileAlarm
    → Option (Option Parser × List FileAlarm)
    → Option (Option Parser × List FileAlarm)
with_file_alarms before none = none
with_file_alarms before (some (p, alarms)) = some (p, before ++ alarms)

-- The loop of Ros_ConfigFile_Parse over the tries, where `first` is bAlarmOnce: the state of the handler
-- of events, if no NULL was used, and the alarms; none if no try opens the file.
unfoldable pub parse_file :
    Model → Parser → Bool → List Try → Option (Option Parser × List FileAlarm)
unfolding check_yaml_events
parse_file m p first [] = none
parse_file m p first (none ∷ ts) = with_file_alarms (alarm_once first) (parse_file m p false ts)
parse_file m p first (some events ∷ ts) = some (check_yaml_events m (some p) events, [])

-- How the reading of the configuration ends: halted by an assertion, or with the settings that were
-- checked
pub data Loaded : Type 0 where
  halted : Option AssertCode → Loaded
  loaded : Validated → Loaded

abbrev pub check_non_critical : Option Validated → Loaded
check_non_critical none = halted none
check_non_critical (some v) = loaded v

abbrev pub check_critical : Option AssertCode → Option Validated → Loaded
check_critical (some code) later = halted (some code)
check_critical none later = check_non_critical later

-- What follows the loop
unfoldable pub validate : Network → Model → Settings → Loaded
unfolding validate_critical_settings validate_non_critical_settings
validate net m s =
    check_critical (validate_critical_settings net m s) (validate_non_critical_settings net m s)
