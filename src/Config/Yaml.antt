-- ===== src/Config/Yaml.antt =====
-- The events of the YAML parser: Ros_ConfigFile_CheckYamlEvent of src/ConfigFile.c.
use motoros.Prelude.{
  ℕ, ◌+◌, ◌-◌, ℤ, pos, ◌+ℤ◌, ◌-ℤ◌, eqb_ℤ, true, false, Option, none, some, List, [], ◌∷◌, ◌++◌, set,
  if◌then◌else◌,
}
use motoros.MotoPlus.{Model, dx100, fs100, dx200, yrc1000, yrc1000u}
use motoros.Controller.{strncmp_eq}
use motoros.Inform.{codes}
use motoros.Inform.Header.{atoi}
use motoros.Config.Items.{
  strcmp_eq, is_in, Item, value_string, value_int, value_bool, value_qos, value_joint_name_array,
  value_user_lan_port, items, find_item, true_words, false_words,
}
use motoros.Config.{
  Settings, sensor_data, default_profile, LanPort, lan_disabled, user_lan1, user_lan2, ConfigAlarm,
  invalid_boolean_value, invalid_qos_value,
}

-- The state between two events: the settings and the static variables of the handler.
-- `next_joint` is the entry of joint_names that joint_names_iterator points at, and `named` counts
-- the names of a group, from the 8 that jointIteratorCountdownPerGroup starts with. A pointer before
-- the array stays at its beginning here.
pub record Parser : Type 0 where
  pub settings : Settings
  pub active_item : Option Item
  pub nested_list_counter : ℤ
  pub named : ℕ
  pub next_joint : ℕ
  pub alarms : List ConfigAlarm

pub data YamlEvent : Type 0 where
  scalar : List ℕ → YamlEvent
  sequence_start sequence_end other_event : YamlEvent

-- strncpy of 128 characters, which also clears the three entries behind it, of 32 characters each. A
-- name of more than 31 characters would run into the entries behind it, which the table of names does
-- not follow: what is stated of a name is stated of one with at most 31. A write behind the array is not followed.
abbrev pub write_name : ℕ → List ℕ → List (List ℕ) → List (List ℕ)
write_name n name names = set (set (set (set names n name) (n + 1) []) (n + 2) []) (n + 3) []

abbrev pub with_settings : Parser → Settings → Parser
with_settings p s = record p { settings = s }

abbrev pub with_alarm : Parser → ConfigAlarm → Parser
with_alarm p a = record p { alarms = p.alarms ++ (a ∷ []) }

-- The port of a value; the controllers with one port override it.
abbrev pub port_of : Model → List ℕ → LanPort
port_of fs100 cs = user_lan1
port_of dx200 cs = user_lan1
port_of dx100 cs = user_lan1
port_of yrc1000 cs =
    if strncmp_eq 9 cs (codes "USER_LAN1")
    then user_lan1
    else if strncmp_eq 9 cs (codes "USER_LAN2")
    then user_lan2
    else lan_disabled
port_of yrc1000u cs =
    if strncmp_eq 9 cs (codes "USER_LAN1")
    then user_lan1
    else if strncmp_eq 9 cs (codes "USER_LAN2")
    then user_lan2
    else lan_disabled

-- The value of an item
unfoldable pub set_value : Model → Parser → List ℕ → Item → Parser
unfolding strncmp_eq atoi
set_value m p cs (value_string put) = with_settings p (put cs p.settings)
set_value m p cs (value_int put) = with_settings p (put (atoi cs) p.settings)
set_value m p cs (value_bool put) =
    if is_in cs false_words
    then with_settings p (put false p.settings)
    else if is_in cs true_words
    then with_settings p (put true p.settings)
    else with_alarm p invalid_boolean_value
set_value m p cs (value_qos put) =
    if strcmp_eq cs (codes "sensor_data")
    then with_settings p (put sensor_data p.settings)
    else if strcmp_eq cs (codes "default")
    then with_settings p (put default_profile p.settings)
    else with_alarm (with_settings p (put default_profile p.settings)) invalid_qos_value
set_value m p cs value_joint_name_array = record p {
  settings = record p.settings { joint_names = write_name p.next_joint cs p.settings.joint_names };
  named = p.named + 1;
  next_joint = p.next_joint + 1;
}
set_value m p cs value_user_lan_port =
    with_settings p (record p.settings { userlan_monitor_port = port_of m cs })

-- An empty value changes nothing.
abbrev pub use_value : Model → Parser → List ℕ → Item → Parser
use_value m p [] item = p
use_value m p (c ∷ cs) item = set_value m p (c ∷ cs) item

-- Only the list of the joint names waits for more values.
abbrev pub still_active : Item → Option Item
still_active value_joint_name_array = some value_joint_name_array
still_active (value_string put) = none
still_active (value_int put) = none
still_active (value_bool put) = none
still_active (value_qos put) = none
still_active value_user_lan_port = none

abbrev pub key_of : List ℕ → Option Item
key_of [] = none
key_of (c ∷ cs) = find_item (c ∷ cs) items

abbrev pub see_scalar : Model → Parser → List ℕ → Option Item → Parser
see_scalar m p cs (some item) = record (use_value m p cs item) { active_item = still_active item }
see_scalar m p cs none = record p { active_item = key_of cs }

-- A list is looked at through the active item: none is the use of a NULL pointer.
abbrev pub see_start : Parser → Option Item → Option Parser
see_start p none = none
see_start p (some value_joint_name_array) =
    some (record p { nested_list_counter = p.nested_list_counter +ℤ pos 1; named = 0 })
see_start p (some (value_string put)) = some p
see_start p (some (value_int put)) = some p
see_start p (some (value_bool put)) = some p
see_start p (some (value_qos put)) = some p
see_start p (some value_user_lan_port) = some p

abbrev pub see_end : Parser → Option Item → Option Parser
see_end p none = none
see_end p (some value_joint_name_array) =
    let depth = p.nested_list_counter -ℤ pos 1 in
    some (record p {
      nested_list_counter = depth;
      next_joint = (p.next_joint + 8) - p.named;
      active_item = (if eqb_ℤ depth (pos 0) then none else p.active_item);
    })
see_end p (some (value_string put)) = some p
see_end p (some (value_int put)) = some p
see_end p (some (value_bool put)) = some p
see_end p (some (value_qos put)) = some p
see_end p (some value_user_lan_port) = some p

-- Ros_ConfigFile_CheckYamlEvent
unfoldable pub check_yaml_event : Model → Parser → YamlEvent → Option Parser
unfolding set_value
check_yaml_event m p (scalar cs) = some (see_scalar m p cs p.active_item)
check_yaml_event m p sequence_start = see_start p p.active_item
check_yaml_event m p sequence_end = see_end p p.active_item
check_yaml_event m p other_event = some p

abbrev pub then_event : Model → Option Parser → YamlEvent → Option Parser
then_event m none e = none
then_event m (some p) e = check_yaml_event m p e

-- The loop over the events in Ros_ConfigFile_Parse, of a file that the parser accepts
unfoldable pub check_yaml_events : Model → Option Parser → List YamlEvent → Option Parser
unfolding check_yaml_event
check_yaml_events m p [] = p
check_yaml_events m p (e ∷ es) = check_yaml_events m (then_event m p e) es
