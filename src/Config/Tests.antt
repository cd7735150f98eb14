-- ===== src/Config/Tests.antt =====
-- A network where the agent is found on the second interface, and settings with a bad period.
use motoros.Prelude.{
  ℕ, Bool, true, List, ◌≤◌, length, arith, ◌*◌, ◌+ℤ◌, ◌-ℤ◌, ◌≡◌, refl, pos, none, some, [], ◌∷◌,
}
use motoros.MotoPlus.{yrc1000}
use motoros.Config.{
  Settings, LanPort, lan_disabled, lan_auto, user_lan1, user_lan2, Network, Nic, Validated,
  default_values, and_bits, host_on_network_interface, is_agent_near, detect_port,
  invalid_feedback_period, validate_critical_settings, validate_non_critical_settings,
}
use motoros.Config.NameTable.{AllGroups}
use motoros.Config.Yaml.{Parser, scalar, check_yaml_events, check_yaml_event, set_value}
use motoros.Config.Load.{Drives, check_usb_for_new_config_file}
use motoros.Config.Loaded.{check_usb_for_new_config_file-copied}
use motoros.Config.JointNames.{joint_events, idle, InPlace, check_yaml_events-joint_names}
use motoros.Inform.{codes}
use motoros.Inform.Header.{atoi, digits}
use motoros.Controller.{strncmp_eq}
use motoros.Config.Valid.{IsValid, Answers, validate_non_critical_settings-IsValid}

-- 192.168.1.31 and 10.0.0.2, with masks of 24 bits and no gateway
abbrev nic_of : LanPort → Nic
nic_of user_lan1 = record { nic_ip = 3232235807; nic_subnetmask = 4294967040; nic_gateway = 0 }
nic_of user_lan2 = record { nic_ip = 167772162; nic_subnetmask = 4294967040; nic_gateway = 0 }
nic_of lan_auto = record { nic_ip = 0; nic_subnetmask = 0; nic_gateway = 0 }
nic_of lan_disabled = record { nic_ip = 0; nic_subnetmask = 0; nic_gateway = 0 }

-- The agent is 10.0.0.9.
abbrev two_nets : Network
two_nets = record { inet_addr = λ cs. 167772169; nic_data = λ p. some (nic_of p) }

abbrev late_feedback : Settings
late_feedback = record (default_values 1 2 3) {
  agent_ip_address = 49 ∷ [];
  agent_port_number = 56 ∷ [];
  action_feedback_publisher_period = pos 101;
}

is_accepted : validate_critical_settings two_nets yrc1000 late_feedback ≡ none
unfolding validate_critical_settings is_agent_near host_on_network_interface and_bits default_values
is_accepted = refl

becomes_valid :
    validate_non_critical_settings two_nets yrc1000 late_feedback
    ≡ some (record {
      settings = record late_feedback {
        action_feedback_publisher_period = pos 20;
        userlan_monitor_port = user_lan2;
      };
      alarms = invalid_feedback_period ∷ [];
    })
unfolding validate_non_critical_settings detect_port host_on_network_interface and_bits
    default_values
becomes_valid = refl

two_nets-Answers : Answers two_nets
two_nets-Answers p = (nic_of p, refl)

validate_non_critical_settings-IsValid_example :
    (v : Validated) × (validate_non_critical_settings two_nets yrc1000 late_feedback ≡ some v)
    × IsValid yrc1000 v.settings
    × (validate_non_critical_settings two_nets yrc1000 v.settings
        ≡ some (record { settings = v.settings; alarms = [] }))
validate_non_critical_settings-IsValid_example =
    validate_non_critical_settings-IsValid two_nets yrc1000 late_feedback two_nets-Answers

default_values-room : 8 * 2 ≤ length (default_values 1 2 3).joint_names
unfolding default_values
default_values-room = omega arith

-- A group of two joints and one of one joint
abbrev two_groups : List (List (List ℕ))
two_groups = (codes "a" ∷ codes "b" ∷ []) ∷ (codes "c" ∷ []) ∷ []

two_groups-AllGroups : AllGroups two_groups
two_groups-AllGroups = (
  (λ e. absurd (cc e), omega arith, (λ e. absurd (cc e), omega arith, tt)),
  omega arith,
  ((λ e. absurd (cc e), omega arith, tt), omega arith, tt),
)

reads_period :
    check_yaml_events yrc1000
      (some (idle late_feedback []))
      (scalar (codes "action_feedback_publisher_period") ∷ scalar (codes "50") ∷ [])
    ≡ some (idle (record late_feedback { action_feedback_publisher_period = pos 50 }) [])
unfolding check_yaml_events check_yaml_event set_value strncmp_eq atoi digits ◌+ℤ◌ ◌-ℤ◌
    default_values
reads_period = refl

check_yaml_events-joint_names_example :
    (q : Parser) × (check_yaml_events yrc1000
        (some (idle (default_values 1 2 3) []))
        (joint_events two_groups)
      ≡ some q)
    × (q.active_item ≡ none)
    × InPlace two_groups q.settings.joint_names
check_yaml_events-joint_names_example =
    check_yaml_events-joint_names yrc1000 (default_values 1 2 3) [] two_groups default_values-room
      two_groups-AllGroups

abbrev write_all : ℕ → List ℕ → Bool × List ℕ
write_all i chunk = (true, chunk)

abbrev with_old_file : Drives
with_old_file = record { usb = some (97 ∷ 98 ∷ 99 ∷ []); processed = none; sram = some (122 ∷ []) }

check_usb_for_new_config_file-copied_example :
    check_usb_for_new_config_file write_all true 3 with_old_file
    ≡ some (
      record { usb = none; processed = some (97 ∷ 98 ∷ 99 ∷ []); sram = some (97 ∷ 98 ∷ 99 ∷ []) },
      [],
    )
check_usb_for_new_config_file-copied_example =
    check_usb_for_new_config_file-copied write_all 3 with_old_file (97 ∷ 98 ∷ 99 ∷ [])
      (λ i chunk. refl) refl (omega arith)
