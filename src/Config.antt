-- ===== src/Config.antt =====
-- The settings of src/ConfigFile.h, their defaults and their validation in src/ConfigFile.c.
pub mod Valid
pub mod Items
pub mod Yaml
pub mod NameTable
pub mod JointNames
pub mod Load
pub mod Loaded
mod Tests
use motoros.Prelude.{
  ℕ, zero, suc, ◌+◌, ◌-◌, ◌*◌, ◌/◌, ◌%◌, ◌≤◌, ◌≡◌, ℤ, pos, negsuc, Bool, true, false, not, ◌&&◌,
  ◌||◌, Option, none, some, List, [], ◌∷◌, ◌++◌, length, replicate, leb, ltb, ◌==◌, if◌then◌else◌,
}
use motoros.MotoPlus.{Model, dx100, fs100, dx200, yrc1000, yrc1000u}
use motoros.Inform.{codes}

-- Ros_QoS_Profile_Setting
pub data Qos : Type 0 where
  sensor_data parameters default_profile services parameter_events system_default : Qos

-- Ros_UserLan_Port_Setting
pub data LanPort : Type 0 where
  lan_disabled lan_auto user_lan1 user_lan2 : LanPort

-- Ros_Configuration_Settings; a string is the list of its characters.
pub record Settings : Type 0 where
  pub ros_domain_id : ℤ
  pub node_name : List ℕ
  pub node_namespace : List ℕ
  pub remap_rules : List ℕ
  pub agent_ip_address : List ℕ
  pub agent_port_number : List ℕ
  pub sync_timeclock_with_agent : Bool
  pub publish_tf : Bool
  pub namespace_tf : Bool
  pub joint_names : List (List ℕ)
  pub log_to_stdout : Bool
  pub executor_sleep_period : ℤ
  pub action_feedback_publisher_period : ℤ
  pub controller_status_monitor_period : ℤ
  pub qos_robot_status : Qos
  pub qos_joint_states : Qos
  pub qos_tf : Qos
  pub tf_frame_prefix : List ℕ
  pub stop_motion_on_disconnect : Bool
  pub inform_job_name : List ℕ
  pub allow_custom_inform_job : Bool
  pub userlan_monitor_enabled : Bool
  pub userlan_monitor_port : LanPort
  pub ignore_missing_calib_data : Bool

-- `%02x` of a byte
abbrev hex_digit : ℕ → ℕ
hex_digit n = if ltb n 10 then 48 + n else 87 + n

abbrev pub hex_byte : ℕ → List ℕ
hex_byte b = hex_digit (b / 16) ∷ hex_digit (b % 16) ∷ []

-- Ros_ConfigFile_SetAllDefaultValues, with the last three bytes of the address of the first interface
unfoldable pub default_values : ℕ → ℕ → ℕ → Settings
default_values mac3 mac4 mac5 = record {
  ros_domain_id = pos 0;
  node_name = codes "motoman_" ++ (hex_byte mac3 ++ (95 ∷ (hex_byte mac4 ++ (95 ∷ hex_byte mac5))));
  node_namespace = [];
  remap_rules = [];
  agent_ip_address = [];
  agent_port_number = [];
  sync_timeclock_with_agent = true;
  publish_tf = true;
  namespace_tf = true;
  joint_names = replicate 64 [];
  log_to_stdout = false;
  executor_sleep_period = pos 10;
  action_feedback_publisher_period = pos 20;
  controller_status_monitor_period = pos 10;
  qos_robot_status = sensor_data;
  qos_joint_states = sensor_data;
  qos_tf = default_profile;
  tf_frame_prefix = [];
  stop_motion_on_disconnect = true;
  inform_job_name = codes "INIT_ROS";
  allow_custom_inform_job = false;
  userlan_monitor_enabled = true;
  userlan_monitor_port = lan_auto;
  ignore_missing_calib_data = false;
}

-- Ros_ConfigFile_Rmw_Qos_ProfileSetting_ToString
unfoldable pub qos_to_string : Qos → List ℕ
qos_to_string sensor_data = codes "sensor_data"
qos_to_string parameters = codes "parameters"
qos_to_string default_profile = codes "default"
qos_to_string services = codes "services"
qos_to_string parameter_events = codes "parameter_events"
qos_to_string system_default = codes "system_default"

-- `a & b` on the lowest `n` bits
unfoldable pub and_bits : ℕ → ℕ → ℕ → ℕ
and_bits zero a b = 0
and_bits (suc n) a b =
    let rest = 2 * and_bits n (a / 2) (b / 2) in
    if ((a % 2) == 1) && ((b % 2) == 1) then rest + 1 else rest

-- The address, the subnet mask and the gateway of an interface
pub record Nic : Type 0 where
  pub nic_ip : ℕ
  pub nic_subnetmask : ℕ
  pub nic_gateway : ℕ

-- The platform's mpInetAddr, and Ros_mpNICData of an interface: none if the status is not OK
pub record Network : Type 0 where
  pub inet_addr : List ℕ → ℕ
  pub nic_data : LanPort → Option Nic

abbrev pub same_net : ℕ → ℕ → ℕ → Bool
same_net mask a b = and_bits 32 a mask == and_bits 32 b mask

abbrev pub is_on_network : ℕ → Option Nic → Option Bool
is_on_network host none = none
is_on_network host (some nic) = some (
    same_net nic.nic_subnetmask nic.nic_ip host
    || (not (nic.nic_gateway == 0) && same_net nic.nic_subnetmask nic.nic_gateway host))

-- Ros_ConfigFile_HostOnNetworkInterface: none is a status other than OK.
unfoldable pub host_on_network_interface : Network → List ℕ → LanPort → Option Bool
unfolding and_bits
host_on_network_interface net host port = is_on_network (net.inet_addr host) (net.nic_data port)

-- The interfaces of a controller; the program is not built for the DX100.
abbrev pub lan_ports : Model → List LanPort
lan_ports yrc1000 = user_lan1 ∷ user_lan2 ∷ []
lan_ports yrc1000u = user_lan1 ∷ user_lan2 ∷ []
lan_ports fs100 = user_lan1 ∷ []
lan_ports dx200 = user_lan1 ∷ []
lan_ports dx100 = user_lan1 ∷ []

-- The subcodes of the failed assertions
pub data AssertCode : Type 0 where
  invalid_domain_id missing_agent_ip agent_on_net_check invalid_agent_subnet : AssertCode
  invalid_node_name invalid_job_name : AssertCode

-- An interface is asked only if the agent was not found on those before it.
abbrev pub after_check : Option Bool → Option Bool → Option Bool
after_check (some false) later = later
after_check r later = r

unfoldable pub is_agent_near : Network → List ℕ → List LanPort → Option Bool
unfolding host_on_network_interface
is_agent_near net host [] = some false
is_agent_near net host (p ∷ ps) =
    after_check (host_on_network_interface net host p) (is_agent_near net host ps)

abbrev pub is_empty : List ℕ → Bool
is_empty [] = true
is_empty (c ∷ cs) = false

-- `lo <= n && n <= hi`
abbrev pub is_between : ℕ → ℕ → ℤ → Bool
is_between lo hi (pos n) = leb lo n && leb n hi
is_between lo hi (negsuc n) = false

abbrev pub names_code : Settings → Option AssertCode
names_code s =
    if is_empty s.node_name
    then some invalid_node_name
    else if is_empty s.inform_job_name
    then some invalid_job_name
    else none

abbrev pub subnet_code : Settings → Option Bool → Option AssertCode
subnet_code s none = some agent_on_net_check
subnet_code s (some false) = some invalid_agent_subnet
subnet_code s (some true) = names_code s

-- Ros_ConfigFile_ValidateCriticalSettings: the assertion that fails, at which the task stops.
unfoldable pub validate_critical_settings : Network → Model → Settings → Option AssertCode
unfolding is_agent_near
validate_critical_settings net m s =
    if not (is_between 0 101 s.ros_domain_id)
    then some invalid_domain_id
    else if is_empty s.agent_ip_address || is_empty s.agent_port_number
    then some missing_agent_ip
    else subnet_code s (is_agent_near net s.agent_ip_address (lan_ports m))

-- The subcodes of ALARM_CONFIGURATION_FAIL
pub data ConfigAlarm : Type 0 where
  invalid_executor_period invalid_feedback_period invalid_io_period : ConfigAlarm
  auto_detect_failed invalid_userlan_monitor_port : ConfigAlarm
  invalid_boolean_value invalid_qos_value : ConfigAlarm

-- The settings after a check, and the alarms in order
pub record Validated : Type 0 where
  pub settings : Settings
  pub alarms : List ConfigAlarm

-- A period that is not from 1 to 100 is set to its default.
abbrev pub period_or : ℕ → ℤ → ℤ
period_or default z = if is_between 1 100 z then z else pos default

abbrev pub period_alarm : ConfigAlarm → ℤ → List ConfigAlarm
period_alarm a z = if is_between 1 100 z then [] else a ∷ []

abbrev pub check_periods : Settings → Validated
check_periods s = record {
  settings = record s {
    executor_sleep_period = period_or 10 s.executor_sleep_period;
    action_feedback_publisher_period = period_or 20 s.action_feedback_publisher_period;
    controller_status_monitor_period = period_or 10 s.controller_status_monitor_period;
  };
  alarms =
      period_alarm invalid_executor_period s.executor_sleep_period
      ++ (period_alarm invalid_feedback_period s.action_feedback_publisher_period
          ++ period_alarm invalid_io_period s.controller_status_monitor_period);
}

abbrev pub is_auto : LanPort → Bool
is_auto lan_auto = true
is_auto lan_disabled = false
is_auto user_lan1 = false
is_auto user_lan2 = false

abbrev pub is_lan_port : Model → LanPort → Bool
is_lan_port m user_lan1 = true
is_lan_port yrc1000 user_lan2 = true
is_lan_port yrc1000u user_lan2 = true
is_lan_port fs100 user_lan2 = false
is_lan_port dx200 user_lan2 = false
is_lan_port dx100 user_lan2 = false
is_lan_port m lan_auto = false
is_lan_port m lan_disabled = false

-- The port that the agent was found on, or auto; none is a failed assertion.
abbrev pub port_found : LanPort → Option LanPort → Option Bool → Option LanPort
port_found p later none = none
port_found p later (some true) = some p
port_found p later (some false) = later

unfoldable pub detect_port : Network → List ℕ → List LanPort → Option LanPort
unfolding host_on_network_interface
detect_port net host [] = some lan_auto
detect_port net host (p ∷ ps) =
    port_found p (detect_port net host ps) (host_on_network_interface net host p)

-- What is done about the port, configured or detected
abbrev pub judge_port : Model → Settings → Option LanPort → Option Validated
judge_port m s none = none
judge_port m s (some port) = some (
    if is_auto port
    then record {
      settings = record s { userlan_monitor_port = port; userlan_monitor_enabled = false };
      alarms = auto_detect_failed ∷ [];
    }
    else if is_lan_port m port
    then record { settings = record s { userlan_monitor_port = port }; alarms = [] }
    else record {
      settings = record s { userlan_monitor_port = port; userlan_monitor_enabled = false };
      alarms = invalid_userlan_monitor_port ∷ [];
    })

abbrev pub port_to_watch : Network → Model → Settings → Option LanPort
port_to_watch net m s =
    if is_auto s.userlan_monitor_port
    then detect_port net s.agent_ip_address (lan_ports m)
    else some s.userlan_monitor_port

abbrev pub check_monitor : Network → Model → Settings → Option Validated
check_monitor net m s =
    if s.userlan_monitor_enabled
    then judge_port m s (port_to_watch net m s)
    else some (record { settings = s; alarms = [] })

abbrev pub with_alarms : List ConfigAlarm → Option Validated → Option Validated
with_alarms before none = none
with_alarms before (some v) = some (record v { alarms = before ++ v.alarms })

-- Ros_ConfigFile_ValidateNonCriticalSettings; none is the failed assertion that an interface can be
-- asked, at which the task stops.
unfoldable pub validate_non_critical_settings : Network → Model → Settings → Option Validated
validate_non_critical_settings net m s =
    let v = check_periods s in with_alarms v.alarms (check_monitor net m v.settings)
