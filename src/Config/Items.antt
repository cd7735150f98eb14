-- ===== src/Config/Items.antt =====
-- The keys of the configuration file and where their values go: Ros_ConfigFile_Items of
-- src/ConfigFile.c, with the words for Booleans of Ros_ConfigFile_CheckYamlEvent.
use motoros.Prelude.{
  ℕ, suc, ℤ, Bool, true, false, Option, none, some, List, [], ◌∷◌, length, if◌then◌else◌,
}
use motoros.Controller.{strncmp_eq}
use motoros.Inform.{codes}
use motoros.Config.{Settings, Qos}

-- `strcmp(a, b) == 0`
abbrev pub strcmp_eq : List ℕ → List ℕ → Bool
strcmp_eq a b = strncmp_eq (suc (length a)) a b

abbrev pub is_in : List ℕ → List (List ℕ) → Bool
is_in cs [] = false
is_in cs (w ∷ ws) = let rest = is_in cs ws in if strcmp_eq cs w then true else rest

-- Configuration_Item without its key: the type of the value, and the place that it is written to
pub data Item : Type 0 where
  value_string : (List ℕ → Settings → Settings) → Item
  value_int : (ℤ → Settings → Settings) → Item
  value_bool : (Bool → Settings → Settings) → Item
  value_qos : (Qos → Settings → Settings) → Item
  value_joint_name_array value_user_lan_port : Item

-- Ros_ConfigFile_Items
abbrev pub items : List (List ℕ × Item)
items =
    (codes "ros_domain_id", value_int (λ z s. record s { ros_domain_id = z }))
    ∷ (codes "node_name", value_string (λ v s. record s { node_name = v }))
    ∷ (codes "node_namespace", value_string (λ v s. record s { node_namespace = v }))
    ∷ (codes "remap_rules", value_string (λ v s. record s { remap_rules = v }))
    ∷ (codes "agent_ip_address", value_string (λ v s. record s { agent_ip_address = v }))
    ∷ (codes "agent_port_number", value_string (λ v s. record s { agent_port_number = v }))
    ∷ (
      codes "sync_timeclock_with_agent",
      value_bool (λ b s. record s { sync_timeclock_with_agent = b }),
    )
    ∷ (codes "namespace_tf", value_bool (λ b s. record s { namespace_tf = b }))
    ∷ (codes "publish_tf", value_bool (λ b s. record s { publish_tf = b }))
    ∷ (codes "joint_names", value_joint_name_array)
    ∷ (codes "log_to_stdout", value_bool (λ b s. record s { log_to_stdout = b }))
    ∷ (codes "executor_sleep_period", value_int (λ z s. record s { executor_sleep_period = z }))
    ∷ (
      codes "action_feedback_publisher_period",
      value_int (λ z s. record s { action_feedback_publisher_period = z }),
    )
    ∷ (
      codes "controller_status_monitor_period",
      value_int (λ z s. record s { controller_status_monitor_period = z }),
    )
    ∷ (codes "robot_status", value_qos (λ q s. record s { qos_robot_status = q }))
    ∷ (codes "joint_states", value_qos (λ q s. record s { qos_joint_states = q }))
    ∷ (codes "tf", value_qos (λ q s. record s { qos_tf = q }))
    ∷ (codes "tf_frame_prefix", value_string (λ v s. record s { tf_frame_prefix = v }))
    ∷ (
      codes "stop_motion_on_disconnect",
      value_bool (λ b s. record s { stop_motion_on_disconnect = b }),
    )
    ∷ (codes "inform_job_name", value_string (λ v s. record s { inform_job_name = v }))
    ∷ (
      codes "allow_custom_inform_job",
      value_bool (λ b s. record s { allow_custom_inform_job = b }),
    )
    ∷ (
      codes "userlan_monitor_enabled",
      value_bool (λ b s. record s { userlan_monitor_enabled = b }),
    )
    ∷ (codes "userlan_monitor_port", value_user_lan_port)
    ∷ (
      codes "ignore_missing_calib_data",
      value_bool (λ b s. record s { ignore_missing_calib_data = b }),
    )
    ∷ []

-- The keys are all different.
abbrev pub find_item : List ℕ → List (List ℕ × Item) → Option Item
find_item cs [] = none
find_item cs ((key, item) ∷ rest) =
    let later = find_item cs rest in if strcmp_eq key cs then some item else later

abbrev pub true_words : List (List ℕ)
true_words =
    codes "y"
    ∷ codes "Y"
    ∷ codes "yes"
    ∷ codes "Yes"
    ∷ codes "YES"
    ∷ codes "true"
    ∷ codes "True"
    ∷ codes "TRUE"
    ∷ codes "on"
    ∷ codes "On"
    ∷ codes "ON"
    ∷ codes "1"
    ∷ []

abbrev pub false_words : List (List ℕ)
false_words =
    codes "n"
    ∷ codes "N"
    ∷ codes "no"
    ∷ codes "No"
    ∷ codes "NO"
    ∷ codes "false"
    ∷ codes "False"
    ∷ codes "FALSE"
    ∷ codes "off"
    ∷ codes "Off"
    ∷ codes "OFF"
    ∷ codes "0"
    ∷ []
