-- ===== src/Controller/StatusIndex.antt =====
-- The signals of the controller by their index (src/ControllerStatusIO.h), and two outputs.
use motoros.Prelude.{ℕ, Bool, true, false, if◌then◌else◌}
use motoros.MotoPlus.{Model, yrc1000, yrc1000u}

-- IoStatusIndex
abbrev pub alarm_major : ℕ
alarm_major = 0

abbrev pub alarm_minor : ℕ
alarm_minor = 1

abbrev pub alarm_system : ℕ
alarm_system = 2

abbrev pub alarm_user : ℕ
alarm_user = 3

abbrev pub error : ℕ
error = 4

abbrev pub play : ℕ
play = 5

abbrev pub teach : ℕ
teach = 6

abbrev pub remote : ℕ
remote = 7

abbrev pub operating : ℕ
operating = 8

abbrev pub hold : ℕ
hold = 9

abbrev pub servo : ℕ
servo = 10

abbrev pub estop_ex : ℕ
estop_ex = 11

abbrev pub estop_pp : ℕ
estop_pp = 12

abbrev pub estop_ctrl : ℕ
estop_ctrl = 13

abbrev pub waiting_ros : ℕ
waiting_ros = 14

abbrev pub in_eco_mode : ℕ
in_eco_mode = 15

abbrev pub cont_cyc_mode : ℕ
cont_cyc_mode = 16

abbrev pub pfl_stop : ℕ
pfl_stop = 17

abbrev pub pfl_escape : ℕ
pfl_escape = 18

abbrev pub pfl_avoiding : ℕ
pfl_avoiding = 19

abbrev pub pfl_avoid_joint : ℕ
pfl_avoid_joint = 20

abbrev pub pfl_avoid_trans : ℕ
pfl_avoid_trans = 21

-- `#if (YRC1000||YRC1000u)`
abbrev pub has_pfl : Model → Bool
has_pfl yrc1000 = true
has_pfl yrc1000u = true
has_pfl _ = false

-- IO_ROBOTSTATUS_MAX
abbrev pub io_status_max : Model → ℕ
io_status_max m = if has_pfl m then 22 else 17

-- IO_FEEDBACK_WAITING_MP_INCMOVE and IO_FEEDBACK_MP_INCMOVE_DONE
abbrev pub feedback_waiting_mp_incmove : ℕ
feedback_waiting_mp_incmove = 11120

abbrev pub feedback_mp_incmove_done : ℕ
feedback_mp_incmove_done = 11121

abbrev pub feedback_initialization_done : ℕ
feedback_initialization_done = 11122

abbrev pub feedback_controller_running : ℕ
feedback_controller_running = 11123

abbrev pub feedback_agent_connected : ℕ
feedback_agent_connected = 11124

abbrev pub feedback_failure : ℕ
feedback_failure = 11127
