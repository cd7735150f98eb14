-- ===== src/Startup/Tests.antt =====
-- A controller with a robot of six axes and a station of one axis.
use motoros.Prelude.{
  ℕ, ◌≡◌, refl, pos, Bool, true, false, Option, none, some, List, [], ◌∷◌, ◌++◌, ◌==◌, replicate,
  if◌then◌else◌,
}
use motoros.Data.{axis_rotation, no_coord}
use motoros.CtrlGroup.Names.{Name, joint_names_in_moto_order, fill_names}
use motoros.CtrlGroup.{is_invalid_axis, get_pulse_pos_cmd, to_ros_pos}
use motoros.Startup.{
  Parameters, no_base_info, create_group, new_group, filled_group, group_id_of, adjust_types,
  max_speed_pulses,
}
use motoros.Startup.Initialize.{
  CalibData, Outcome, answered, asserted, null_group, initialize, set_default_names,
  set_calibration, make_groups, load_calibration, all_made, count_axes,
}
use motoros.Sample.Robot.{robot, ready_state}

abbrev parameters : Parameters
parameters = record {
  group_count = pos 2;
  axis_count = λ i. if i == 0 then pos 6 else pos 1;
  group_number = λ id. if id == 0 then some 0 else if id == 16 then some 1 else none;
  group_id = λ i. if i == 0 then 0 else 16;
  no_group_id = 255;
  tool_no = λ id. 3;
  base_axis_info = λ i. no_base_info;
  axis_motion_type = λ i. (true, replicate 8 axis_rotation);
  pulse_to_rad = λ i. (true, replicate 8 1);
  pulse_to_meter = λ i. (true, replicate 8 1);
  fb_pulse_correction = λ i. (true, []);
  max_inc_per_ip_cycle =
      λ i period. (true, if i == 0 then replicate 6 100 ++ replicate 2 0 else 50 ∷ replicate 7 0);
  is_baxis_slave = λ i. (true, false);
  speed_registers = λ i last. (true, none);
  is_pfl_enabled = (true, false);
  interpolation_period = (true, 4);
  interpolation_starts = λ i. true;
  motion_loop_starts = true;
}

abbrev one_file : ℕ → Option CalibData
one_file f =
    if f == 3
    then some (record { master = 0; slave = 0; place = record no_coord { x = pos 9 } })
    else none

abbrev no_names : List Name
no_names = replicate 64 []

abbrev succeeds : Outcome robot parameters → Bool
succeeds (answered ok s names) = ok
succeeds (asserted w) = false
succeeds null_group = false

two_groups : succeeds (initialize robot parameters true false one_file ready_state no_names) ≡ true
unfolding initialize make_groups create_group new_group filled_group group_id_of adjust_types
    max_speed_pulses to_ros_pos get_pulse_pos_cmd set_default_names joint_names_in_moto_order
    fill_names is_invalid_axis all_made load_calibration set_calibration count_axes
two_groups = refl
