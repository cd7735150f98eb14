-- ===== src/Io/Tests.antt =====
-- The I/O services on the sample controller.
use motoros.Prelude.{◌≡◌, refl, true, [], ◌∷◌, ◌≤◌, ◌↔◌, ◌⊎◌}
use motoros.MotoPlus.{yrc1000}
use motoros.Sample.{SampleWorld, sample, quiet_world, sample-KeepsOutputs}
use motoros.Io.Access.{
  bit, group, register, is_valid_read_address, is_valid_write_address, is_valid_write_value,
}
use motoros.Io.Service.{
  ok, write_address_invalid, write_single_io, write_group_io, read_group_io, write_m_register,
  register_address, group_cells,
}
use motoros.Io.Addresses.{register_address-accepted}
use motoros.Io.Handlers.{IsAnswered, writes-IsAnswered, read-write_group}

register_address-accepted_example :
    ((is_valid_read_address yrc1000 (register_address 7) register ≡ true)
      ↔ ((7 ≤ 999) ⊎ (1000000 ≤ 7) × (7 ≤ 1000999)))
    × ((is_valid_write_address yrc1000 (register_address 7) register ≡ true)
        ↔ ((7 ≤ 559) ⊎ (1000000 ≤ 7) × (7 ≤ 1000559)))
register_address-accepted_example = register_address-accepted yrc1000 7

abbrev written : SampleWorld
unfolding write_group_io is_valid_write_address is_valid_write_value
written = (write_group_io yrc1000 sample quiet_world 1001 173).1

written_ok : (write_group_io yrc1000 sample quiet_world 1001 173).0.result_code ≡ ok
unfolding write_group_io is_valid_write_address is_valid_write_value
written_ok = refl

written_high : written.memory 10017 ≡ 1
unfolding write_group_io is_valid_write_address is_valid_write_value
written_high = refl

refused : (write_single_io yrc1000 sample quiet_world 10018 1).0.result_code ≡ write_address_invalid
unfolding write_single_io is_valid_write_address is_valid_write_value
refused = refl

read-write_group_example :
    let r =
      read_group_io yrc1000 sample (write_group_io yrc1000 sample quiet_world 1001 173).1 [] 1001 in
    (r.value ≡ 173) × (r.result_code ≡ ok) × (r.success ≡ true)
read-write_group_example =
    read-write_group yrc1000 sample quiet_world 1001 173 [] sample-KeepsOutputs written_ok

writes-IsAnswered_example :
    IsAnswered sample quiet_world
      (is_valid_write_address yrc1000 1001 bit)
      (is_valid_write_value 1 bit)
      ((1001, 1) ∷ [])
      (write_single_io yrc1000 sample quiet_world 1001 1)
    × IsAnswered sample quiet_world
        (is_valid_write_address yrc1000 1001 group)
        (is_valid_write_value 1 group)
        (group_cells 1001 1)
        (write_group_io yrc1000 sample quiet_world 1001 1)
    × IsAnswered sample quiet_world
        (is_valid_write_address yrc1000 (register_address 1001) register)
        (is_valid_write_value 1 register)
        ((register_address 1001, 1) ∷ [])
        (write_m_register yrc1000 sample quiet_world 1001 1)
writes-IsAnswered_example = writes-IsAnswered yrc1000 sample quiet_world 1001 1
