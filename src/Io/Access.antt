-- ===== src/Io/Access.antt =====
-- The checks of src/ServiceReadWriteIO.c: Ros_IoServer_IsValidReadAddress,
-- Ros_IoServer_IsValidWriteAddress and Ros_IoServer_IsValidWriteValue.
use motoros.Prelude.{ℕ, ◌*◌, ◌%◌, Bool, true, false, ◌||◌, ltb, if◌then◌else◌}
use motoros.MotoPlus.{Model}
use motoros.Io.Ranges.{IoRanges, within, ranges}

pub data IoAccessSize : Type 0 where
  bit group register : IoAccessSize

-- UINT32
abbrev pub u32 : ℕ → ℕ
u32 n = n % 4294967296

-- `if (size == IO_ACCESS_GROUP) address *= 10`
abbrev pub scaled : ℕ → IoAccessSize → ℕ
scaled address group = u32 (address * 10)
scaled address _ = address

-- `size != IO_ACCESS_REGISTER && mod > 7`
abbrev pub bad_digit : ℕ → IoAccessSize → Bool
bad_digit address register = false
bad_digit address _ = ltb 7 (address % 10)

abbrev pub readable : IoRanges → ℕ → Bool
readable r a =
    within a r.general_in
    || within a r.general_out
    || within a r.external_in
    || within a r.network_in
    || within a r.network_out
    || within a r.external_out
    || within a r.specific_in
    || within a r.specific_out
    || within a r.if_panel
    || within a r.aux_relay
    || within a r.control_status
    || within a r.pseudo_input
    || within a r.register_read

abbrev pub writable : IoRanges → ℕ → Bool
writable r a =
    within a r.general_out
    || within a r.network_in
    || within a r.if_panel
    || within a r.register_write

unfoldable pub is_valid_read_address : Model → ℕ → IoAccessSize → Bool
unfolding within
is_valid_read_address m address size =
    let a = scaled address size in if bad_digit a size then false else readable (ranges m) a

unfoldable pub is_valid_write_address : Model → ℕ → IoAccessSize → Bool
unfolding within
is_valid_write_address m address size =
    let a = scaled address size in if bad_digit a size then false else writable (ranges m) a

-- The three tests of the source; a value is a UINT32.
unfoldable pub is_valid_write_value : ℕ → IoAccessSize → Bool
is_valid_write_value value register = if ltb 0xFFFF value then false else true
is_valid_write_value value group = if ltb 0xFF value then false else true
is_valid_write_value value bit = if ltb 1 value then false else true
