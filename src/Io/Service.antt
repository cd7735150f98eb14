-- ===== src/Io/Service.antt =====
-- The six handlers of src/ServiceReadWriteIO.c. A handler returns the response, and a write the
-- controller after it. The result codes and their texts are those of motoros2_interfaces.
use Prim.Native.Nat.{bit_and, bit_or}
use motoros.Prelude.{
  ℕ, ◌+◌, ◌*◌, ◌/◌, ◌^◌, ℤ, pos, Bool, false, ◌&&◌, List, [], ◌∷◌, ltb, eqb_ℤ, get_or,
  if◌then◌else◌,
}
use motoros.MotoPlus.{Model, MotoPlus}
use motoros.Io.Access.{
  bit, group, register, u32, is_valid_read_address, is_valid_write_address, is_valid_write_value,
}

pub data IoResultCode : Type 0 where
  ok read_address_invalid write_address_invalid write_value_invalid read_api_error write_api_error :
      IoResultCode

-- The constants `.._STR`.
pub data IoMessage : Type 0 where
  ok_str read_address_invalid_str write_address_invalid_str write_value_invalid_str
        read_api_error_str write_api_error_str :
      IoMessage

-- Ros_IoServer_ResultCodeToStr
pub result_code_to_str : IoResultCode → IoMessage
result_code_to_str ok = ok_str
result_code_to_str read_address_invalid = read_address_invalid_str
result_code_to_str write_address_invalid = write_address_invalid_str
result_code_to_str write_value_invalid = write_value_invalid_str
result_code_to_str read_api_error = read_api_error_str
result_code_to_str write_api_error = write_api_error_str

pub record ReadResponse : Type 0 where
  pub value : ℕ
  pub result_code : IoResultCode
  pub success : Bool
  pub message : IoMessage

pub record WriteResponse : Type 0 where
  pub result_code : IoResultCode
  pub success : Bool
  pub message : IoMessage

abbrev read_answer : ℕ → IoResultCode → Bool → ReadResponse
read_answer v c s = record {
  value = v;
  result_code = c;
  success = s;
  message = result_code_to_str c;
}

abbrev write_answer : IoResultCode → Bool → WriteResponse
write_answer c s = record { result_code = c; success = s; message = result_code_to_str c }

-- `apiRet == OK`
abbrev pub api_ok : ℤ → Bool
api_ok ret = eqb_ℤ ret (pos 0)

abbrev read_result : ℤ → ℕ → ReadResponse
read_result ret v = read_answer v (if api_ok ret then ok else read_api_error) (api_ok ret)

abbrev write_result : ℤ → WriteResponse
write_result ret = write_answer (if api_ok ret then ok else write_api_error) (api_ok ret)

abbrev write_refused : Bool → WriteResponse
write_refused address_ok =
    write_answer (if address_ok then write_value_invalid else write_address_invalid) false

-- The addresses `(request->address * 10) + i`, i < 8.
abbrev pub group_addresses : ℕ → List ℕ
group_addresses address =
    let base = address * 10 in
    u32 base
    ∷ u32 (base + 1)
    ∷ u32 (base + 2)
    ∷ u32 (base + 3)
    ∷ u32 (base + 4)
    ∷ u32 (base + 5)
    ∷ u32 (base + 6)
    ∷ u32 (base + 7)
    ∷ []

-- `resultValue |= (ioValue[i] << i)`, from bit `i` on
unfoldable pub combine_from : ℕ → ℕ → List ℕ → ℕ
combine_from acc i [] = acc
combine_from acc i (v ∷ vs) = combine_from (bit_or acc (v * 2 ^ i)) (i + 1) vs

-- `(request->value & (1 << i)) >> i`
abbrev pub bit_of : ℕ → ℕ → ℕ
bit_of value i = bit_and value (2 ^ i) / 2 ^ i

abbrev pub group_bits : ℕ → List ℕ
group_bits v =
    bit_of v 0
    ∷ bit_of v 1
    ∷ bit_of v 2
    ∷ bit_of v 3
    ∷ bit_of v 4
    ∷ bit_of v 5
    ∷ bit_of v 6
    ∷ bit_of v 7
    ∷ []

abbrev pub group_cells : ℕ → ℕ → List (ℕ × ℕ)
group_cells address v =
    let base = address * 10 in
    (u32 base, bit_of v 0)
    ∷ (u32 (base + 1), bit_of v 1)
    ∷ (u32 (base + 2), bit_of v 2)
    ∷ (u32 (base + 3), bit_of v 3)
    ∷ (u32 (base + 4), bit_of v 4)
    ∷ (u32 (base + 5), bit_of v 5)
    ∷ (u32 (base + 6), bit_of v 6)
    ∷ (u32 (base + 7), bit_of v 7)
    ∷ []

-- `if (request->address < 1000000) request->address += 1000000`
abbrev pub register_address : ℕ → ℕ
register_address address = if ltb address 1000000 then address + 1000000 else address

module _ (m : Model) (api : MotoPlus) where
  open api use {World, read_io, write_io}

  unfoldable pub read_single_io : World → ℕ → ReadResponse
  unfolding result_code_to_str
  read_single_io w address =
      if is_valid_read_address m address bit
      then (let (ret, values) = read_io w (address ∷ []) (0 ∷ []) in
          read_result ret (get_or values 0 0))
      else read_answer 0 read_address_invalid false

  -- `buffer` is what `ioValue`, which the source does not initialise, holds before the call.
  unfoldable pub read_group_io : World → List ℕ → ℕ → ReadResponse
  unfolding result_code_to_str combine_from
  read_group_io w buffer address =
      if is_valid_read_address m address group
      then (let (ret, values) = read_io w (group_addresses address) buffer in
          read_result ret (combine_from 0 0 values))
      else read_answer 0 read_address_invalid false

  unfoldable pub write_single_io : World → ℕ → ℕ → WriteResponse × World
  unfolding result_code_to_str
  write_single_io w address value =
      let address_ok = is_valid_write_address m address bit in
      let value_ok = is_valid_write_value value bit in
      if address_ok && value_ok
      then (let (ret, w') = write_io w ((address, value) ∷ []) in (write_result ret, w'))
      else (write_refused address_ok, w)

  unfoldable pub write_group_io : World → ℕ → ℕ → WriteResponse × World
  unfolding result_code_to_str
  write_group_io w address value =
      let address_ok = is_valid_write_address m address group in
      let value_ok = is_valid_write_value value group in
      if address_ok && value_ok
      then (let (ret, w') = write_io w (group_cells address value) in (write_result ret, w'))
      else (write_refused address_ok, w)

  unfoldable pub read_m_register : World → ℕ → ReadResponse
  unfolding result_code_to_str
  read_m_register w address =
      let a = register_address address in
      if is_valid_read_address m a register
      then (let (ret, values) = read_io w (a ∷ []) (0 ∷ []) in read_result ret (get_or values 0 0))
      else read_answer 0 read_address_invalid false

  unfoldable pub write_m_register : World → ℕ → ℕ → WriteResponse × World
  unfolding result_code_to_str
  write_m_register w address value =
      let a = register_address address in
      let address_ok = is_valid_write_address m a register in
      let value_ok = is_valid_write_value value register in
      if address_ok && value_ok
      then (let (ret, w') = write_io w ((a, value) ∷ []) in (write_result ret, w'))
      else (write_refused address_ok, w)
