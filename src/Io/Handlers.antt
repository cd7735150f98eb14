-- ===== src/Io/Handlers.antt =====
-- What the I/O handlers answer and what they send to the controller (src/ServiceReadWriteIO.c).
use motoros.Prelude.{
  ℕ, zero, suc, ◌+◌, ◌<◌, ◌≤◌, if◌then◌else◌, ◌≡◌, ◌↔◌, ◌⊎◌, refl, pos, Bool, true, false, List, [],
  ◌∷◌, arith, ◌==◌,
}
use motoros.MotoPlus.{Model, MotoPlus, KeepsOutputs, HasDistinctAddresses}
use motoros.Io.Access.{bit, group, register, is_valid_write_address, is_valid_write_value}
use motoros.Io.Addresses.{write_address-readable}
use motoros.Io.Service.{
  ok, write_address_invalid, write_value_invalid, WriteResponse, group_bits, group_cells,
  combine_from, read_group_io, write_single_io, write_group_io, read_m_register, write_m_register,
  register_address,
}

-- How a write is answered: refused for its address, refused for its value, or sent.
abbrev pub IsAnswered :
    (api : MotoPlus) → api.World → Bool → Bool → List (ℕ × ℕ) → WriteResponse × api.World → Type 0
IsAnswered api w address_ok value_ok cells r =
    ((address_ok ≡ false)
      × (r.0.result_code ≡ write_address_invalid)
      × (r.0.success ≡ false)
      × (r.1 ≡ w))
    ⊎ (((address_ok ≡ true)
          × (value_ok ≡ false)
          × (r.0.result_code ≡ write_value_invalid)
          × (r.0.success ≡ false)
          × (r.1 ≡ w))
        ⊎ ((address_ok ≡ true)
            × (value_ok ≡ true)
            × (r.1 ≡ (api.write_io w cells).1)
            × ((r.0.success ≡ true) ↔ ((api.write_io w cells).0 ≡ pos 0))
            × ((r.0.result_code ≡ ok) ↔ ((api.write_io w cells).0 ≡ pos 0))))

module _ (m : Model) (api : MotoPlus) (w : api.World) (address value : ℕ) where
  -- A write of one signal, of a group or of a register: a bad address is reported before a bad
  -- value, a refused request leaves the controller as it is, an accepted one sends the cells of
  -- the request in one call, and then the answer is a success and OK exactly if the call
  -- returned 0.
  pub writes-IsAnswered :
      IsAnswered api w
        (is_valid_write_address m address bit)
        (is_valid_write_value value bit)
        ((address, value) ∷ [])
        (write_single_io m api w address value)
      × IsAnswered api w
          (is_valid_write_address m address group)
          (is_valid_write_value value group)
          (group_cells address value)
          (write_group_io m api w address value)
      × IsAnswered api w
          (is_valid_write_address m (register_address address) register)
          (is_valid_write_value value register)
          ((register_address address, value) ∷ [])
          (write_m_register m api w address value)
  unfolding write_single_io write_group_io write_m_register
  writes-IsAnswered = (ground arith, ground arith, ground arith)

-- A test on every number from the last one down to 0.
passes_down_from : (ℕ → Bool) → ℕ → Bool
passes_down_from test zero = test 0
passes_down_from test (suc last) = if test (suc last) then passes_down_from test last else false

passes_each :
    (test : ℕ → Bool) (last v : ℕ) → v ≤ last → passes_down_from test last ≡ true → test v ≡ true
unfolding passes_down_from
passes_each test zero v below passed = ground arith
passes_each test (suc last) v below passed = ground (arith, passes_each test last v)

-- Splitting a byte into its bits and putting them together gives the byte.
combine-group_bits : (v : ℕ) → v < 256 → combine_from 0 0 (group_bits v) ≡ v
unfolding passes_down_from combine_from
combine-group_bits v h =
    let same =
      passes_each (λ byte. combine_from 0 0 (group_bits byte) == byte) 255 v (omega arith) refl in
    ground arith

group_cells-distinct : (address value : ℕ) → HasDistinctAddresses (group_cells address value)
group_cells-distinct address value = omega arith

-- What an OK answer to a group write says.
accepted :
    (m : Model) (api : MotoPlus) (w : api.World) (address value : ℕ)
    → (write_group_io m api w address value).0.result_code ≡ ok
    → (is_valid_write_address m address group ≡ true)
      × (is_valid_write_value value group ≡ true)
      × ((api.write_io w (group_cells address value)).0 ≡ pos 0)
      × (value < 256)
unfolding write_group_io is_valid_write_value
accepted m api w address value h = ground arith

-- A group that is written and then read gives the value that was written, with no error, if the
-- outputs keep what is written to them, the API accepts the write and both checks pass.
pub read-write_group :
    (m : Model) (api : MotoPlus) (w : api.World) (address value : ℕ) (buffer : List ℕ)
    → KeepsOutputs api
    → (write_group_io m api w address value).0.result_code ≡ ok
    → let r = read_group_io m api (write_group_io m api w address value).1 buffer address in
      (r.value ≡ value) × (r.result_code ≡ ok) × (r.success ≡ true)
unfolding write_group_io read_group_io
read-write_group m api w address value buffer keeps h =
    let e = accepted m api w address value h in
    rw (write_address-readable m address group e.0, e.1, e.2)
      (ground (
        arith,
        keeps.read_written w (group_cells address value) buffer
            (group_cells-distinct address value),
        combine-group_bits value,
      ))

-- The register services take a register by its number or by its address.
m_register_spellings :
    (m : Model) (api : MotoPlus) (w : api.World) (n value : ℕ)
    → n < 1000000
    → (read_m_register m api w n ≡ read_m_register m api w (n + 1000000))
      × (write_m_register m api w n value ≡ write_m_register m api w (n + 1000000) value)
unfolding read_m_register write_m_register
m_register_spellings m api w n value h =
    let e : register_address n ≡ register_address (n + 1000000) = ground arith in (rw e, rw e)
