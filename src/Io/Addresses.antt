-- ===== src/Io/Addresses.antt =====
-- Which addresses the I/O services accept (src/ServiceReadWriteIO.c).
use motoros.Prelude.{
  refl, ℕ, ◌+◌, ◌*◌, ◌%◌, ◌≤◌, ◌<◌, ◌≡◌, ◌↔◌, ◌⊎◌, Bool, true, false, arith, Bool-cases, ltb, inl,
  inr, ◌||◌,
}
use motoros.MotoPlus.{Model, dx100, fs100, dx200, yrc1000, yrc1000u}
use motoros.Io.Ranges.{Range, IoRanges, within, ranges}
use motoros.Io.Service.{register_address}
use motoros.Io.Access.{
  IoAccessSize, bit, group, register, u32, readable, writable, bad_digit, scaled,
  is_valid_read_address, is_valid_write_address,
}

-- Every range ends at a last digit of 7 or more.
record IsAligned (r : IoRanges) : Type 0 where
  general_in : 7 ≤ r.general_in.max % 10
  general_out : 7 ≤ r.general_out.max % 10
  external_in : 7 ≤ r.external_in.max % 10
  network_in : 7 ≤ r.network_in.max % 10
  network_out : 7 ≤ r.network_out.max % 10
  external_out : 7 ≤ r.external_out.max % 10
  specific_in : 7 ≤ r.specific_in.max % 10
  specific_out : 7 ≤ r.specific_out.max % 10
  if_panel : 7 ≤ r.if_panel.max % 10
  aux_relay : 7 ≤ r.aux_relay.max % 10
  control_status : 7 ≤ r.control_status.max % 10
  pseudo_input : 7 ≤ r.pseudo_input.max % 10
  register_read : 7 ≤ r.register_read.max % 10
  register_write : 7 ≤ r.register_write.max % 10

ranges-IsAligned : (m : Model) → IsAligned (ranges m)
ranges-IsAligned dx100 = omega arith
ranges-IsAligned fs100 = omega arith
ranges-IsAligned dx200 = omega arith
ranges-IsAligned yrc1000 = omega arith
ranges-IsAligned yrc1000u = omega arith

-- A range that holds a multiple of ten holds the seven addresses after it.
within-add :
    (r : Range) (a i : ℕ)
    → 7 ≤ r.max % 10
    → a % 10 ≡ 0
    → i < 8
    → within a r ≡ true
    → within (a + i) r ≡ true
unfolding within
within-add r a i h z l p = ground arith

within_register_write :
    (m : Model) (a : ℕ)
    → within a (ranges m).register_write ≡ true
    → within a (ranges m).register_read ≡ true
unfolding within
within_register_write dx100 a h = ground arith
within_register_write _ a h = ground arith

writable-readable :
    (r : IoRanges) (a : ℕ)
    → (within a r.register_write ≡ true → within a r.register_read ≡ true)
    → writable r a ≡ true
    → readable r a ≡ true
writable-readable r a sub h = ground arith

or_mono :
    {a b c d : Bool}
    → (a ≡ true → c ≡ true)
    → (b ≡ true → d ≡ true)
    → (a || b) ≡ true
    → (c || d) ≡ true
or_mono {a} {b} {c} {d} f g h = ground arith

writable-add :
    (r : IoRanges) (a i : ℕ)
    → IsAligned r
    → a % 10 ≡ 0
    → i < 8
    → writable r a ≡ true
    → writable r (a + i) ≡ true
writable-add r a i al z l =
    or_mono
      (or_mono
        (or_mono (within-add r.general_out a i al.general_out z l)
          (within-add r.network_in a i al.network_in z l))
        (within-add r.if_panel a i al.if_panel z l))
      (within-add r.register_write a i al.register_write z l)

readable-add :
    (r : IoRanges) (a i : ℕ)
    → IsAligned r
    → a % 10 ≡ 0
    → i < 8
    → readable r a ≡ true
    → readable r (a + i) ≡ true
readable-add r a i al z l =
    or_mono
      (or_mono
        (or_mono
          (or_mono
            (or_mono
              (or_mono
                (or_mono
                  (or_mono
                    (or_mono
                      (or_mono
                        (or_mono
                          (or_mono (within-add r.general_in a i al.general_in z l)
                            (within-add r.general_out a i al.general_out z l))
                          (within-add r.external_in a i al.external_in z l))
                        (within-add r.network_in a i al.network_in z l))
                      (within-add r.network_out a i al.network_out z l))
                    (within-add r.external_out a i al.external_out z l))
                  (within-add r.specific_in a i al.specific_in z l))
                (within-add r.specific_out a i al.specific_out z l))
              (within-add r.if_panel a i al.if_panel z l))
            (within-add r.aux_relay a i al.aux_relay z l))
          (within-add r.control_status a i al.control_status z l))
        (within-add r.pseudo_input a i al.pseudo_input z l))
      (within-add r.register_read a i al.register_read z l)

-- On every controller model and for every access size, an address that may be written may be read.
pub write_address-readable :
    (m : Model) (address : ℕ) (size : IoAccessSize)
    → is_valid_write_address m address size ≡ true
    → is_valid_read_address m address size ≡ true
unfolding is_valid_write_address is_valid_read_address
write_address-readable m address size h = elim (Bool-cases (bad_digit (scaled address size) size)) [
  | inl bad ↦ cc (rw bad at h)
  | inr fine ↦ rw fine (
      writable-readable (ranges m) (scaled address size)
        (within_register_write m (scaled address size)) (rw fine at h))
]

-- An implication between tests, as a choice.
false_or : (a b : Bool) → (a ≡ true → b ≡ true) → (a ≡ false) ⊎ (b ≡ true)
false_or true b h = inr (h refl)
false_or false b h = inl refl

-- A group whose number fits (ten times it is a UINT32) may be read only if each of its eight
-- signals may be read alone, and written only if each may be written alone.
group_address-bits :
    (m : Model) (address i : ℕ)
    → address * 10 < 4294967296
    → i < 8
    → ((is_valid_read_address m address group ≡ false)
        ⊎ (is_valid_read_address m (address * 10 + i) bit ≡ true))
      × ((is_valid_write_address m address group ≡ false)
          ⊎ (is_valid_write_address m (address * 10 + i) bit ≡ true))
unfolding is_valid_write_address is_valid_read_address
group_address-bits m address i fits l =
    let whole : u32 (address * 10) ≡ address * 10 = omega arith in
    let tens : (address * 10) % 10 ≡ 0 = omega arith in
    let digit : ltb 7 ((address * 10 + i) % 10) ≡ false = ground arith in
    let reads = readable-add (ranges m) (address * 10) i (ranges-IsAligned m) tens l in
    let writes = writable-add (ranges m) (address * 10) i (ranges-IsAligned m) tens l in
    rw (whole, tens, digit) (false_or _ _ reads, false_or _ _ writes)

-- A group number that is 2 ^ 31 too large is accepted like the number itself: the multiplication by
-- ten wraps. It is no group of any range.
group_address_wraps :
    (m : Model) (address : ℕ)
    → address < 2147483648
    → (is_valid_read_address m (address + 2147483648) group ≡ is_valid_read_address m address group)
      × (is_valid_write_address m (address + 2147483648) group
          ≡ is_valid_write_address m address group)
unfolding is_valid_write_address is_valid_read_address
group_address_wraps m address h =
    let e : u32 ((address + 2147483648) * 10) ≡ u32 (address * 10) = omega arith in (rw e, rw e)

-- Every range but those of the registers ends below 1000000.
record IsBelow (r : IoRanges) : Type 0 where
  general_in : r.general_in.max < 1000000
  general_out : r.general_out.max < 1000000
  external_in : r.external_in.max < 1000000
  network_in : r.network_in.max < 1000000
  network_out : r.network_out.max < 1000000
  external_out : r.external_out.max < 1000000
  specific_in : r.specific_in.max < 1000000
  specific_out : r.specific_out.max < 1000000
  if_panel : r.if_panel.max < 1000000
  aux_relay : r.aux_relay.max < 1000000
  control_status : r.control_status.max < 1000000
  pseudo_input : r.pseudo_input.max < 1000000

ranges-IsBelow : (m : Model) → IsBelow (ranges m)
ranges-IsBelow dx100 = omega arith
ranges-IsBelow fs100 = omega arith
ranges-IsBelow dx200 = omega arith
ranges-IsBelow yrc1000 = omega arith
ranges-IsBelow yrc1000u = omega arith

within_above : (r : Range) (a : ℕ) → r.max < 1000000 → 1000000 ≤ a → within a r ≡ false
unfolding within
within_above r a b h = ground arith

readable_above :
    (r : IoRanges) (a : ℕ) → IsBelow r → 1000000 ≤ a → readable r a ≡ within a r.register_read
readable_above r a b h = rw (
  within_above r.general_in a b.general_in h,
  within_above r.general_out a b.general_out h,
  within_above r.external_in a b.external_in h,
  within_above r.network_in a b.network_in h,
  within_above r.network_out a b.network_out h,
  within_above r.external_out a b.external_out h,
  within_above r.specific_in a b.specific_in h,
  within_above r.specific_out a b.specific_out h,
  within_above r.if_panel a b.if_panel h,
  within_above r.aux_relay a b.aux_relay h,
  within_above r.control_status a b.control_status h,
  within_above r.pseudo_input a b.pseudo_input h,
)

writable_above :
    (r : IoRanges) (a : ℕ) → IsBelow r → 1000000 ≤ a → writable r a ≡ within a r.register_write
writable_above r a b h = rw (
  within_above r.general_out a b.general_out h,
  within_above r.network_in a b.network_in h,
  within_above r.if_panel a b.if_panel h,
)

-- The registers are at the same place on every model.
register_ranges :
    (m : Model)
    → ((ranges m).register_read.min ≡ 1000000)
      × ((ranges m).register_read.max ≡ 1000999)
      × ((ranges m).register_write.min ≡ 1000000)
      × ((ranges m).register_write.max ≡ 1000559)
register_ranges dx100 = omega arith
register_ranges fs100 = omega arith
register_ranges dx200 = omega arith
register_ranges yrc1000 = omega arith
register_ranges yrc1000u = omega arith

register_address_above : (a : ℕ) → 1000000 ≤ register_address a
register_address_above a = ground arith

-- For a register service every UINT32 address below 1000000 counts from the first register: exactly
-- the registers 0 to 999 may be read, and exactly 0 to 559 written, by either spelling.
pub register_address-accepted :
    (m : Model) (address : ℕ)
    → ((is_valid_read_address m (register_address address) register ≡ true)
        ↔ ((address ≤ 999) ⊎ (1000000 ≤ address) × (address ≤ 1000999)))
      × ((is_valid_write_address m (register_address address) register ≡ true)
          ↔ ((address ≤ 559) ⊎ (1000000 ≤ address) × (address ≤ 1000559)))
unfolding is_valid_write_address is_valid_read_address within
register_address-accepted m address =
    let above = register_address_above address in
    rw
      (
        readable_above (ranges m) (register_address address) (ranges-IsBelow m) above,
        writable_above (ranges m) (register_address address) (ranges-IsBelow m) above,
      )
      (ground (arith, register_ranges m))
