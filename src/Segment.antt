-- ===== src/Segment.antt =====
-- The descriptors of kernel/misc/gdt.h. A bit field keeps its width: what is stored in it is taken
-- modulo a power of 2.
pub mod Laws
mod Tests
use ann.Base.{ℕ, ◌+◌, ◌*◌, ◌/◌, ◌%◌, ◌^◌, bit_and, bit_or}

-- struct descriptor, as its two words
pub record Descriptor : Type 0 where
  pub a : ℕ
  pub b : ℕ

-- SEGMENT_DESC
unfoldable pub segment_desc : (flags base limit : ℕ) → Descriptor
segment_desc flags base limit = record {
  a = bit_or (bit_and limit 0xffff) (bit_and base 0xffff * 2 ^ 16 % 2 ^ 32);
  b =
      bit_or
        (bit_or (bit_or (bit_and (base / 2 ^ 16) 0xff) (bit_and flags 0xf0ff * 2 ^ 8))
          (bit_and limit 0xf_0000))
        (bit_and base 0xff00_0000);
}

-- The fields `gate` of struct descriptor64
pub record Gate : Type 0 where
  pub target_offset0 : ℕ
  pub target_selector : ℕ
  pub ist : ℕ
  pub reserved0 : ℕ
  pub type_of : ℕ
  pub s : ℕ
  pub dpl : ℕ
  pub p : ℕ
  pub target_offset1 : ℕ
  pub target_offset2 : ℕ
  pub reserved1 : ℕ

-- GATE
unfoldable pub gate : (sel off ist type_of dpl : ℕ) → Gate
gate sel off ist type_of dpl = record {
  target_offset0 = bit_and off 0xffff % 2 ^ 16;
  target_selector = sel % 2 ^ 16;
  ist = ist % 2 ^ 2;
  reserved0 = 0;
  type_of = type_of % 2 ^ 4;
  s = 0;
  dpl = dpl % 2 ^ 2;
  p = 1;
  target_offset1 = bit_and (off / 2 ^ 16) 0xffff % 2 ^ 16;
  target_offset2 = off / 2 ^ 32 % 2 ^ 32;
  reserved1 = 0;
}

abbrev pub type_interrupt_gate : ℕ
type_interrupt_gate = 0xe

abbrev pub type_trap_gate : ℕ
type_trap_gate = 0xf

abbrev pub type_available_tss : ℕ
type_available_tss = 0x9

unfoldable pub trap_gate : (sel off ist dpl : ℕ) → Gate
trap_gate sel off ist dpl = gate sel (off % 2 ^ 64) ist type_trap_gate dpl

unfoldable pub interrupt_gate : (sel off ist dpl : ℕ) → Gate
interrupt_gate sel off ist dpl = gate sel (off % 2 ^ 64) ist type_interrupt_gate dpl

-- The fields `tss` of struct descriptor64
pub record TssFields : Type 0 where
  pub segment_limit0 : ℕ
  pub base_address0 : ℕ
  pub base_address1 : ℕ
  pub type_of : ℕ
  pub s : ℕ
  pub dpl : ℕ
  pub p : ℕ
  pub segment_limit1 : ℕ
  pub avl : ℕ
  pub ign : ℕ
  pub g : ℕ
  pub base_address2 : ℕ
  pub base_address3 : ℕ
  pub mbz : ℕ

-- TSS, which SEGMENT_TSS calls with `base` cast to 64 and `limit` to 32 bits
unfoldable pub segment_tss : (base limit type_of dpl : ℕ) → TssFields
segment_tss base' limit' type_of dpl =
    let base = base' % 2 ^ 64 in
    let limit = limit' % 2 ^ 32 in
    record {
      segment_limit0 = bit_and limit 0xffff % 2 ^ 16;
      base_address0 = bit_and base 0xffff % 2 ^ 16;
      base_address1 = bit_and (base / 2 ^ 16) 0xff % 2 ^ 8;
      type_of = type_of % 2 ^ 4;
      s = 0;
      dpl = dpl % 2 ^ 2;
      p = 1;
      segment_limit1 = bit_and (limit / 2 ^ 16) 0xf % 2 ^ 4;
      avl = 0;
      ign = 0;
      g = 0;
      base_address2 = bit_and (base / 2 ^ 24) 0xff % 2 ^ 8;
      base_address3 = bit_and (base / 2 ^ 32) 0xffff_ffff % 2 ^ 32;
      mbz = 0;
    }
