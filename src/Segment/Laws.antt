-- ===== src/Segment/Laws.antt =====
-- What the processor reads back from the descriptors.
use ann.Base.{ℕ, ◌+◌, ◌*◌, ◌/◌, ◌%◌, ◌^◌, ◌<◌, ◌≡◌, refl, arith, bit_and_mask}
use ann.Segment.{
  Gate, gate, trap_gate, interrupt_gate, type_trap_gate, type_interrupt_gate, TssFields,
  segment_tss,
}

-- The address that a gate leads to.
abbrev pub target : Gate → ℕ
target g = g.target_offset0 + g.target_offset1 * 2 ^ 16 + g.target_offset2 * 2 ^ 32

pub record Leads (sel off ist type_of dpl : ℕ) (g : Gate) : Type 0 where
  pub address : target g ≡ off
  pub selector : g.target_selector ≡ sel
  pub stack : g.ist ≡ ist
  pub kind : g.type_of ≡ type_of
  pub privilege : g.dpl ≡ dpl
  pub present : g.p ≡ 1
  pub system : g.s ≡ 0
  pub reserved_low : g.reserved0 ≡ 0
  pub reserved_high : g.reserved1 ≡ 0

gate-Leads :
    (sel off ist type_of dpl : ℕ)
    → sel < 2 ^ 16
    → off < 2 ^ 64
    → ist < 4
    → type_of < 16
    → dpl < 4
    → Leads sel off ist type_of dpl (gate sel off ist type_of dpl)
unfolding gate
gate-Leads sel off ist type_of dpl hs ho hi ht hd = record {
  address = omega (arith, bit_and_mask 16 off, bit_and_mask 16 (off / 2 ^ 16));
  selector = omega arith;
  stack = omega arith;
  kind = omega arith;
  privilege = omega arith;
  present = refl;
  system = refl;
  reserved_low = refl;
  reserved_high = refl;
}

-- With fields that fit, an interrupt gate and a trap gate lead to the whole 64-bit address, with the
-- selector, stack and privilege that were given. Both are present system descriptors, with 0 in `s` and
-- in the reserved fields; the one has the type of an interrupt gate, the other that of a trap gate.
pub interrupt_gate-Leads :
    (sel off ist dpl : ℕ)
    → sel < 2 ^ 16
    → off < 2 ^ 64
    → ist < 4
    → dpl < 4
    → Leads sel off ist type_interrupt_gate dpl (interrupt_gate sel off ist dpl)
      × Leads sel off ist type_trap_gate dpl (trap_gate sel off ist dpl)
unfolding interrupt_gate trap_gate
interrupt_gate-Leads sel off ist dpl hs ho hi hd =
    let same : off % 2 ^ 64 ≡ off = omega arith in
    rw same (
      gate-Leads sel off ist 0xe dpl hs ho hi (omega arith) hd,
      gate-Leads sel off ist 0xf dpl hs ho hi (omega arith) hd,
    )

abbrev pub base_of : TssFields → ℕ
base_of d =
    d.base_address0 + d.base_address1 * 2 ^ 16 + d.base_address2 * 2 ^ 24 + d.base_address3 * 2 ^ 32

abbrev pub limit_of : TssFields → ℕ
limit_of d = d.segment_limit0 + d.segment_limit1 * 2 ^ 16

-- The base of a TSS descriptor is the whole 64-bit address, and its limit is the one given, if that
-- has 20 bits.
pub segment_tss-base_of :
    (base limit type_of dpl : ℕ)
    → base < 2 ^ 64
    → limit < 2 ^ 20
    → (base_of (segment_tss base limit type_of dpl) ≡ base)
      × (limit_of (segment_tss base limit type_of dpl) ≡ limit)
unfolding segment_tss
segment_tss-base_of base limit type_of dpl hb hl =
    let b : base % 2 ^ 64 ≡ base = omega arith in
    let l : limit % 2 ^ 32 ≡ limit = omega arith in
    rw (b, l)
      (
        omega (
          arith,
          bit_and_mask 16 base,
          bit_and_mask 8 (base / 2 ^ 16),
          bit_and_mask 8 (base / 2 ^ 24),
          bit_and_mask 32 (base / 2 ^ 32),
        ),
        omega (arith, bit_and_mask 16 limit, bit_and_mask 4 (limit / 2 ^ 16)),
      )
