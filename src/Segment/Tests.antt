-- ===== src/Segment/Tests.antt =====
-- The descriptors of the kernel's text and of a page fault.
use ann.Base.{◌+◌, ◌^◌, ◌≡◌, refl, arith}
use ann.Segment.{segment_desc, interrupt_gate, trap_gate, type_interrupt_gate, type_trap_gate}
use ann.Segment.Laws.{Leads, interrupt_gate-Leads}

interrupt_gate-Leads_example :
    Leads 8 0xffff_ff80_0010_1234 1 type_interrupt_gate 3
      (interrupt_gate 8 0xffff_ff80_0010_1234 1 3)
    × Leads 8 0xffff_ff80_0010_1234 1 type_trap_gate 3 (trap_gate 8 0xffff_ff80_0010_1234 1 3)
interrupt_gate-Leads_example =
    interrupt_gate-Leads 8 0xffff_ff80_0010_1234 1 3 (omega arith) (omega arith) (omega arith)
      (omega arith)

-- The text of the kernel: L, P, S and X.
kernel_text : (segment_desc (2 ^ 13 + 2 ^ 7 + 2 ^ 4 + 2 ^ 3) 0 0).b ≡ 0x209800
unfolding segment_desc
kernel_text = refl
