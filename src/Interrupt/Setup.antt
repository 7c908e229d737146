-- ===== src/Interrupt/Setup.antt =====
-- interrupt_init of kernel/interrupt/interrupt.c: the table of gates, and the stacks of the handlers.
-- The entry points are assembly: their addresses are a parameter, and of their code only the number
-- that each pushes is modelled. The descriptors of the TSS are
-- segment_tss of the module Segment; loading the registers and the devices is not modelled.
pub mod Gates
use ann.Base.{
  ℕ, zero, suc, ◌+◌, ◌-◌, ◌*◌, ◌/◌, ◌<◌, Option, none, some, Bool, true, false, List, [], ◌∷◌, ◌==◌,
  if◌then◌else◌,
}
use ann.LinkedList.{ListOps}
use ann.Segment.{Gate, interrupt_gate}
use ann.Memory.Layout.{
  page_size, pte_w, interrupt_stack_top, interrupt_stack_size, exception_stack_top,
  exception_stack_size,
}
use ann.Memory.Machine.{Machine, Cmd, Run, ok, panic, pure, ◌>>=◌, ◌>>◌, assert}
use ann.Memory.Pages.{page_alloc}
use ann.Memory.Map.{page_insert}

-- GD_KT
abbrev pub gd_kt : ℕ
gd_kt = 1 * 8

abbrev pub idt_dpl_u : ℕ
idt_dpl_u = 0x3

abbrev pub idt_dpl_s : ℕ
idt_dpl_s = 0

-- The entry points of interrupt_entry.S
pub data EntryPoint : Type 0 where
  interrupt_handler_div_by_zero : EntryPoint
  interrupt_handler_debug : EntryPoint
  interrupt_handler_nmi : EntryPoint
  interrupt_handler_breakpoint : EntryPoint
  interrupt_handler_overflow : EntryPoint
  interrupt_handler_bound_range : EntryPoint
  interrupt_handler_ivalid_opcode : EntryPoint
  interrupt_handler_device_not_available : EntryPoint
  interrupt_handler_double_fault : EntryPoint
  interrupt_handler_invalid_tss : EntryPoint
  interrupt_handler_segment_not_present : EntryPoint
  interrupt_handler_stack : EntryPoint
  interrupt_handler_general_protection : EntryPoint
  interrupt_handler_page_fault : EntryPoint
  interrupt_handler_x86_fp_instruction : EntryPoint
  interrupt_handler_alignment_check : EntryPoint
  interrupt_handler_machine_check : EntryPoint
  interrupt_handler_simd_fp : EntryPoint
  interrupt_handler_security_exception : EntryPoint
  interrupt_handler_timer : EntryPoint
  interrupt_handler_keyboard : EntryPoint
  interrupt_handler_syscall : EntryPoint

-- The number that an entry point pushes, for interrupt_handler to tell the interrupts apart
unfoldable pub vector_of : EntryPoint → ℕ
vector_of interrupt_handler_div_by_zero = 0
vector_of interrupt_handler_debug = 1
vector_of interrupt_handler_nmi = 2
vector_of interrupt_handler_breakpoint = 3
vector_of interrupt_handler_overflow = 4
vector_of interrupt_handler_bound_range = 5
vector_of interrupt_handler_ivalid_opcode = 6
vector_of interrupt_handler_device_not_available = 7
vector_of interrupt_handler_double_fault = 8
vector_of interrupt_handler_invalid_tss = 10
vector_of interrupt_handler_segment_not_present = 11
vector_of interrupt_handler_stack = 12
vector_of interrupt_handler_general_protection = 13
vector_of interrupt_handler_page_fault = 14
vector_of interrupt_handler_x86_fp_instruction = 16
vector_of interrupt_handler_alignment_check = 17
vector_of interrupt_handler_machine_check = 18
vector_of interrupt_handler_simd_fp = 19
vector_of interrupt_handler_security_exception = 30
vector_of interrupt_handler_timer = 32
vector_of interrupt_handler_keyboard = 33
vector_of interrupt_handler_syscall = 34

-- An assignment `idt[vector] = INTERRUPT_GATE(GD_KT, handler, ist, dpl)`
pub record GateOf : Type 0 where
  pub vector : ℕ
  pub handler : EntryPoint
  pub ist : ℕ
  pub dpl : ℕ

abbrev pub idt_gates : List GateOf
idt_gates =
    at 0 interrupt_handler_div_by_zero 0 idt_dpl_s
    ∷ at 1 interrupt_handler_debug 0 idt_dpl_s
    ∷ at 2 interrupt_handler_nmi 0 idt_dpl_s
    ∷ at 3 interrupt_handler_breakpoint 1 idt_dpl_u
    ∷ at 4 interrupt_handler_overflow 0 idt_dpl_s
    ∷ at 5 interrupt_handler_bound_range 0 idt_dpl_s
    ∷ at 6 interrupt_handler_ivalid_opcode 0 idt_dpl_s
    ∷ at 7 interrupt_handler_device_not_available 0 idt_dpl_s
    ∷ at 8 interrupt_handler_double_fault 0 idt_dpl_s
    ∷ at 10 interrupt_handler_invalid_tss 0 idt_dpl_s
    ∷ at 11 interrupt_handler_segment_not_present 0 idt_dpl_s
    ∷ at 12 interrupt_handler_stack 0 idt_dpl_s
    ∷ at 13 interrupt_handler_general_protection 0 idt_dpl_s
    ∷ at 14 interrupt_handler_page_fault 0 idt_dpl_s
    ∷ at 16 interrupt_handler_x86_fp_instruction 0 idt_dpl_s
    ∷ at 17 interrupt_handler_alignment_check 0 idt_dpl_s
    ∷ at 18 interrupt_handler_machine_check 0 idt_dpl_s
    ∷ at 19 interrupt_handler_simd_fp 0 idt_dpl_s
    ∷ at 30 interrupt_handler_security_exception 0 idt_dpl_s
    ∷ at 32 interrupt_handler_timer 1 idt_dpl_s
    ∷ at 33 interrupt_handler_keyboard 1 idt_dpl_s
    ∷ at 34 interrupt_handler_syscall 0 idt_dpl_u
    ∷ []
  where
    at : (vector : ℕ) → EntryPoint → (ist dpl : ℕ) → GateOf
    at v h i d = record { vector = v; handler = h; ist = i; dpl = d }

-- `idt`; `none` is an entry of zeros, which is not present.
abbrev pub Idt : Type 0
Idt = ℕ → Option Gate

-- The assignments, one after the other; `entry` has the addresses of the entry points.
unfoldable pub set_gates : (entry : EntryPoint → ℕ) → List GateOf → Idt → Idt
set_gates entry [] idt = idt
set_gates entry (g ∷ gs) idt = set_gates entry gs (λ v.
    if v == g.vector then some (interrupt_gate gd_kt (entry g.handler) g.ist g.dpl) else idt v)

unfoldable pub init_idt : (entry : EntryPoint → ℕ) → Idt
init_idt entry = set_gates entry idt_gates (λ v. none)

-- The fields of struct tss that the kernel sets
pub record Tss : Type 0 where
  pub rsp0 : ℕ
  pub ist1 : ℕ

abbrev pub init_tss : Tss
init_tss = record { rsp0 = exception_stack_top; ist1 = interrupt_stack_top }

module _ ⦃q : ListOps⦄ where
  -- The loop that maps a stack, with `n` pages left from `addr` on.
  unfoldable pub map_stack : (n pml4 addr : ℕ) → Cmd (Unit {0})
  map_stack zero pml4 addr = pure tt
  map_stack (suc n) pml4 addr = page_alloc >>= λ o. elim o [
    | none ↦ assert false
    | some page ↦ page_insert pml4 page addr pte_w >>= λ done.
        assert done >> map_stack n pml4 (addr + page_size)
  ]

  unfoldable pub init_stacks : (pml4 : ℕ) → Cmd (Unit {0})
  init_stacks pml4 =
      map_stack (interrupt_stack_size / page_size) pml4 (interrupt_stack_top - interrupt_stack_size)
      >> map_stack (exception_stack_size / page_size) pml4
          (exception_stack_top - exception_stack_size)
