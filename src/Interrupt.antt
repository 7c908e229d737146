-- ===== src/Interrupt.antt =====
-- Interrupts: interrupt_handler and page_fault_handler of kernel/interrupt/interrupt.c, timer_handler
-- and keyboard_handler. A handler gets the registers that the entry code saved; what the processor
-- and the keyboard hold (cr2, the scancode) are arguments, and writes to the APIC are not modelled.
pub mod Copy
pub mod Fault
pub mod GoesOn
pub mod Keeps
pub mod Waiting
pub mod Setup
mod Tests
use ann.Base.{
  ℕ, ◌+◌, ◌-◌, ◌*◌, ◌/◌, Option, none, some, Bool, true, false, bit_and, bit_or, ◌==◌, ◌/=◌, ltb,
  leb, not, ◌&&◌, if◌then◌else◌,
}
use ann.LinkedList.{ListOps}
use ann.Memory.Layout.{page_size, round_down, present, pte_w, pte_cow, pte_flags_mask, kernel_temp}
use ann.Memory.Layout.Laws.{frame_of}
use ann.Memory.Machine.{Machine, Cmd, Run, ok, pure, ◌>>=◌, ◌>>◌, assert, load}
use ann.Memory.Pages.{page_alloc}
use ann.Memory.Map.{page_lookup, page_insert, page_remove}
use ann.Memory.Map.Walk.{translate}
use ann.Task.{
  TaskContext, TaskPtr, ready, is_ready, Kernel, Outcome, panic, fault, task_at, set_task,
}
use ann.Task.Create.{Step, returns, panics, faults, go_on}
use ann.Task.Destroy.{task_destroy, gdt_dpl_u}
use ann.Task.Schedule.{task_run, schedule}
use ann.Syscall.{syscall}
use ann.Monitor.{Monitor}
use ann.Monitor.Command.{monitor_process_key_press}

abbrev pub vector_breakpoint : ℕ
vector_breakpoint = 3

abbrev pub vector_page_fault : ℕ
vector_page_fault = 14

abbrev pub vector_timer : ℕ
vector_timer = 32

abbrev pub vector_keyboard : ℕ
vector_keyboard = 33

abbrev pub vector_syscall : ℕ
vector_syscall = 34

-- PAGE_FAULT_ERROR_CODE_R_W
abbrev pub error_code_r_w : ℕ
error_code_r_w = 2

abbrev pub key_released : ℕ
key_released = 0x80

-- `memcpy` of a page between two virtual addresses, at the start of a page, of the space of frame
-- `f`, as the processor translates them. An address that is not mapped faults.
unfoldable pub copy_frame : (d s : ℕ) → Cmd (Unit {0})
copy_frame d s m = ok tt (record m {
  mem = λ a.
      if leb (d * 4096) a && ltb a (d * 4096 + 4096)
      then m.mem (s * 4096 + (a - d * 4096))
      else m.mem a;
})

unfoldable pub copy_page : (f dest src : ℕ) → Cmd (Unit {0})
copy_page f dest src m = elim (translate 3 m.mem f dest) [
  | none ↦ assert false m
  | some d ↦ elim (translate 3 m.mem f src) [
    | none ↦ assert false m
    | some s ↦ copy_frame (frame_of d) (frame_of s) m
  ]
]

module _ ⦃q : ListOps⦄ where
  -- page_fault_handler behind page_alloc: the entry of `va` is at `s`.
  unfoldable pub unshare : (pml4 va s new flags : ℕ) → Cmd Bool
  unshare pml4 va s new flags = do
    first ← page_insert pml4 new kernel_temp (bit_or flags pte_w)
    if not first
        then pure false
        else (copy_page (pml4 / 4096) kernel_temp (round_down va page_size)
            >> (load s >>= λ e.
                page_insert pml4 new (round_down va page_size)
                  (bit_or (bit_and e pte_flags_mask) pte_w)
                >>= λ second.
                    if not second then pure false else (page_remove pml4 kernel_temp >> pure true)))

  -- page_fault_handler up to `fail`: `true` if it runs the task again.
  unfoldable pub resolve_fault : (pml4 va error_code : ℕ) → Cmd Bool
  resolve_fault pml4 va error_code = do
    found ← page_lookup pml4 va
    let (page, pte) = found
    if bit_and error_code error_code_r_w == 0 then pure false else elim pte [
      | none ↦ pure false
      | some s ↦ load s >>= λ e.
          if bit_and e pte_cow == 0
          then pure false
          else assert (present e) >> page_alloc >>= λ o. elim o [
            | none ↦ pure false
            | some new ↦ unshare pml4 va s new (bit_and e pte_flags_mask)
          ]
    ]

  unfoldable pub destroy_and_schedule : TaskPtr → Kernel → Outcome
  destroy_and_schedule p k = elim (task_destroy p k) [
    | returns _ k' ↦ schedule k'
    | panics ↦ panic
    | faults ↦ fault
  ]

  abbrev pub after_fault : TaskPtr → Step Bool → Outcome
  after_fault p panics = panic
  after_fault p faults = fault
  after_fault p (returns true k) = task_run p k
  after_fault p (returns false k) = destroy_and_schedule p k

  -- `va` is cr2. A task without a PML4 is followed through a NULL pointer.
  unfoldable pub page_fault_handler : TaskPtr → (va : ℕ) → Kernel → Outcome
  page_fault_handler p va k = elim ((task_at k p).pml4) [
    | none ↦ fault
    | some pml4 ↦
        after_fault p
          (go_on k (resolve_fault pml4 va (task_at k p).context.error_code k.machine) returns)
  ]

  unfoldable pub timer_handler : TaskPtr → Kernel → Outcome
  timer_handler p k = schedule k

  -- The end of keyboard_handler: the task goes on, if it was not killed.
  unfoldable pub resume_or_schedule : TaskPtr → Kernel → Outcome
  resume_or_schedule p k = if is_ready (task_at k p).state then task_run p k else schedule k

  -- keyboard_handler behind monitor_process_key_press
  abbrev pub after_key : TaskPtr → Monitor → Step Monitor → Outcome × Monitor
  after_key p mon panics = (panic, mon)
  after_key p mon faults = (fault, mon)
  after_key p mon (returns mon' k) = (resume_or_schedule p k, mon')

  unfoldable pub keyboard_handler : (scancode : ℕ) → TaskPtr → Monitor → Kernel → Outcome × Monitor
  keyboard_handler scancode p mon k =
      if bit_and scancode key_released /= 0
      then (resume_or_schedule p k, mon)
      else after_key p mon (monitor_process_key_press scancode mon k)

  -- The switch of interrupt_handler. The vectors of the other exceptions, and those that nobody
  -- handles, are treated alike: the task is destroyed.
  unfoldable pub dispatch_interrupt :
      (cr2 scancode : ℕ) → TaskContext → TaskPtr → Monitor → Kernel → Outcome × Monitor
  dispatch_interrupt cr2 scancode ctx p mon k =
      let n = ctx.interrupt_number in
      if n == vector_breakpoint
      then (if bit_and ctx.cs gdt_dpl_u /= 0 then task_run p k else schedule k, mon)
      else if n == vector_page_fault
      then (page_fault_handler p cr2 k, mon)
      else if n == vector_syscall
      then (syscall p k, mon)
      else if n == vector_timer
      then (timer_handler p k, mon)
      else if n == vector_keyboard
      then keyboard_handler scancode p mon k
      else (destroy_and_schedule p k, mon)

  unfoldable pub interrupt_handler :
      (cr2 scancode : ℕ) → TaskContext → Monitor → Kernel → Outcome × Monitor
  interrupt_handler cr2 scancode ctx mon k = elim (k.cpu_task) [
    | none ↦ (fault, mon)
    | some p ↦
        dispatch_interrupt cr2 scancode ctx p mon
          (set_task k p (record (task_at k p) { context = ctx; state = ready }))
  ]
