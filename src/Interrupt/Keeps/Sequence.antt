-- ===== src/Interrupt/Keeps/Sequence.antt =====
-- Interrupts one after the other: the fault handler, the keyboard, and the switch between handlers.
use ann.Base.{
  ℕ, Bool, true, false, ◌≡◌, refl, has, Distinct, Option-cases, Bool-cases, inl, inr, ◌==◌, ◌/=◌,
  subst, ap, if◌then◌else◌, bit_and, ==_refl, ==_no,
}
use ann.LinkedList.{ListOps}
use native.Mathlib.Decide.{ℕ_discrete}
use ann.Task.{
  Task, TaskContext, ready, is_ready, TaskPtr, self_task, in_array, Kernel, Outcome, set_task,
  resume, panic, fault,
}
use ann.Task.Create.{Step, returns, panics, faults}
use ann.Task.Destroy.{gdt_dpl_u}
use ann.Task.Schedule.{schedule}
use ann.Monitor.{Monitor}
use ann.Interrupt.{
  resolve_fault, after_fault, page_fault_handler, destroy_and_schedule, timer_handler,
  resume_or_schedule, after_key, keyboard_handler, dispatch_interrupt, interrupt_handler,
  key_released, vector_breakpoint, vector_page_fault, vector_syscall, vector_timer, vector_keyboard,
}
use ann.Interrupt.Keeps.{Fits, Entered, Running, Good, Ends, never, ended, go_on-Ends, pick-Good}
use ann.Interrupt.Keeps.Tasks.{
  ready_used, task_run-Good, schedule-Good, schedule-idle, task_destroy-Ends, Destroyed,
}
use ann.Interrupt.Keeps.Commands.{monitor_process_key_press-Ends}
use ann.Interrupt.Keeps.Handlers.{Caller, syscall-Good}

module _ ⦃q : ListOps⦄ (c : ℕ) where
  destroy_and_schedule-Good : (k : Kernel) → Caller c k → Good (destroy_and_schedule (in_array c) k)
  unfolding destroy_and_schedule
  destroy_and_schedule-Good k (s, on) =
      go (task_destroy-Ends c c k s (ready_used (k.tasks c).state on))
    where
      go :
          {x : Step (Unit {0})}
          → Ends (λ _ k'. Destroyed c c k k') x
          → Good (elim x [ returns _ k' ↦ schedule k' | panics ↦ panic | faults ↦ fault ])
      go never = tt
      go (ended {k = k1} (s', others)) = schedule-Good c k1 s'

  after_fault-Good :
      {x : Step Bool} → Ends (λ _ k'. Caller c k') x → Good (after_fault (in_array c) x)
  after_fault-Good never = tt
  after_fault-Good (ended {a = true} {k = k1} (s, on)) = task_run-Good c k1 s on
  after_fault-Good (ended {a = false} {k = k1} h) = destroy_and_schedule-Good k1 h

  page_fault_handler-Good :
      (va : ℕ) (k : Kernel) → Caller c k → Good (page_fault_handler (in_array c) va k)
  unfolding page_fault_handler
  page_fault_handler-Good va k (s, on) = elim (Option-cases (k.tasks c).pml4) [
    | inl e ↦ cc (rw e at (s.fits c).has_space on)
    | inr (pml4, e) ↦
        rw (page_fault_handler, e)
          (after_fault-Good (
            go_on-Ends k (resolve_fault pml4 va (k.tasks c).context.error_code k.machine) returns
              (λ b m.
                ended
                  ((record { fits = s.fits; distinct = s.distinct; current = s.current }), on))))
  ]

  resume_or_schedule-Good : (k : Kernel) → Entered c k → Good (resume_or_schedule (in_array c) k)
  unfolding resume_or_schedule
  resume_or_schedule-Good k s = elim (Bool-cases (is_ready (k.tasks c).state)) [
    | inl on ↦ rw (resume_or_schedule, on) (task_run-Good c k s on)
    | inr off ↦ rw (resume_or_schedule, off) (schedule-Good c k s)
  ]

  keyboard_handler-Good :
      (scancode : ℕ) (mon : Monitor) (k : Kernel)
      → Entered c k
      → Good ((keyboard_handler scancode (in_array c) mon k).0)
  unfolding keyboard_handler
  keyboard_handler-Good scancode mon k s = elim (Bool-cases (bit_and scancode key_released /= 0)) [
    | inl e ↦ rw (keyboard_handler, e) (resume_or_schedule-Good k s)
    | inr e ↦ rw (keyboard_handler, e) (go (monitor_process_key_press-Ends c scancode mon k s))
  ]
    where
      go :
          {x : Step Monitor}
          → Ends (λ _ k'. Entered c k') x
          → Good ((after_key (in_array c) mon x).0)
      go never = tt
      go (ended {k = k1} s') = resume_or_schedule-Good k1 s'

  pick-first :
      (b : Bool) (x y : Outcome × Monitor) → Good x.0 → Good y.0 → Good ((if b then x else y).0)
  pick-first true x y h g = h
  pick-first false x y h g = g

  dispatch_interrupt-Good :
      (cr2 scancode : ℕ) (ctx : TaskContext) (mon : Monitor) (k : Kernel)
      → Caller c k
      → Good ((dispatch_interrupt cr2 scancode ctx (in_array c) mon k).0)
  unfolding dispatch_interrupt timer_handler
  dispatch_interrupt-Good cr2 scancode ctx mon k (s, on) =
      let n = ctx.interrupt_number in
      pick-first (n == vector_breakpoint) _ _
        (pick-Good (bit_and ctx.cs gdt_dpl_u /= 0) _ _ (task_run-Good c k s on)
          (schedule-Good c k s))
        (pick-first (n == vector_page_fault) _ _ (page_fault_handler-Good cr2 k (s, on)) (
          pick-first (n == vector_syscall) _ _ (syscall-Good c k (s, on)) (
            pick-first (n == vector_timer) _ _ (schedule-Good c k s) (
              pick-first (n == vector_keyboard) _ _ (keyboard_handler-Good scancode mon k s)
                (destroy_and_schedule-Good k (s, on))))))

  -- Let task `c` run alone, with an address space, while the list of free tasks holds free
  -- tasks, each once. Then every interrupt ends in one of two ways, whatever the registers, the fault
  -- address and the key are: another such task runs alone, and it is the one that the processor is
  -- resumed with; or the kernel panics. No handler follows a PML4 that is NULL, in a page fault or in
  -- sys_fork. What SYSCALL_PUTS prints is not modelled, so that its argument is not followed here.
  pub interrupt_handler-Good :
      (cr2 scancode : ℕ) (ctx : TaskContext) (mon : Monitor) (k : Kernel)
      → Running c k
      → Good ((interrupt_handler cr2 scancode ctx mon k).0)
  unfolding interrupt_handler
  interrupt_handler-Good cr2 scancode ctx mon k r =
      let entered : Task = record (k.tasks c) { context = ctx; state = ready } in
      rw (interrupt_handler, r.current)
        (dispatch_interrupt-Good cr2 scancode ctx mon (set_task k (in_array c) entered) (
          record {
            fits = λ j. elim (ℕ_discrete j c) [
              | yes here ↦
                  rw (here, ==_refl c)
                    (record {
                      idle = refl;
                      unused = λ h. cc (h, r.not_listed);
                      has_space = λ h. r.has_space;
                    })
              | no other ↦ rw (==_no other) (r.others j other)
            ];
            distinct = r.distinct;
            current = λ h. r.current;
          },
          rw (==_refl c) refl,
        ))

-- What a task does to memory does not matter.
pub Running-memory :
    (c : ℕ) (k : Kernel) (mem : ℕ → ℕ)
    → Running c k
    → Running c (record k { machine = record (k.machine) { mem = mem } })
Running-memory c k mem h = record {
  current = h.current;
  running = h.running;
  has_space = h.has_space;
  not_listed = h.not_listed;
  others = h.others;
  distinct = h.distinct;
}

-- The states that the kernel gets to when it starts with schedule. While a task runs, it may change
-- what stands in memory; then there is an interrupt.
pub data Reaches ⦃q : ListOps⦄ (start : Kernel) : TaskPtr → Kernel → Type 0 where
  started : {p : TaskPtr} {k : Kernel} → schedule start ≡ resume p k → Reaches start p k
  executes :
      {p : TaskPtr} {k : Kernel} (mem : ℕ → ℕ)
      → Reaches start p k
      → Reaches start p (record k { machine = record (k.machine) { mem = mem } })
  interrupted :
      {p p' : TaskPtr} {k k' : Kernel} (mon mon' : Monitor) (cr2 scancode : ℕ) (ctx : TaskContext)
      → Reaches start p k
      → interrupt_handler cr2 scancode ctx mon k ≡ (resume p' k', mon')
      → Reaches start p' k'

-- The task that runs, alone.
abbrev pub Alone : TaskPtr → Kernel → Type 0
Alone p k = (c : ℕ) × (p ≡ in_array c) × Running c k

Good-Alone : (o : Outcome) (p : TaskPtr) (k : Kernel) → Good o → o ≡ resume p k → Alone p k
Good-Alone o self_task k g e = absurd (subst Good e g)
Good-Alone o (in_array c) k g e = (c, refl, subst Good e g)

module _ ⦃q : ListOps⦄ (start : Kernel)
    (fits : (j : ℕ) → Fits (start.tasks j) (has j start.free_tasks))
    (distinct : Distinct start.free_tasks) where
  -- Let no task be RUN at the start, the READY ones have an address space, and the list of free tasks
  -- hold free tasks, each once. Then after any sequence of interrupts, with anything done to memory
  -- between them, the task that was resumed is RUN, it is the task of the processor, it has an address
  -- space, and no other task is RUN; and the list of free
  -- tasks still holds free tasks, each once.
  pub Reaches-Alone : {p : TaskPtr} {k : Kernel} → Reaches start p k → Alone p k
  Reaches-Alone {p} {k} (started e) =
      Good-Alone (schedule start) p k (schedule-idle start fits distinct) e
  Reaches-Alone (executes {k = k0} mem r) =
      let (c, e, h) = Reaches-Alone r in (c, e, Running-memory c k0 mem h)
  Reaches-Alone {p} {k} (interrupted {k = k0} mon mon' cr2 scancode ctx r e) =
      let (c, _, h) = Reaches-Alone r in
      Good-Alone _ p k (interrupt_handler-Good c cr2 scancode ctx mon k0 h)
        (ap (λ (x : Outcome × Monitor). x.0) e)
