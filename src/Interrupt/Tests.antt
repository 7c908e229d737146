-- ===== src/Interrupt/Tests.antt =====
-- A write fault: page 5 is shared, marked for copy on write, at address 0 of the space of page 2. And
-- two tasks that take turns by the timer.
use ann.Base.{
  ℕ, ◌<◌, ◌%◌, ◌^◌, ◌+◌, ◌*◌, ◌≡◌, refl, arith, some, none, ◌==◌, ltb, ◌&&◌, if◌then◌else◌, [], ◌∷◌,
}
use ann.LinkedList.{plain_list}
use ann.Memory.Layout.{kernel_temp}
use ann.Memory.Layout.Laws.{present_mod}
use ann.Memory.Machine.{Machine}
use ann.Memory.Map.Walk.{slot_of, translate, Typed}
use ann.Memory.Map.Write.{Held}
use ann.Memory.Map.Grow.{present-zero, present-new}
use ann.Task.{Kernel, Task, TaskContext, ready, run, in_array, task_max_cnt, Outcome, resume}
use ann.Task.Create.{zero_task, zero_context}
use ann.Task.Schedule.{schedule, schedule_loop, dispatch, task_run}
use ann.Monitor.{Monitor}
use ann.Interrupt.Keeps.{Running, Good}
use ann.Interrupt.Keeps.Sequence.{
  interrupt_handler-Good, started, interrupted, Alone, Reaches-Alone,
}
use ann.Interrupt.Waiting.{Trace, ticks, ticks-turn}
use ann.Interrupt.Setup.{EntryPoint, vector_of, init_idt}
use ann.Interrupt.Setup.Gates.{Guards, init_idt-Guards}
use ann.Interrupt.{page_fault_handler, interrupt_handler, dispatch_interrupt, timer_handler}
use ann.Interrupt.GoesOn.{GoesOn, page_fault_handler-GoesOn}

-- Present, for the user, and marked
abbrev shared_entry : ℕ
shared_entry = 5 * 4096 + 2053

abbrev sharing : Machine
sharing = record {
  mem = λ a.
      if a == 2 * 4096
      then 3 * 4096 + 7
      else if a == 3 * 4096
      then 4 * 4096 + 7
      else if a == 4 * 4096
      then 6 * 4096 + 7
      else if a == 6 * 4096
      then shared_entry
      else if a == 5 * 4096
      then 77
      else 0;
  ref = λ p. if p == 5 then 2 else if ltb 0 p && ltb p 8 then 1 else 0;
  free = 8 ∷ 9 ∷ 10 ∷ 11 ∷ 12 ∷ 13 ∷ 14 ∷ 15 ∷ [];
  pages_cnt = 16;
}

abbrev sharing_levels : ℕ → ℕ
sharing_levels f =
    if f == 2 then 4 else if f == 3 then 3 else if f == 4 then 2 else if f == 6 then 1 else 0

sharing-Typed : Typed sharing_levels sharing
sharing-Typed = record {
  distinct = ground arith;
  bounded = λ p h. ground arith;
  spare = λ p h. ground arith;
  linked = λ f n i a b on. ground (arith, present-zero);
  blank = λ f n i a b off.
      ground (arith, present-new 3, present-new 4, present-new 6, present_mod shared_entry);
}

shared_mapped : translate 3 sharing.mem 2 0 ≡ some shared_entry
unfolding translate slot_of
shared_mapped = rw (present-new 3, present-new 4, present-new 6, present_mod shared_entry)

temp_empty : translate 3 sharing.mem 2 kernel_temp ≡ none
unfolding translate slot_of
temp_empty = rw present-zero

shared-Held : Held sharing_levels sharing 5
shared-Held = record { counted = omega arith; taken = refl; data_page = refl }

abbrev alive : Task
alive = record zero_task { state = ready; pml4 = some (2 * 4096) }

-- Task 3 and task 5 are READY.
abbrev waiting : Kernel
waiting = record {
  machine = sharing;
  tasks = λ i. if i == 3 then alive else if i == 5 then alive else zero_task;
  boot_task = zero_task;
  free_tasks = 0 ∷ 1 ∷ [];
  last_task_id = 2;
  next_task_idx = 0;
  cpu_task = none;
  cpu_pml4 = none;
  cr3 = none;
  kernel_pml4 = 0x1000;
}

-- Task 3 has written to the shared page.
abbrev faulted : Kernel
faulted = record waiting {
  tasks = λ i.
      if i == 3
      then record alive { context = record zero_context { error_code = 7 } }
      else zero_task;
}

page_fault_handler-GoesOn_example :
    (k' : Kernel) × (page_fault_handler (in_array 3) 0 faulted ≡ resume (in_array 3) k')
    × GoesOn sharing_levels faulted 3 2 0 shared_entry k'
page_fault_handler-GoesOn_example =
    page_fault_handler-GoesOn faulted 3 2 0 shared_entry refl sharing-Typed refl shared_mapped
      shared-Held temp_empty refl refl refl (omega arith)

abbrev at_screen : Monitor
at_screen = record {
  terminal = record { buffer = λ a. 0; color = 7; column = 0; row = 0; command = λ i. 0 };
  command_line = record { row = 24; column = 3 };
}

abbrev ticks_context : TaskContext
ticks_context = record zero_context { interrupt_number = 32 }

-- The state with task `c` running
abbrev runs_at : ℕ → ℕ → Kernel
runs_at c other = record waiting {
  tasks = λ i.
      if i == c
      then record alive { context = record zero_context { rflags = 512 }; state = run }
      else if i == other
      then alive
      else zero_task;
  next_task_idx = c + 1;
  cpu_task = some (in_array c);
  cpu_pml4 = some (2 * 4096);
  cr3 = some (2 * 4096);
}

runs_at-Running : Running 3 (runs_at 3 5)
runs_at-Running = record {
  current = refl;
  running = refl;
  has_space = refl;
  not_listed = refl;
  others = λ j ne. record {
    idle = ground arith;
    unused = λ h. ground arith;
    has_space = λ h. ground arith;
  };
  distinct = (refl, (refl, tt));
}

interrupt_handler-Good_example :
    Good ((interrupt_handler 0 0 ticks_context at_screen (runs_at 3 5)).0)
interrupt_handler-Good_example =
    interrupt_handler-Good 3 0 0 ticks_context at_screen (runs_at 3 5) runs_at-Running

abbrev resumed : Outcome → Kernel
resumed (resume p k) = k
resumed _ = waiting

abbrev after_start : Kernel
after_start = resumed (schedule waiting)

abbrev after_tick : Kernel
after_tick = resumed ((interrupt_handler 0 0 ticks_context at_screen after_start).0)

starts : schedule waiting ≡ resume (in_array 3) after_start
unfolding schedule schedule_loop dispatch task_run
starts = refl

tick :
    interrupt_handler 0 0 ticks_context at_screen after_start
    ≡ (resume (in_array 5) after_tick, at_screen)
unfolding interrupt_handler dispatch_interrupt timer_handler schedule schedule_loop dispatch
    task_run
tick = refl

Reaches-Alone_example : Alone (in_array 5) after_tick
Reaches-Alone_example =
    Reaches-Alone waiting
      (λ j. record {
        idle = ground arith;
        unused = λ h. ground arith;
        has_space = λ h. ground arith;
      })
      (refl, (refl, tt)) (interrupted at_screen at_screen 0 0 ticks_context (started starts) tick)

-- Nothing changes in memory, and the registers are 0.
abbrev quiet : Trace
quiet = record { context = λ n. ticks_context; memory = λ n a. 0 }

ticks-turn_example :
    (n : ℕ) × (n < task_max_cnt)
    × (k' : Kernel) × (ticks n quiet at_screen (runs_at 3 5) ≡ resume (in_array 5) k')
ticks-turn_example =
    ticks-turn 3 5 quiet at_screen (runs_at 3 5) runs_at-Running (λ n. refl) (omega arith) refl

-- Entry points 16 bytes apart
abbrev entries : EntryPoint → ℕ
entries h = (0xffff_fff8_0010_0000 + vector_of h * 16) % 2 ^ 64

init_idt-Guards_example : Guards entries 34 (init_idt entries 34)
init_idt-Guards_example = init_idt-Guards entries (λ h. omega arith) 34
