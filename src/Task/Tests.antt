-- ===== src/Task/Tests.antt =====
-- schedule at a kernel with two READY tasks, 3 and 700, after task 3 had its turn, and at one with none.
use ann.Base.{
  ◌+◌, ◌*◌, List, ltb, ◌&&◌, ℕ, ◌<◌, none, some, true, ◌≡◌, refl, [], ◌∷◌, ◌==◌, if◌then◌else◌,
  arith, ◌⊎◌,
}
use ann.Memory.Machine.{Machine, Run, ok}
use ann.Task.{
  Gprs, TaskContext, Task, TaskState, free, ready, Kernel, in_array, resume, panic, is_ready,
  task_max_cnt,
}
use ann.LinkedList.{plain_list}
use ann.CString.{Bytes}
use ann.Memory.Map.Walk.{Typed}
use ann.Memory.Map.Grow.{present-zero}
use ann.Task.{self_task}
use ann.Task.Create.{returns, task_new, task_init, zero_task}
use ann.Task.Create.Laws.{IsNew, task_new-IsNew, task_new-lost}
use ann.Task.Create.Init.{Cleared, task_init-Cleared}
use ann.Memory.Pages.{page_decref, page_free, link_head, pa2page}
use ann.Memory.Layout.{present, entry_addr, pml4_idx}
use ann.Task.Destroy.{task_kill, drop_pages, drop_tables, drop_space}
use ann.Task.Destroy.Laws.{Kills, task_kill-Kills}
use ann.Task.Schedule.{schedule}
use ann.Task.Schedule.Laws.{RunsOnly, distance, schedule-RunsOnly, schedule-panic}

abbrev no_gprs : Gprs
no_gprs = record {
  rax = 0;
  rbx = 0;
  rcx = 0;
  rdx = 0;
  rdi = 0;
  rsi = 0;
  rbp = 0;
  r8 = 0;
  r9 = 0;
  r10 = 0;
  r11 = 0;
  r12 = 0;
  r13 = 0;
  r14 = 0;
  r15 = 0;
}

abbrev no_context : TaskContext
no_context = record {
  gprs = no_gprs;
  ds = 0;
  es = 0;
  fs = 0;
  gs = 0;
  interrupt_number = 0;
  error_code = 0;
  rip = 0;
  cs = 0;
  rflags = 0;
  rsp = 0;
  ss = 0;
}

abbrev task_in : TaskState → Task
task_in s = record { context = no_context; state = s; id = 1; name = λ i. 0; pml4 = some 0x5000 }

abbrev empty_machine : Machine
empty_machine = record { mem = λ a. 0; ref = λ p. 0; free = []; pages_cnt = 0 }

abbrev idle_kernel : Kernel
idle_kernel = record {
  machine = empty_machine;
  tasks = λ i. task_in free;
  boot_task = task_in free;
  free_tasks = [];
  last_task_id = 2;
  next_task_idx = 4;
  cpu_task = none;
  cpu_pml4 = none;
  cr3 = none;
  kernel_pml4 = 0x1000;
}

abbrev two_ready : Kernel
two_ready = record idle_kernel {
  tasks = λ i. task_in (if i == 3 then ready else if i == 700 then ready else free);
}

schedule-RunsOnly_example :
    (c : ℕ) × (k' : Kernel) × (schedule two_ready ≡ resume (in_array c) k')
    × RunsOnly two_ready c k'
    × (is_ready ((two_ready.tasks c).state) ≡ true)
    × (c < task_max_cnt)
    × ((c ≡ 3) ⊎ (distance k' 3 < distance two_ready 3))
schedule-RunsOnly_example = schedule-RunsOnly two_ready (λ j h. ground arith) 3 (omega arith) refl

schedule-panic_example : schedule idle_kernel ≡ panic
schedule-panic_example = schedule-panic idle_kernel (λ j h. refl) (λ j h. refl)

-- The kernel's PML4 is page 1, and pages 2 and 3 are free.
abbrev small_machine : Machine
small_machine = record {
  mem = λ a. 0;
  ref = λ p. if p == 1 then 1 else 0;
  free = 2 ∷ 3 ∷ [];
  pages_cnt = 4;
}

abbrev small_levels : ℕ → ℕ
small_levels f = if f == 1 then 4 else 0

small_machine-Typed : Typed small_levels small_machine
small_machine-Typed = record {
  distinct = ground arith;
  bounded = λ p h. ground arith;
  spare = λ p h. ground arith;
  linked = λ f n i a b on. ground (arith, present-zero);
  blank = λ f n i a b off. refl;
}

abbrev small_kernel : Kernel
small_kernel = record idle_kernel { machine = small_machine; free_tasks = 0 ∷ 1 ∷ [] }

-- "a"
abbrev short_name : Bytes
short_name i = if i == 0 then b'a' else 0

task_new-IsNew_example :
    (k' : Kernel) × (task_new short_name small_kernel ≡ returns (some 0) k')
    × (k'.free_tasks ≡ 1 ∷ [])
    × (k'.machine.free ≡ 3 ∷ [])
    × IsNew small_levels small_kernel 1 0 2 k'
task_new-IsNew_example =
    task_new-IsNew short_name small_kernel 0 (1 ∷ []) refl (ground arith) 1 2 (3 ∷ [])
      small_machine-Typed refl refl refl

abbrev full_kernel : Kernel
full_kernel = record idle_kernel { free_tasks = 0 ∷ 1 ∷ [] }

task_new-lost_example :
    (k' : Kernel) × (task_new short_name full_kernel ≡ returns none k') × (k'.free_tasks ≡ 1 ∷ [])
task_new-lost_example = task_new-lost short_name full_kernel 0 (1 ∷ []) refl (ground arith) refl

task_init-Cleared_example :
    Cleared 0 task_max_cnt (task_init task_max_cnt idle_kernel)
    × ((task_init task_max_cnt idle_kernel).cpu_task ≡ some self_task)
    × ((task_init task_max_cnt idle_kernel).boot_task ≡ zero_task)
task_init-Cleared_example = task_init-Cleared task_max_cnt idle_kernel refl

-- Page 5 is mapped once in the address space of page 2, through the tables in pages 3 and 4 and 6.
abbrev used_machine : Machine
used_machine = record {
  mem = λ a.
      if a == 2 * 4096
      then 3 * 4096 + 7
      else if a == 3 * 4096
      then 4 * 4096 + 7
      else if a == 4 * 4096
      then 6 * 4096 + 7
      else if a == 6 * 4096
      then 5 * 4096 + 7
      else 0;
  ref = λ p. if ltb 0 p && ltb p 7 then 1 else 0;
  free = [];
  pages_cnt = 7;
}

abbrev user_task_at : ℕ → Task
user_task_at i =
    if i == 3
    then record (task_in ready) { context = record no_context { cs = 3 }; pml4 = some (2 * 4096) }
    else task_in free

abbrev used_kernel : Kernel
used_kernel = record idle_kernel { machine = used_machine; tasks = user_task_at }

task_kill-Kills_example : Kills used_kernel 1 0 task_max_cnt (task_kill 1 used_kernel)
task_kill-Kills_example = task_kill-Kills used_kernel 1

abbrev free_pages : Run (Unit {0}) → List ℕ
free_pages (ok a m) = m.free
free_pages _ = []

-- Every page of the address space is free again; the PML4 itself is dropped after that.
space_dropped : free_pages (drop_space (2 * 4096) used_machine) ≡ 3 ∷ 4 ∷ 6 ∷ 5 ∷ []
unfolding drop_space drop_tables drop_pages page_decref page_free link_head pa2page present
    entry_addr pml4_idx
space_dropped = refl
