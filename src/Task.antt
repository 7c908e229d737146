-- ===== src/Task.antt =====
-- The data of kernel/task.h and kernel/cpu.h: tasks, their saved registers, and the one processor.
pub mod Schedule
pub mod Create
pub mod Destroy
pub mod Load
pub mod Thread
mod Tests
use ann.Base.{ℕ, ◌+◌, ◌%◌, ◌^◌, Option, none, some, Bool, true, false, List, ◌==◌, if◌then◌else◌}
use ann.CString.{Bytes}
use ann.Memory.Machine.{Machine}

-- struct gprs
pub record Gprs : Type 0 where
  pub rax : ℕ
  pub rbx : ℕ
  pub rcx : ℕ
  pub rdx : ℕ
  pub rdi : ℕ
  pub rsi : ℕ
  pub rbp : ℕ
  pub r8 : ℕ
  pub r9 : ℕ
  pub r10 : ℕ
  pub r11 : ℕ
  pub r12 : ℕ
  pub r13 : ℕ
  pub r14 : ℕ
  pub r15 : ℕ

-- struct task_context, without the padding
pub record TaskContext : Type 0 where
  pub gprs : Gprs
  pub ds : ℕ
  pub es : ℕ
  pub fs : ℕ
  pub gs : ℕ
  pub interrupt_number : ℕ
  pub error_code : ℕ
  pub rip : ℕ
  pub cs : ℕ
  pub rflags : ℕ
  pub rsp : ℕ
  pub ss : ℕ

pub data TaskState : Type 0 where
  free ready run dont_run : TaskState

abbrev pub is_ready : TaskState → Bool
is_ready ready = true
is_ready _ = false

abbrev pub is_run : TaskState → Bool
is_run run = true
is_run _ = false

-- struct task; `pml4` is the address of its PML4, `none` for NULL. The free list's links are in
-- `free_tasks` below.
pub record Task : Type 0 where
  pub context : TaskContext
  pub state : TaskState
  pub id : ℕ
  pub name : Bytes
  pub pml4 : Option ℕ

abbrev pub task_max_cnt : ℕ
task_max_cnt = 1024

-- `struct task *` as the kernel uses it: the processor's own task, or one of the array.
pub data TaskPtr : Type 0 where
  self_task : TaskPtr
  in_array : ℕ → TaskPtr

-- The variables of task.c and the processor's context: `tasks`, `free_tasks`, `last_task_id`,
-- `next_task_idx` of schedule, `cpu->task`, `cpu->self_task` and `cpu->pml4`, the register cr3, the kernel's PML4.
pub record Kernel : Type 0 where
  pub machine : Machine
  pub tasks : ℕ → Task
  pub boot_task : Task
  pub free_tasks : List ℕ
  pub last_task_id : ℕ
  pub next_task_idx : ℕ
  pub cpu_task : Option TaskPtr
  pub cpu_pml4 : Option ℕ
  pub cr3 : Option ℕ
  pub kernel_pml4 : ℕ

-- How a handler ends: control goes to this task, or kernel_panic never returns, or
-- the handler went through a NULL pointer.
pub data Outcome : Type 0 where
  resume : TaskPtr → Kernel → Outcome
  panic : Outcome
  fault : Outcome

abbrev pub task_at : Kernel → TaskPtr → Task
task_at k self_task = k.boot_task
task_at k (in_array i) = k.tasks i

abbrev pub set_task : Kernel → TaskPtr → Task → Kernel
set_task k self_task t = record k { boot_task = t }
set_task k (in_array i) t = record k { tasks = λ j. if j == i then t else k.tasks j }

-- RFLAGS_IF
abbrev pub rflags_if : ℕ
rflags_if = 2 ^ 9
