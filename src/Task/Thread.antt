-- ===== src/Task/Thread.antt =====
-- Kernel threads: kernel/thread.c. What a thread's function does is not modelled, and neither is
-- thread_foo, which calls it.
pub mod Laws
mod Tests
use ann.Base.{
  ℕ, zero, suc, ◌+◌, ◌-◌, ◌%◌, ◌^◌, Option, none, some, Bool, true, false, if◌then◌else◌,
}
use ann.LinkedList.{ListOps}
use ann.CString.{Bytes}
use ann.Memory.Layout.{page_size, round_down, user_stack_top, u64}
use ann.Memory.Machine.{Machine, Cmd, Run, ok, pure, ◌>>=◌, ◌>>◌}
use ann.Task.{
  TaskContext, TaskState, ready, run, dont_run, free, Task, Kernel, TaskPtr, in_array, task_at,
  set_task,
}
use ann.Task.Create.{Step, returns, panics, faults, on_machine, task_new}
use ann.Task.Load.{map_new, write_bytes, cleanup}

-- GD_KT and GD_KD
abbrev pub text_segment : ℕ
text_segment = 0x0008

abbrev pub data_segment : ℕ
data_segment = 0x0010

-- The copy of the argument below the top of the stack, or none for NULL
abbrev pub data_ptr : Option Bytes → ℕ → ℕ
data_ptr none size = 0
data_ptr (some arg) size = round_down (u64 (user_stack_top + 2 ^ 64 - size)) 8

abbrev pub stack_under : Option Bytes → ℕ → ℕ
stack_under none size = user_stack_top
stack_under (some arg) size = data_ptr (some arg) size

abbrev pub copy_data : (pml4 : ℕ) → Option Bytes → ℕ → Cmd (Unit {0})
copy_data pml4 none size = pure tt
copy_data pml4 (some arg) size = write_bytes size 0 pml4 (data_ptr (some arg) size) arg

-- The stack of a thread: the argument, and a return address of 0.
unfoldable pub fill_stack : (pml4 : ℕ) → Option Bytes → ℕ → Cmd (Unit {0})
fill_stack pml4 arg size =
    copy_data pml4 arg size
    >> write_bytes 8 0 pml4 (u64 (stack_under arg size + 2 ^ 64 - 8)) (λ i. 0)

-- The registers that a thread starts with; `task` is the address of its struct, `start` that of
-- thread_foo.
abbrev pub thread_context : (task start foo : ℕ) → Option Bytes → ℕ → TaskContext → TaskContext
thread_context task start foo arg size c = record c {
  gprs = record (c.gprs) { rdi = task; rsi = foo; rdx = data_ptr arg size };
  cs = text_segment;
  ds = data_segment;
  es = data_segment;
  ss = data_segment;
  rip = start;
  rsp = u64 (stack_under arg size + 2 ^ 64 - 8);
}

abbrev pub thread_ready :
    (i : ℕ) → (TaskContext → TaskContext) → Unit {0} → Kernel → Step (Option ℕ)
thread_ready i context _ k =
    returns (some i)
      (set_task k (in_array i) (record (k.tasks i) { context = context ((k.tasks i).context) }))

module _ ⦃q : ListOps⦄ where
  -- thread_create behind the stack's page; cr3 is as before when the stack is filled.
  abbrev pub prepare :
      (address : ℕ → ℕ)
      → (start foo i pml4 : ℕ) → Option Bytes
      → ℕ
      → Bool
      → Kernel
      → Step (Option ℕ)
  prepare address start foo i pml4 arg size true k =
      on_machine (fill_stack pml4 arg size)
        (thread_ready i (thread_context (address i) start foo arg size)) k
  prepare address start foo i pml4 arg size false k = cleanup none i k

  -- thread_create with the new task `i`
  unfoldable pub thread_in :
      (address : ℕ → ℕ) → (start foo i : ℕ) → Option Bytes → ℕ → Kernel → Step (Option ℕ)
  thread_in address start foo i arg size k = elim ((k.tasks i).pml4) [
    | none ↦ faults
    | some pml4 ↦
        on_machine (map_new pml4 (user_stack_top - page_size))
          (prepare address start foo i pml4 arg size) k
  ]

  unfoldable pub thread_create :
      (address : ℕ → ℕ)
      → (start : ℕ) → Bytes
      → (foo : ℕ) → Option Bytes
      → ℕ
      → Kernel
      → Step (Option ℕ)
  thread_create address start name foo arg size k = elim (task_new name k) [
    | panics ↦ panics
    | faults ↦ faults
    | returns none k1 ↦ returns none k1
    | returns (some i) k1 ↦ thread_in address start foo i arg size k1
  ]

-- `thread->state == TASK_STATE_DONT_RUN`
abbrev pub waits : TaskState → Bool
waits dont_run = true
waits _ = false

unfoldable pub thread_run : TaskPtr → Kernel → Step (Unit {0})
thread_run thread k =
    let t = task_at k thread in
    if waits t.state then returns tt (set_task k thread (record t { state = ready })) else panics
