-- ===== src/Task/Create.antt =====
-- task_init and task_new of kernel/task.c.
pub mod Laws
pub mod Init
use ann.Base.{
  ℕ, zero, suc, ◌+◌, ◌-◌, ◌*◌, ◌%◌, ◌^◌, Option, none, some, ◌==◌, ltb, leb, ◌&&◌, if◌then◌else◌,
}
use ann.LinkedList.{ListOps}
use ann.CString.{Bytes, strncpy}
use ann.Memory.Layout.{page_size, pml4_idx, user_top}
use ann.Memory.Machine.{Machine, Cmd, Run, ok, panic, ◌>>=◌, ◌>>◌}
use ann.Memory.Pages.{page_alloc, page_incref, page2pa, clear_page}
use ann.Task.{Gprs, TaskContext, Task, free, dont_run, Kernel, self_task, in_array, set_task}

-- A function of the kernel returns, or it panics, or it goes through a NULL pointer.
pub data Step (A : Type 0) : Type 0 where
  returns : A → Kernel → Step A
  panics : Step A
  faults : Step A

abbrev pub go_on : {A B : Type 0} → Kernel → Run A → (A → Kernel → Step B) → Step B
go_on k (ok a m) next = next a (record k { machine = m })
go_on k panic next = panics

-- A command on memory, and the rest of the function.
abbrev pub on_machine : {A B : Type 0} → Cmd A → (A → Kernel → Step B) → Kernel → Step B
on_machine c next k = go_on k (c k.machine) next

abbrev pub zero_gprs : Gprs
zero_gprs = record {
  rax = 0;
  rbx = 0;
  rcx = 0;
  rdx = 0;
  rdi = 0;
  rsi = 0;
  rbp = 0;
  r8 = 0;
  r9 = 0;
  r10 = 0;
  r11 = 0;
  r12 = 0;
  r13 = 0;
  r14 = 0;
  r15 = 0;
}

abbrev pub zero_context : TaskContext
zero_context = record {
  gprs = zero_gprs;
  ds = 0;
  es = 0;
  fs = 0;
  gs = 0;
  interrupt_number = 0;
  error_code = 0;
  rip = 0;
  cs = 0;
  rflags = 0;
  rsp = 0;
  ss = 0;
}

-- A task after `memset` with 0; TASK_STATE_FREE is 0.
abbrev pub zero_task : Task
zero_task = record { context = zero_context; state = free; id = 0; name = λ i. 0; pml4 = none }

-- `sizeof(task->name)`
abbrev pub name_size : ℕ
name_size = 64

-- `memcpy` of table entries: `n` bytes from `src` to `dest`.
unfoldable pub copy_entries : (dest src n : ℕ) → Cmd (Unit {0})
copy_entries dest src n m = ok tt (record m {
  mem = λ a. if leb dest a && ltb a (dest + n) then m.mem (src + (a - dest)) else m.mem a;
})

-- What task_new does to the page of the new PML4: the part for the kernel is that of `kernel_pml4`.
unfoldable pub init_pml4 : (kernel_pml4 p : ℕ) → Cmd (Unit {0})
init_pml4 kernel_pml4 p =
    page_incref p
    >> clear_page (page2pa p)
    >> copy_entries (page2pa p + 8 * pml4_idx user_top) (kernel_pml4 + 8 * pml4_idx user_top)
        (page_size - pml4_idx user_top * 8)

-- The record of a new task
abbrev pub new_record : Bytes → ℕ → Task
new_record name id = record zero_task {
  name = strncpy (λ j. 0) name name_size;
  id = id;
  state = dont_run;
}

abbrev pub give_space : (i p : ℕ) → Task → Unit {0} → Kernel → Step (Option ℕ)
give_space i p task _ k =
    returns (some i) (set_task k (in_array i) (record task { pml4 = some (page2pa p) }))

-- task_new behind page_alloc
abbrev pub with_page : (i kernel_pml4 : ℕ) → Task → Option ℕ → Kernel → Step (Option ℕ)
with_page i kernel_pml4 task none k = returns none k
with_page i kernel_pml4 task (some p) k =
    on_machine (init_pml4 kernel_pml4 p) (give_space i p task) k

module _ ⦃q : ListOps⦄ where
  -- The loop of task_init, with `n` tasks left.
  unfoldable pub init_tasks : ℕ → Kernel → Kernel
  init_tasks zero k = k
  init_tasks (suc n) k = init_tasks n (
      set_task (record k { free_tasks = q.insert_head n k.free_tasks }) (in_array n)
        (record (k.tasks n) { state = free }))

  unfoldable pub task_init : ℕ → Kernel → Kernel
  task_init cnt k = record (init_tasks cnt k) { cpu_task = some self_task; boot_task = zero_task }

  -- task_new with the free task `i`.
  unfoldable pub new_in : ℕ → Bytes → Kernel → Step (Option ℕ)
  new_in i name k =
      let id = (k.last_task_id + 1) % 2 ^ 32 in
      let task = new_record name id in
      on_machine page_alloc (with_page i k.kernel_pml4 task) (
        set_task (record k { free_tasks = q.remove i k.free_tasks; last_task_id = id }) (in_array i)
          task)

  unfoldable pub task_new : Bytes → Kernel → Step (Option ℕ)
  task_new name k = elim (q.first k.free_tasks) [ none ↦ returns none k | some i ↦ new_in i name k ]
