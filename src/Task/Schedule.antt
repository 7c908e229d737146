-- ===== src/Task/Schedule.antt =====
-- task_run and schedule of kernel/task.c.
pub mod Laws
use ann.Base.{
  ℕ, zero, suc, ◌+◌, ◌%◌, Option, none, some, Bool, true, false, bit_or, not, if◌then◌else◌,
}
use ann.Task.{
  Kernel, Task, TaskState, ready, run, is_ready, is_run, TaskPtr, in_array, Outcome, resume, panic,
  task_at, set_task, task_max_cnt, rflags_if,
}

-- The registers are restored from the task's context by `iretq`.
unfoldable pub task_run : TaskPtr → Kernel → Outcome
task_run p k =
    let t = task_at k p in
    resume p (
      set_task k p (record t {
        context = record (t.context) { rflags = bit_or t.context.rflags rflags_if };
        state = run;
      }))

-- The body of the loop for a READY task. Writing cr3 is skipped if it holds the value already.
unfoldable pub dispatch : ℕ → Kernel → Outcome
dispatch idx k =
    let pml4 = (k.tasks idx).pml4 in
    task_run (in_array idx) (record k {
      cr3 = pml4;
      cpu_task = some (in_array idx);
      cpu_pml4 = pml4;
      next_task_idx = idx + 1;
    })

-- The loop from `j` on, with `n` rounds left; `i` is next_task_idx at the start.
unfoldable pub schedule_loop : (n i j : ℕ) → Kernel → Outcome
schedule_loop zero i j k = panic
schedule_loop (suc n) i j k =
    let idx = (i + j) % task_max_cnt in
    let rest = schedule_loop n i (j + 1) k in
    if not (is_ready ((k.tasks idx).state))
    then (if is_run ((k.tasks idx).state) then panic else rest)
    else dispatch idx k

unfoldable pub schedule : Kernel → Outcome
schedule k = schedule_loop task_max_cnt k.next_task_idx 0 k
