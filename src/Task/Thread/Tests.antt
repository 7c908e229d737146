-- ===== src/Task/Thread/Tests.antt =====
-- A thread with an argument of 12 bytes, in an empty address space.
use ann.Base.{ℕ, ◌+◌, ◌*◌, none, some, []}
use ann.LinkedList.{plain_list}
use ann.CString.{Bytes}
use ann.Task.{Kernel, dont_run, self_task}
use ann.Task.Create.{zero_task}
use ann.Task.Load.Tests.{empty_space}

abbrev new_thread : Kernel
new_thread = record {
  machine = empty_space;
  tasks = λ j. record zero_task { state = dont_run; id = 1; pml4 = some (1 * 4096) };
  boot_task = zero_task;
  free_tasks = [];
  last_task_id = 1;
  next_task_idx = 0;
  cpu_task = some self_task;
  cpu_pml4 = none;
  cr3 = none;
  kernel_pml4 = 0x7000;
}

abbrev address : ℕ → ℕ
address j = 0x1_0000 + 512 * j

abbrev argument : Bytes
argument j = j
