-- ===== src/Task/Destroy.antt =====
-- task_destroy and task_kill of kernel/task.c.
pub mod Laws
use ann.Base.{
  ℕ, zero, suc, ◌+◌, ◌*◌, Option, none, some, Bool, true, false, bit_and, ◌==◌, not, ◌&&◌, ◌||◌,
  if◌then◌else◌,
}
use ann.LinkedList.{ListOps}
use ann.Memory.Layout.{pml4_idx, user_top, present, entry_addr}
use ann.Memory.Machine.{Machine, Cmd, Run, ok, panic, pure, ◌>>=◌, ◌>>◌, load, store}
use ann.Memory.Pages.{page_decref, pa2page}
use ann.Task.{
  Task, TaskState, free, ready, run, is_ready, is_run, Kernel, TaskPtr, self_task, in_array,
  task_at, set_task, task_max_cnt,
}
use ann.Task.Create.{Step, returns, panics, faults, on_machine}

-- NPML4_ENTRIES to NPT_ENTRIES
abbrev pub table_entries : ℕ
table_entries = 512

-- GDT_DPL_U
abbrev pub gdt_dpl_u : ℕ
gdt_dpl_u = 3

-- cr3 holds this PML4.
abbrev pub is_loaded : (pml4 : ℕ) → Option ℕ → Bool
is_loaded pml4 none = false
is_loaded pml4 (some c) = c == pml4

-- `cpu->task` when task `i` is destroyed.
abbrev pub cpu_left : ℕ → Option TaskPtr → Option TaskPtr
cpu_left i none = none
cpu_left i (some self_task) = some self_task
cpu_left i (some (in_array j)) = if j == i then none else some (in_array j)

module _ ⦃q : ListOps⦄ where
  -- The innermost loop of task_destroy, over a page table, with `n` entries left.
  unfoldable pub drop_pages : (n l pt : ℕ) → Cmd (Unit {0})
  drop_pages zero l pt = pure tt
  drop_pages (suc n) l pt = do
    e ← load (pt + 8 * l)
    if present e then page_decref (pa2page (entry_addr e)) else pure tt
    drop_pages n (l + 1) pt

  -- The loop that is there three times, for the tables above: `drop` is the loop within, over the
  -- table that the entry names.
  unfoldable pub drop_tables : (drop : ℕ → Cmd (Unit {0})) → (n i table : ℕ) → Cmd (Unit {0})
  drop_tables drop zero i table = pure tt
  drop_tables drop (suc n) i table = do
    e ← load (table + 8 * i)
    if present e
        then (drop (entry_addr e)
            >> store (table + 8 * i) 0
            >> page_decref (pa2page (entry_addr e)))
        else pure tt
    drop_tables drop n (i + 1) table

  unfoldable pub drop_space : (pml4 : ℕ) → Cmd (Unit {0})
  drop_space pml4 =
      drop_tables
        (drop_tables (drop_tables (drop_pages table_entries 0) table_entries 0) table_entries 0)
        (pml4_idx user_top + 1) 0 pml4

  -- The end of task_destroy.
  abbrev pub free_task : ℕ → Unit {0} → Kernel → Step (Unit {0})
  free_task i _ k = returns tt (
      set_task (record k { free_tasks = q.insert_head i k.free_tasks }) (in_array i)
        (record (k.tasks i) { pml4 = none; state = free }))

  -- task_destroy behind the loops; `own` tells whether cr3 held the PML4 of the task, `cr3` what it held.
  abbrev pub drop_pml4 :
      (i pml4 : ℕ) → (own : Bool) → (cr3 : Option ℕ) → Unit {0} → Kernel → Step (Unit {0})
  drop_pml4 i pml4 own cr3 _ k =
      if own && k.kernel_pml4 == pml4
      then panics
      else on_machine (page_decref (pa2page pml4)) (free_task i)
          (record k { cr3 = if own then some k.kernel_pml4 else cr3 })

  -- task_destroy for task `i` of the table, when its PML4 is `pml4`.
  unfoldable pub destroy_in : (i pml4 : ℕ) → Kernel → Step (Unit {0})
  destroy_in i pml4 k =
      on_machine (drop_space pml4) (drop_pml4 i pml4 (is_loaded pml4 k.cr3) k.cr3)
        (record k { cpu_task = cpu_left i k.cpu_task; cr3 = some pml4 })

  unfoldable pub task_destroy : TaskPtr → Kernel → Step (Unit {0})
  task_destroy p k = elim ((task_at k p).pml4) [
    | none ↦ returns tt k
    | some pml4 ↦ elim p [ self_task ↦ panics | in_array i ↦ destroy_in i pml4 k ]
  ]

  -- The loop of task_kill at task `i`, with `n` tasks left.
  unfoldable pub kill_loop : (n i task_id : ℕ) → Kernel → Step (Unit {0})
  kill_loop zero i task_id k = returns tt k
  kill_loop (suc n) i task_id k =
      let rest = kill_loop n (i + 1) task_id k in
      let task : Task = k.tasks i in
      if not (is_run task.state) && not (is_ready task.state)
      then rest
      else if not (task.id == task_id)
      then rest
      else if bit_and task.context.cs gdt_dpl_u == 0
      then returns tt k
      else task_destroy (in_array i) k

  unfoldable pub task_kill : ℕ → Kernel → Step (Unit {0})
  task_kill task_id k = kill_loop task_max_cnt 0 task_id k
