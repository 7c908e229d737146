-- ===== src/Syscall.antt =====
-- System calls and fork: kernel/syscall.c. What the calls print is not modelled,
-- and so SYSCALL_PUTS does not read the text that its argument points to.
pub mod Share
pub mod Space
mod Tests
use ann.Base.{
  ℕ, zero, suc, ◌+◌, ◌-◌, ◌*◌, ◌%◌, ◌^◌, Option, none, some, Bool, true, false, bit_and, bit_or,
  ◌==◌, ◌/=◌, ltb, ◌||◌, if◌then◌else◌,
}
use ann.LinkedList.{ListOps}
use ann.CString.{Bytes}
use ann.Memory.Layout.{
  page_addr, pml4_idx, user_top, present, entry_addr, pte_w, pte_cow, pte_flags_mask,
}
use ann.Memory.Machine.{Machine, Cmd, Run, pure, ◌>>=◌, ◌>>◌, assert, load}
use ann.Memory.Map.{page_lookup, page_insert}
use ann.Task.{Task, ready, Kernel, TaskPtr, in_array, Outcome, panic, fault, task_at, set_task}
use ann.Task.Create.{Step, returns, panics, faults, on_machine, task_new}
use ann.Task.Destroy.{table_entries, task_destroy}
use ann.Task.Schedule.{task_run, schedule}

module _ ⦃q : ListOps⦄ where
  -- task_share_page for the PML4s of both tasks; the result is `true` for 0, `false` for -1.
  unfoldable pub task_share_page : (dest src va perm : ℕ) → Cmd Bool
  task_share_page dest src va perm = do
    found ← page_lookup src va
    let (page, pte) = found
    elim page [
      | none ↦ assert false >> pure false
      | some p ↦
          if bit_and perm pte_w /= 0 || bit_and perm pte_cow /= 0
          then page_insert src p va (bit_and (bit_or perm pte_cow) (2 ^ 32 - 1 - pte_w))
            >>= (λ done.
                if done
                then page_insert dest p va (bit_and (bit_or perm pte_cow) (2 ^ 32 - 1 - pte_w))
                else pure false)
          else page_insert dest p va perm
    ]

  -- One of the four loops of sys_fork, with `n` entries left: `body` is what is done for a present
  -- entry, and its failure ends the loop.
  unfoldable pub for_entries : (body : ℕ → ℕ → Cmd Bool) → (n i table : ℕ) → Cmd Bool
  for_entries body zero i table = pure true
  for_entries body (suc n) i table = load (table + 8 * i) >>= λ e.
      (if present e then body i e else pure true) >>= λ done.
      if done then for_entries body n (i + 1) table else pure false

  unfoldable pub share_space : (child parent : ℕ) → Cmd Bool
  share_space child parent =
      for_entries
        (λ i pml4e.
          for_entries
            (λ j pdpe.
              for_entries
                (λ k pde.
                  for_entries
                    (λ l pte.
                      task_share_page child parent (page_addr i j k l 0)
                        (bit_and pte pte_flags_mask))
                    table_entries 0 (entry_addr pde))
                table_entries 0 (entry_addr pdpe))
            table_entries 0 (entry_addr pml4e))
        (pml4_idx user_top + 1) 0 parent

  -- "child"
  abbrev pub child_name : Bytes
  child_name i =
      if i == 0
      then b'c'
      else if i == 1
      then b'h'
      else if i == 2
      then b'i'
      else if i == 3
      then b'l'
      else if i == 4
      then b'd'
      else 0

  -- -1 as an `int64_t`
  abbrev pub failure : ℕ
  failure = 2 ^ 64 - 1

  -- An `int` widened to 64 bits
  unfoldable pub widen : ℕ → ℕ
  widen n = if ltb n (2 ^ 31) then n else n + (2 ^ 64 - 2 ^ 32)

  -- The end of sys_fork, when the pages of the parent were shared, or at the label for errors.
  abbrev pub fork_end : (c : ℕ) → Bool → Kernel → Step ℕ
  fork_end c true k =
      returns (widen (k.tasks c).id)
        (set_task k (in_array c) (record (k.tasks c) { state = ready }))
  fork_end c false k = elim (task_destroy (in_array c) k) [
    | returns _ k' ↦ returns failure k'
    | panics ↦ panics
    | faults ↦ faults
  ]

  -- `child->context = task->context`, with the result 0 for the child
  abbrev pub copy_context : TaskPtr → (c : ℕ) → Kernel → Kernel
  copy_context task c k =
      let context = (task_at k task).context in
      set_task k (in_array c) (record (k.tasks c) {
        context = record context { gprs = record (context.gprs) { rax = 0 } };
      })

  -- sys_fork behind task_new, for the child `c`. A PML4 that is NULL is followed by the loops.
  unfoldable pub fork_into : TaskPtr → ℕ → Kernel → Step ℕ
  fork_into task c k0 =
      let k = copy_context task c k0 in
      elim ((task_at k task).pml4) [
        | none ↦ faults
        | some parent ↦ elim ((k.tasks c).pml4) [
          | none ↦ faults
          | some child ↦ on_machine (share_space child parent) (fork_end c) k
        ]
      ]

  unfoldable pub sys_fork : TaskPtr → Kernel → Step ℕ
  sys_fork task k = elim (task_new child_name k) [
    | panics ↦ panics
    | faults ↦ faults
    | returns none k1 ↦ returns failure k1
    | returns (some c) k1 ↦ fork_into task c k1
  ]

  -- The end of syscall: the result goes to rax, and the task runs on.
  unfoldable pub resume_with : TaskPtr → ℕ → Kernel → Outcome
  resume_with task ret k =
      let t = task_at k task in
      task_run task (
        set_task k task (record t {
          context = record (t.context) { gprs = record (t.context.gprs) { rax = ret } };
        }))

  unfoldable pub syscall : TaskPtr → Kernel → Outcome
  syscall task k =
      let number = (task_at k task).context.gprs.rax % 2 ^ 32 in
      if number == 0
      then resume_with task 0 k
      else if number == 1
      then elim (task_destroy task k) [
        | returns _ k1 ↦ schedule k1
        | panics ↦ panic
        | faults ↦ fault
      ]
      else if number == 2
      then elim (sys_fork task k) [
        | returns ret k1 ↦ resume_with task ret k1
        | panics ↦ panic
        | faults ↦ fault
      ]
      else if number == 3
      then schedule k
      else panic
