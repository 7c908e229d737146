-- ===== src/Interrupt/GoesOn.antt =====
-- page_fault_handler as a whole, when memory is left: the task goes on with a page of its own.
use ann.Base.{
  ℕ, ◌*◌, ◌≤◌, some, none, Bool, true, false, ◌≡◌, ◌≢◌, refl, arith, has, length, bit_and, ◌==◌,
  ==_refl, subst, sym,
}
use ann.LinkedList.{ListOps}
use ann.Memory.Layout.{pte_cow, kernel_temp}
use ann.Memory.Layout.Laws.{frame_of}
use ann.Memory.Machine.{Run}
use ann.Memory.Yields.{Yields, yields}
use ann.Memory.Map.Walk.{translate, Typed}
use ann.Memory.Map.Write.{Held}
use ann.Task.{Kernel, in_array, Outcome, resume}
use ann.Task.Create.{go_on, returns}
use ann.Task.Schedule.{task_run}
use ann.Task.Schedule.Laws.{resumed}
use ann.Interrupt.{page_fault_handler, resolve_fault, after_fault, error_code_r_w}
use ann.Interrupt.Fault.{Unshared, Resolved, resolve_fault-Resolved}

-- Task `c` runs again, with a page of its own at `va`.
pub record GoesOn (lv : ℕ → ℕ) (k : Kernel) (c f va e : ℕ) (k' : Kernel) : Type 0 where
  pub new : ℕ
  pub memory : Unshared lv k.machine f va e new k'.machine
  pub task : k'.tasks c ≡ resumed (k.tasks c)
  pub other_tasks : (j : ℕ) → j ≢ c → k'.tasks j ≡ k.tasks j
  pub lists : (k'.free_tasks ≡ k.free_tasks) × (k'.next_task_idx ≡ k.next_task_idx)
  pub processor : (k'.cpu_task ≡ k.cpu_task) × (k'.cpu_pml4 ≡ k.cpu_pml4) × (k'.cr3 ≡ k.cr3)

abbrev Ended : (ℕ → ℕ) → Kernel → (c f va e : ℕ) → Outcome → Type 0
Ended lv k c f va e o = (k' : Kernel) × (o ≡ resume (in_array c) k') × GoesOn lv k c f va e k'

module _ ⦃q : ListOps⦄ {lv : ℕ → ℕ} (k : Kernel) (c f va e : ℕ)
    (own : (k.tasks c).pml4 ≡ some (f * 4096)) (t : Typed lv k.machine) (lf : lv f ≡ 4)
    (mapped : translate 3 k.machine.mem f va ≡ some e) (held : Held lv k.machine (frame_of e))
    (no_temp : translate 3 k.machine.mem f kernel_temp ≡ none)
    (not_zero : has 0 k.machine.free ≡ false)
    (on_write : (bit_and (k.tasks c).context.error_code error_code_r_w == 0) ≡ false)
    (cow : (bit_and e pte_cow == 0) ≡ false) (enough : 8 ≤ length k.machine.free) where
  finish :
      {r : Run Bool}
      → Yields (Resolved lv k.machine f va e) r
      → Ended lv k c f va e (after_fault (in_array c) (go_on k r returns))
  unfolding task_run
  finish (yields {a = true} (new, u)) = (
    _,
    refl,
    record {
      new = new;
      memory = u;
      task = rw (==_refl c) refl;
      other_tasks = λ j ne. ground arith;
      lists = (refl, refl);
      processor = (refl, refl, refl);
    },
  )
  finish (yields {a = false} g) = absurd (omega (arith, g.few, enough))

  calls :
      page_fault_handler (in_array c) va k
      ≡ after_fault
          (in_array c)
          (go_on k (resolve_fault (f * 4096) va (k.tasks c).context.error_code k.machine) returns)
  unfolding page_fault_handler
  calls = rw (page_fault_handler, own) refl

  -- Let `e` map a page in use at `va` in the space of task `c`, present and marked for copy on write; let the
  -- tables be well-typed, nothing be mapped at the temporary address, page 0 not be free, and eight
  -- pages be free. Then after a write fault at `va` page_fault_handler resumes the task, with the
  -- registers that were saved for it, and with a page of its own at `va` that was free before: it has
  -- the flags of the old one and the write flag, it holds the same words, and its counter is 1. The
  -- old page lost a reference; nothing is mapped at the temporary address; every other mapped entry, of
  -- every address space, the words of every other data page in use, and the other tasks are as before.
  pub page_fault_handler-GoesOn :
      (k' : Kernel) × (page_fault_handler (in_array c) va k ≡ resume (in_array c) k')
      × GoesOn lv k c f va e k'
  page_fault_handler-GoesOn = subst (Ended lv k c f va e) (sym calls) (
      finish (
        resolve_fault-Resolved f va e t lf mapped held no_temp not_zero
          (k.tasks c).context.error_code on_write cow))
