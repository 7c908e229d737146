-- ===== src/Syscall/Space/Call.antt =====
-- sys_fork behind task_new: the child's task and its address space together.
use ann.Base.{
  ℕ, ◌*◌, ◌<◌, none, some, Bool, true, false, ◌≡◌, ◌≢◌, refl, arith, ◌⊎◌, inl, inr, ==_refl, ◌∙◌,
  subst, sym,
}
use ann.LinkedList.{ListOps}
use ann.Memory.Machine.{Machine, Run}
use ann.Memory.Yields.{Yields, yields}
use ann.Memory.Map.Walk.{Typed}
use ann.Memory.Map.Tree.{AreRoots, IsTree}
use ann.Memory.Map.UserPage.{user_pages}
use ann.Task.{ready, Kernel, TaskPtr, self_task, in_array, task_at}
use ann.Task.Create.{Step, returns, go_on}
use ann.Syscall.{share_space, fork_into, fork_end, copy_context, widen}
use ann.Memory.Map.Spaces.{page_entry}
use ann.Syscall.Space.Page.{Sharable}
use ann.Syscall.Space.Fork.{Forks, share_space-Forks}

module _ ⦃ops : ListOps⦄ where
  -- The child runs where the parent does, with the result 0, in a copy of the address space; the parent
  -- gets the child's id, and no other task changes.
  pub record Forked (roots : ℕ → Bool) (dest src : ℕ) (task : TaskPtr) (c : ℕ) (k : Kernel)
      (ret : ℕ) (k' : Kernel) : Type 0 where
    pub spaces : Forks roots dest src k.machine true k'.machine
    pub result : ret ≡ widen (k.tasks c).id
    pub child_state : (k'.tasks c).state ≡ ready
    pub child_context : (k'.tasks c).context ≡ record ((task_at k task).context) {
      gprs = record ((task_at k task).context.gprs) { rax = 0 };
    }
    pub child_keeps :
        ((k'.tasks c).id ≡ (k.tasks c).id)
        × ((k'.tasks c).name ≡ (k.tasks c).name)
        × ((k'.tasks c).pml4 ≡ (k.tasks c).pml4)
    pub other_tasks : (j : ℕ) → j ≢ c → k'.tasks j ≡ k.tasks j
    pub lists : (k'.free_tasks ≡ k.free_tasks) × (k'.cpu_task ≡ k.cpu_task)

  copy_context-pml4 :
      (task : TaskPtr) (c : ℕ) (k : Kernel)
      → (task_at (copy_context task c k) task).pml4 ≡ (task_at k task).pml4
  copy_context-pml4 self_task c k = refl
  copy_context-pml4 (in_array j) c k = ground arith

  -- Without memory for the child, task_destroy is called for it.
  abbrev pub GivesUp : (ℕ → Bool) → ℕ → ℕ → TaskPtr → ℕ → Kernel → Step ℕ → Type 0
  GivesUp roots dest src task c k r =
      (m' : Machine) × Forks roots dest src k.machine false m'
      × (r ≡ fork_end c false (record (copy_context task c k) { machine = m' }))

  abbrev pub ForkResult : (ℕ → Bool) → ℕ → ℕ → TaskPtr → ℕ → Kernel → Step ℕ → Type 0
  ForkResult roots dest src task c k r =
      ((ret : ℕ) × (k' : Kernel) × (r ≡ returns ret k') × Forked roots dest src task c k ret k')
      ⊎ GivesUp roots dest src task c k r

  module _ (roots : ℕ → Bool) (lv : ℕ → ℕ) (dest src : ℕ) (task : TaskPtr) (c : ℕ) (k : Kernel)
      (parent : (task_at k task).pml4 ≡ some (src * 4096))
      (child : (k.tasks c).pml4 ≡ some (dest * 4096)) (typed : Typed lv k.machine)
      (are_roots : AreRoots roots lv) (tree : IsTree roots k.machine.mem) (rs : roots src ≡ true)
      (rd : roots dest ≡ true) (ne : dest ≢ src)
      (empty : (r : ℕ) → r < user_pages → page_entry k.machine.mem dest r ≡ none)
      (ok : Sharable lv k.machine src) where
    finish :
        {r : Run Bool}
        → Yields (Forks roots dest src k.machine) r
        → ForkResult roots dest src task c k (go_on (copy_context task c k) r (fork_end c))
    finish (yields {a = true} {m = m'} f) = inl (
      _,
      _,
      refl,
      record {
        spaces = f;
        result = ground arith;
        child_state = ground arith;
        child_context = rw (==_refl c) refl;
        child_keeps = (ground arith, ground arith, ground arith);
        other_tasks = λ j h. ground arith;
        lists = (refl, refl);
      },
    )
    finish (yields {a = false} {m = m'} f) = inr (m', f, refl)

    calls :
        fork_into task c k
        ≡ go_on
            (copy_context task c k)
            (share_space (dest * 4096) (src * 4096) k.machine)
            (fork_end c)
    unfolding fork_into
    calls =
        let child_pml4 : ((copy_context task c k).tasks c).pml4 ≡ some (dest * 4096) =
          rw (==_refl c) child in
        rw (fork_into, copy_context-pml4 task c k ∙ parent, child_pml4) refl

    -- fork_into shares the pages without a panic, and then returns the child's id, or calls task_destroy for the
    -- child if the memory is used up.
    pub fork_into-ForkResult : ForkResult roots dest src task c k (fork_into task c k)
    fork_into-ForkResult = subst (ForkResult roots dest src task c k) (sym calls) (
        finish
          (share_space-Forks roots lv k.machine dest src typed are_roots tree rs rd ne empty ok))
