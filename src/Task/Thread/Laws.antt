-- ===== src/Task/Thread/Laws.antt =====
-- The stack of a new thread.
use ann.Base.{
  ℕ, ◌+◌, ◌-◌, ◌*◌, ◌/◌, ◌%◌, ◌≤◌, Option, none, some, Bool, true, false, ◌≡◌, ◌≢◌, arith, has, [],
  ◌⊎◌, length,
}
use ann.LinkedList.{ListOps}
use ann.CString.{Bytes}
use ann.Memory.Layout.{page_size, round_down, user_stack_top}
use ann.Memory.Machine.{Machine}
use ann.Memory.Yields.{Yields}
use ann.Memory.Map.Insert.{mapping}
use ann.Memory.Map.Spaces.{set_page}
use ann.Task.{Kernel, TaskContext}
use ann.Task.Create.{Step, returns}
use ann.Task.Load.{user_page, cleanup}
use ann.Task.Load.NewPages.{Now, NewPage}
use ann.Task.Thread.{stack_under, thread_context, thread_ready}

-- The page below the top of the stack
abbrev pub stack_page : ℕ
stack_page = user_stack_top / page_size - 1

-- Where a thread's stack starts, when the argument leaves room.
pub stack_under-range :
    (arg : Option Bytes) (size : ℕ)
    → size ≤ 4080
    → (stack_page * 4096 + 8 ≤ stack_under arg size)
      × (stack_under arg size ≤ user_stack_top)
      × (stack_under arg size % 8 ≡ 0)
unfolding round_down
stack_under-range none size h = (omega arith, omega arith, omega arith)
stack_under-range (some arg) size h = (omega arith, omega arith, omega arith)

-- A thread with its own stack, ready to start.
pub record Made (roots : ℕ → Bool) (maps : ℕ → ℕ → Option ℕ) (lv : ℕ → ℕ) (k : Kernel) (f i : ℕ)
    (context : TaskContext → TaskContext) (k' : Kernel) : Type 0 where
  pub page : ℕ
  pub lv' : ℕ → ℕ
  pub spaces : Now roots (set_page maps f stack_page (some (mapping page user_page))) lv' k'.machine
  pub new_page : NewPage lv k.machine page lv' k'.machine
  pub starts : (k'.tasks i).context ≡ context ((k.tasks i).context)
  pub keeps : ((k'.tasks i).state ≡ (k.tasks i).state) × ((k'.tasks i).pml4 ≡ (k.tasks i).pml4)
  pub other_tasks : (j : ℕ) → j ≢ i → k'.tasks j ≡ k.tasks j

module _ ⦃q : ListOps⦄ (address : ℕ → ℕ) (start foo i : ℕ) (arg : Option Bytes) (size : ℕ) where
  -- Without memory, the task is given to cleanup.
  abbrev ThreadResult :
      (ℕ → Bool) → (ℕ → ℕ → Option ℕ) → (ℕ → ℕ) → Kernel → ℕ → Step (Option ℕ) → Type 0
  ThreadResult roots maps lv k f r =
      ((k' : Kernel) × (r ≡ returns (some i) k')
        × Made roots maps lv k f i (thread_context (address i) start foo arg size) k')
      ⊎ ((m' : Machine) × (m'.free ≡ [])
          × (length k.machine.free ≤ 4)
          × ((lv' : ℕ → ℕ) × Now roots maps lv' m')
          × (r ≡ cleanup none i (record k { machine = m' })))

  module _ (roots : ℕ → Bool) (maps : ℕ → ℕ → Option ℕ) (lv : ℕ → ℕ) (k : Kernel) (f : ℕ)
      (rf : roots f ≡ true) (s : Now roots maps lv k.machine) (h0 : has 0 k.machine.free ≡ false)
      (own : (k.tasks i).pml4 ≡ some (f * 4096)) (empty : maps f stack_page ≡ none)
      (room : size ≤ 4080) where
    abbrev Ended : Step (Option ℕ) → Type 0
    Ended r = ThreadResult roots maps lv k f r

    abbrev ready_thread : Unit {0} → Kernel → Step (Option ℕ)
    ready_thread = thread_ready i (thread_context (address i) start foo arg size)
