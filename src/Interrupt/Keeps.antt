-- ===== src/Interrupt/Keeps.antt =====
-- What the handlers of interrupts keep: at most the task of the processor is RUN, the list of free
-- tasks holds free tasks, each once, and a task that may run has an address space.
pub mod Tasks
pub mod Create
pub mod Commands
pub mod Handlers
pub mod Sequence
use ann.Base.{
  ℕ, Option, none, some, Bool, true, false, if◌then◌else◌, List, ◌≡◌, ◌≢◌, has, Distinct,
}
use ann.Task.{
  Task, TaskState, free, ready, run, is_ready, is_run, TaskPtr, self_task, in_array, Kernel,
  Outcome, resume, panic, fault,
}
use ann.Memory.Machine.{Machine, Run, ok}
use ann.Task.Create.{Step, returns, panics, faults, go_on}

abbrev pub is_free : TaskState → Bool
is_free free = true
is_free _ = false

abbrev pub is_some : Option ℕ → Bool
is_some none = false
is_some (some n) = true

-- A task of the table while a handler runs; `listed` tells whether it is on the list of free tasks.
pub record Fits (task : Task) (listed : Bool) : Type 0 where
  pub idle : is_run task.state ≡ false
  pub unused : listed ≡ true → is_free task.state ≡ true
  pub has_space : is_ready task.state ≡ true → is_some task.pml4 ≡ true

-- The tasks while a handler runs that came in for task `c`. As long as task `c` is not destroyed, it
-- is the task of the processor.
pub record Sound (c : ℕ) (tasks : ℕ → Task) (free_tasks : List ℕ) (cpu_task : Option TaskPtr)
    : Type 0 where
  pub fits : (j : ℕ) → Fits (tasks j) (has j free_tasks)
  pub distinct : Distinct free_tasks
  pub current : is_ready (tasks c).state ≡ true → cpu_task ≡ some (in_array c)

abbrev pub Entered : ℕ → Kernel → Type 0
Entered c k = Sound c k.tasks k.free_tasks k.cpu_task

-- Task `c` runs, and it is the only one.
pub record Running (c : ℕ) (k : Kernel) : Type 0 where
  pub current : k.cpu_task ≡ some (in_array c)
  pub running : (k.tasks c).state ≡ run
  pub has_space : is_some ((k.tasks c).pml4) ≡ true
  pub not_listed : has c k.free_tasks ≡ false
  pub others : (j : ℕ) → j ≢ c → Fits (k.tasks j) (has j k.free_tasks)
  pub distinct : Distinct k.free_tasks

-- A handler ends with a task that runs alone, or in kernel_panic. It follows no NULL pointer.
abbrev pub Good : Outcome → Type 0
Good (resume self_task k) = ⊥
Good (resume (in_array c) k) = Running c k
Good panic = Unit
Good fault = ⊥

-- A function returns in a state that satisfies `P`, or it panics.
pub data Ends {A : Type 0} (P : A → Kernel → Type 0) : Step A → Type 0 where
  never : Ends P panics
  ended : {a : A} {k : Kernel} → P a k → Ends P (returns a k)

pub go_on-Ends :
    {A B : Type 0} {P : B → Kernel → Type 0} (k : Kernel) (r : Run A) (next : A → Kernel → Step B)
    → ((a : A) (m : Machine) → Ends P (next a (record k { machine = m })))
    → Ends P (go_on k r next)
go_on-Ends k (ok a m) next h = h a m
go_on-Ends k Run.panic next h = never

pub pick-Good : (b : Bool) (x y : Outcome) → Good x → Good y → Good (if b then x else y)
pick-Good true x y h g = h
pick-Good false x y h g = g
