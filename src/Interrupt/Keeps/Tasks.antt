-- ===== src/Interrupt/Keeps/Tasks.antt =====
-- task_run, schedule, task_destroy, task_kill and task_new in a kernel that a handler runs in.
use ann.Base.{
  ℕ, zero, suc, ◌+◌, ◌%◌, Option, none, some, Bool, true, false, List, ◌∷◌, ◌≡◌, ◌≢◌, refl, arith,
  has, Distinct, Option-cases, Bool-cases, inl, inr, ◌==◌, ◌&&◌, not, if◌then◌else◌, bit_and,
  ==_refl, ==_no, ◌∙◌,
}
use native.Mathlib.Decide.{ℕ_discrete}
use ann.LinkedList.{ListOps}
use ann.Memory.Machine.{Machine}
use ann.Memory.Pages.{page_decref, pa2page}
use ann.Task.{
  Task, TaskState, free, ready, run, dont_run, is_ready, is_run, TaskPtr, in_array, Kernel,
  set_task, task_max_cnt,
}
use ann.Task.Create.{Step, panics}
use ann.Task.Destroy.{
  task_destroy, destroy_in, drop_space, drop_pml4, free_task, is_loaded, cpu_left, task_kill,
  kill_loop, gdt_dpl_u,
}
use ann.Task.Schedule.{task_run, dispatch, schedule_loop, schedule}
use ann.Interrupt.Keeps.{is_free, Fits, Sound, Entered, Good, Ends, never, ended, go_on-Ends}

pub ready-not_free : (x : TaskState) → is_ready x ≡ true → is_free x ≡ true → ⊥
ready-not_free free h z = cc
ready-not_free ready h z = cc
ready-not_free run h z = cc
ready-not_free dont_run h z = cc

pub ready_used : (x : TaskState) → is_ready x ≡ true → is_free x ≡ false
ready_used free h = cc
ready_used ready h = refl
ready_used run h = cc
ready_used dont_run h = cc

pub task_run-Good :
    (c : ℕ) (k : Kernel)
    → Entered c k
    → is_ready (k.tasks c).state ≡ true
    → Good (task_run (in_array c) k)
unfolding task_run
task_run-Good c k s on = record {
  current = s.current on;
  running = rw (==_refl c) refl;
  has_space = rw (==_refl c) ((s.fits c).has_space on);
  not_listed = elim (Bool-cases (has c k.free_tasks)) [
    | inl h ↦ absurd (ready-not_free (k.tasks c).state on ((s.fits c).unused h))
    | inr h ↦ h
  ];
  others = λ j ne. let off : (j == c) ≡ false = ground arith in rw off (s.fits j);
  distinct = s.distinct;
}

module _ (k : Kernel) (fits : (j : ℕ) → Fits (k.tasks j) (has j k.free_tasks))
    (distinct : Distinct k.free_tasks) where
  loop-Good : (n i j : ℕ) → Good (schedule_loop n i j k)
  unfolding schedule_loop
  loop-Good zero i j = tt
  loop-Good (suc n) i j =
      let idx = (i + j) % task_max_cnt in
      elim (Bool-cases (is_ready (k.tasks idx).state)) [
        | inr off ↦ rw (off, (fits idx).idle) (loop-Good n i (j + 1))
        | inl on ↦ rw on (
            unfold dispatch in
            task_run-Good idx
              (record k {
                cr3 = (k.tasks idx).pml4;
                cpu_task = some (in_array idx);
                cpu_pml4 = (k.tasks idx).pml4;
                next_task_idx = idx + 1;
              })
              (record { fits = fits; distinct = distinct; current = λ h. refl }) on)
      ]

  -- Whatever the task of the processor is.
  pub schedule-idle : Good (schedule k)
  unfolding schedule
  schedule-idle = loop-Good task_max_cnt k.next_task_idx 0

pub schedule-Good : (c : ℕ) (k : Kernel) → Entered c k → Good (schedule k)
schedule-Good c k s = schedule-idle k s.fits s.distinct

-- Task `i` is another, on a free list that has lost or gained at most task `i`.
pub replaced-Sound :
    (c i : ℕ) (tasks tasks' : ℕ → Task) (l l' : List ℕ) (p p' : Option TaskPtr)
    → Sound c tasks l p
    → ((j : ℕ) → j ≢ i → tasks' j ≡ tasks j)
    → ((j : ℕ) → j ≢ i → has j l' ≡ has j l)
    → Distinct l'
    → Fits (tasks' i) (has i l')
    → (is_ready (tasks' c).state ≡ true → p' ≡ some (in_array c))
    → Sound c tasks' l' p'
replaced-Sound c i tasks tasks' l l' p p' s others same d f cur = record {
  fits = λ j. elim (ℕ_discrete j i) [
    | yes here ↦ rw here f
    | no other ↦ rw (others j other, same j other) (s.fits j)
  ];
  distinct = d;
  current = cur;
}

-- What is known after task `i` was destroyed, or not.
abbrev pub Destroyed : (c i : ℕ) → Kernel → Kernel → Type 0
Destroyed c i k k' = Entered c k' × ((j : ℕ) → j ≢ i → k'.tasks j ≡ k.tasks j)

not_free-not_listed :
    (t : Task) (listed : Bool) → Fits t listed → is_free t.state ≡ false → listed ≡ false
not_free-not_listed t true f h = cc (f.unused refl)
not_free-not_listed t false f h = refl

choose :
    {A : Type 0} {P : A → Kernel → Type 0} (b : Bool) {x y : Step A}
    → Ends P x
    → Ends P y
    → Ends P (if b then x else y)
choose true h g = h
choose false h g = g

pub Ends-weaken :
    {A : Type 0} {P R : A → Kernel → Type 0} {x : Step A}
    → ((a : A) (k : Kernel) → P a k → R a k)
    → Ends P x
    → Ends R x
Ends-weaken f never = never
Ends-weaken f (ended h) = ended (f _ _ h)

either :
    {A : Type 0} {P : A → Kernel → Type 0} (b : Bool) {x : Step A}
    → Ends P x
    → Ends P (if b then panics else x)
either true h = never
either false h = h

cpu_left-same : (i c : ℕ) (o : Option TaskPtr) → c ≢ i → o ≡ some (in_array c) → cpu_left i o ≡ o
cpu_left-same i c o ne e = rw (e, ==_no ne) refl

module _ ⦃q : ListOps⦄ (c : ℕ) where
  -- The end of task_destroy.
  freed-Destroyed :
      (i : ℕ) (k : Kernel) (m : Machine) (cr3 : Option ℕ) (p : Option TaskPtr)
      → Entered c k
      → is_free (k.tasks i).state ≡ false
      → (c ≢ i → is_ready (k.tasks c).state ≡ true → p ≡ k.cpu_task)
      → Destroyed c i k (
          set_task
            (record k {
              machine = m;
              cr3 = cr3;
              cpu_task = p;
              free_tasks = q.insert_head i k.free_tasks;
            })
            (in_array i)
            (record (k.tasks i) { pml4 = none; state = free }))
  freed-Destroyed i k m cr3 p s alive cpu =
      let out = not_free-not_listed (k.tasks i) (has i k.free_tasks) (s.fits i) alive in
      (
        rw (q.insert_head_lem i k.free_tasks out) (
            replaced-Sound c i k.tasks _ k.free_tasks (i ∷ k.free_tasks) k.cpu_task p s
              (λ j ne. rw (==_no ne) refl) (λ j ne. rw (==_no ne) refl) (out, s.distinct)
              (rw (==_refl i) (record { idle = refl; unused = λ h. refl; has_space = λ h. cc }))
              (λ on. elim (ℕ_discrete c i) [
                | yes e ↦ cc (rw (e, ==_refl i) at on)
                | no ne ↦ let still = rw (==_no ne) at on in cpu ne still ∙ s.current still
              ])),
        λ j ne. rw (==_no ne) refl,
      )

  drop_pml4-Ends :
      (i pml4 : ℕ) (k : Kernel) (m : Machine) (own : Bool)
      → Entered c k
      → is_free (k.tasks i).state ≡ false
      → Ends
          (λ _ k'. Destroyed c i k k')
          (drop_pml4 i pml4 own k.cr3 tt
            (record k { machine = m; cpu_task = cpu_left i k.cpu_task; cr3 = some pml4 }))
  drop_pml4-Ends i pml4 k m own s alive =
      let cr3 : Option ℕ = if own then some k.kernel_pml4 else k.cr3 in
      either (own && k.kernel_pml4 == pml4) (
        go_on-Ends (record k { machine = m; cpu_task = cpu_left i k.cpu_task; cr3 = cr3 })
          (page_decref (pa2page pml4) m) (free_task i)
          (λ _ m2. ended (
            freed-Destroyed i k m2 cr3 (cpu_left i k.cpu_task) s alive
              (λ ne on. cpu_left-same i c k.cpu_task ne (s.current on)))))

  pub task_destroy-Ends :
      (i : ℕ) (k : Kernel)
      → Entered c k
      → is_free (k.tasks i).state ≡ false
      → Ends (λ _ k'. Destroyed c i k k') (task_destroy (in_array i) k)
  unfolding task_destroy destroy_in
  task_destroy-Ends i k s alive = elim (Option-cases (k.tasks i).pml4) [
    | inl e ↦ rw (task_destroy, e) (ended (s, λ j ne. refl))
    | inr (pml4, e) ↦
        rw (task_destroy, e, destroy_in)
          (go_on-Ends (record k { cpu_task = cpu_left i k.cpu_task; cr3 = some pml4 })
            (drop_space pml4 k.machine) (drop_pml4 i pml4 (is_loaded pml4 k.cr3) k.cr3)
            (λ _ m1. drop_pml4-Ends i pml4 k m1 (is_loaded pml4 k.cr3) s alive))
  ]

  alive-not_free :
      (x : TaskState) → (not (is_run x) && not (is_ready x)) ≡ false → is_free x ≡ false
  alive-not_free free h = cc
  alive-not_free ready h = refl
  alive-not_free run h = refl
  alive-not_free dont_run h = cc

  kill_loop-Ends :
      (n i id : ℕ) (k : Kernel) → Entered c k → Ends (λ _ k'. Entered c k') (kill_loop n i id k)
  unfolding kill_loop
  kill_loop-Ends zero i id k s = ended s
  kill_loop-Ends (suc n) i id k s =
      let x = (k.tasks i).state in
      let rest = kill_loop-Ends n (i + 1) id k s in
      elim (Bool-cases (not (is_run x) && not (is_ready x))) [
        | inl dead ↦ rw (kill_loop, dead) rest
        | inr alive ↦
            rw (kill_loop, alive)
              (choose (not ((k.tasks i).id == id)) rest (
                choose (bit_and ((k.tasks i).context.cs) gdt_dpl_u == 0) (ended s)
                  (Ends-weaken (λ _ k' d. d.0) (task_destroy-Ends i k s (alive-not_free x alive)))))
      ]

  pub task_kill-Ends :
      (id : ℕ) (k : Kernel) → Entered c k → Ends (λ _ k'. Entered c k') (task_kill id k)
  unfolding task_kill
  task_kill-Ends id k s = kill_loop-Ends task_max_cnt 0 id k s
