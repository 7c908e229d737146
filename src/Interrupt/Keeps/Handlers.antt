-- ===== src/Interrupt/Keeps/Handlers.antt =====
-- The handlers, one by one, and sequences of interrupts.
use ann.Base.{
  ℕ, ◌%◌, ◌^◌, Option, none, some, Bool, true, false, ◌≡◌, ◌≢◌, refl, has, Option-cases, inl, inr,
  ◌==◌, ==_refl, ==_no, sym,
}
use native.Mathlib.Decide.{ℕ_discrete}
use ann.LinkedList.{ListOps}
use ann.Task.{Task, dont_run, is_ready, in_array, Kernel, set_task, panic, fault}
use ann.Task.Create.{Step, returns, panics, faults}
use ann.Task.Schedule.{schedule}
use ann.Syscall.{
  syscall, sys_fork, fork_into, resume_with, fork_end, copy_context, failure, share_space,
  child_name,
}
use ann.Interrupt.Keeps.{is_some, Fits, Entered, Good, Ends, never, ended, go_on-Ends, pick-Good}
use ann.Interrupt.Keeps.Tasks.{
  ready_used, task_run-Good, schedule-Good, task_destroy-Ends, replaced-Sound, Destroyed,
}
use ann.Interrupt.Keeps.Create.{task_new-Ends, Made}

-- Task `i`, on no list, keeps its place with other registers, or as a READY task with an address space.
changed-Sound :
    (c i : ℕ) (k : Kernel) (t : Task)
    → Entered c k
    → Fits t (has i k.free_tasks)
    → (i ≡ c → is_ready t.state ≡ true → k.cpu_task ≡ some (in_array c))
    → Entered c (set_task k (in_array i) t)
changed-Sound c i k t s f cur =
    replaced-Sound c i k.tasks _ k.free_tasks k.free_tasks k.cpu_task k.cpu_task s
      (λ j ne. rw (==_no ne) refl) (λ j ne. refl) s.distinct (rw (==_refl i) f)
      (λ on. elim (ℕ_discrete c i) [
        | yes e ↦ cur (sym e) (rw (e, ==_refl i) at on)
        | no ne ↦ s.current (rw (==_no ne) at on)
      ])

module _ ⦃q : ListOps⦄ (c : ℕ) where
  -- The handler runs for task `c`, which is READY.
  abbrev pub Caller : Kernel → Type 0
  Caller k = Entered c k × (is_ready (k.tasks c).state ≡ true)

  pub resume_with-Good : (ret : ℕ) (k : Kernel) → Caller k → Good (resume_with (in_array c) ret k)
  unfolding resume_with
  resume_with-Good ret k (s, on) =
      task_run-Good c _
        (changed-Sound c c k _ s
          (record {
            idle = (s.fits c).idle;
            unused = (s.fits c).unused;
            has_space = (s.fits c).has_space;
          })
          (λ e h. s.current on))
        (rw (==_refl c) on)

  -- The child runs from now on, or it is destroyed.
  fork_end-Ends :
      (i child : ℕ) (k : Kernel)
      → Caller k
      → (k.tasks i).state ≡ dont_run
      → (k.tasks i).pml4 ≡ some child
      → i ≢ c
      → (done : Bool) → Ends (λ _ k'. Caller k') (fork_end i done k)
  fork_end-Ends i child k (s, on) st sp ne true = ended (
    changed-Sound c i k _ s
        (record {
          idle = refl;
          unused = λ h. cc (rw st at (s.fits i).unused h);
          has_space = λ h. rw sp refl;
        })
        (λ e h. absurd (ne e)),
    rw (==_no (λ e. ne (sym e))) on,
  )
  fork_end-Ends i child k (s, on) st sp ne false = through (task_destroy-Ends c i k s (rw st refl))
    where
      through :
          {x : Step (Unit {0})}
          → Ends (λ _ k'. Destroyed c i k k') x
          → Ends
              (λ _ k'. Caller k')
              (elim x [ returns _ k' ↦ returns failure k' | panics ↦ panics | faults ↦ faults ])
      through never = never
      through (ended (s', others)) = ended (s', rw (others c (λ e. ne (sym e))) on)

  fork_into-Ends :
      (i : ℕ) (k : Kernel)
      → Caller k
      → (k.tasks i).state ≡ dont_run
      → is_some (k.tasks i).pml4 ≡ true
      → i ≢ c
      → Ends (λ _ k'. Caller k') (fork_into (in_array c) i k)
  unfolding fork_into
  fork_into-Ends i k (s, on) st space ne =
      let k1 = copy_context (in_array c) i k in
      let same : k1.tasks c ≡ k.tasks c = rw (==_no (λ e. ne (sym e))) refl in
      let here : k1.tasks i ≡ record (k.tasks i) { context = (k1.tasks i).context } =
        rw (==_refl i) refl in
      let s1 : Entered c k1 =
        changed-Sound c i k
          (record (k.tasks i) {
            context = record ((k.tasks c).context) {
              gprs = record ((k.tasks c).context.gprs) { rax = 0 };
            };
          })
          s
          (record {
            idle = (s.fits i).idle;
            unused = (s.fits i).unused;
            has_space = (s.fits i).has_space;
          })
          (λ e. absurd (ne e)) in
      elim (Option-cases (k.tasks c).pml4) [
        | inl e ↦ cc (rw e at (s.fits c).has_space on)
        | inr (parent, e) ↦ elim (Option-cases (k.tasks i).pml4) [
          | inl e' ↦ cc (rw e' at space)
          | inr (child, e') ↦
              rw (fork_into, same, e, here, e')
                (go_on-Ends k1 (share_space child parent k.machine) (fork_end i) (λ done m.
                  fork_end-Ends i child (record k1 { machine = m }) (s1, rw same on) (rw here st)
                    (rw here e') ne done))
        ]
      ]

  sys_fork-Ends : (k : Kernel) → Caller k → Ends (λ _ k'. Caller k') (sys_fork (in_array c) k)
  unfolding sys_fork
  sys_fork-Ends k (s, on) = forks (task_new-Ends c child_name k s)
    where
      forks :
          {x : Step (Option ℕ)}
          → Ends (Made c k) x
          → Ends
              (λ _ k'. Caller k')
              (elim x [
                | panics ↦ panics
                | faults ↦ faults
                | returns none k1 ↦ returns failure k1
                | returns (some i) k1 ↦ fork_into (in_array c) i k1
              ])
      forks never = never
      forks (ended {a = none} d) = ended (d.sound, rw (d.same on) on)
      forks (ended {a = some i} {k = k1} d) =
          let (st, space, ne) = d.made i refl in
          fork_into-Ends i k1 (d.sound, rw (d.same on) on) st space (ne on)

  pub syscall-Good : (k : Kernel) → Caller k → Good (syscall (in_array c) k)
  unfolding syscall
  syscall-Good k (s, on) =
      let number = (k.tasks c).context.gprs.rax % 2 ^ 32 in
      pick-Good (number == 0) _ _ (resume_with-Good 0 k (s, on)) (
        pick-Good (number == 1) _ _
          (exits (task_destroy-Ends c c k s (ready_used (k.tasks c).state on)))
          (pick-Good (number == 2) _ _ (forks (sys_fork-Ends k (s, on)))
            (pick-Good (number == 3) _ _ (schedule-Good c k s) tt)))
    where
      exits :
          {x : Step (Unit {0})}
          → Ends (λ _ k'. Destroyed c c k k') x
          → Good (elim x [ returns _ k1 ↦ schedule k1 | panics ↦ panic | faults ↦ fault ])
      exits never = tt
      exits (ended {k = k1} (s', others)) = schedule-Good c k1 s'

      forks :
          {x : Step ℕ}
          → Ends (λ _ k'. Caller k') x
          → Good (elim x [
            | returns ret k1 ↦ resume_with (in_array c) ret k1
            | panics ↦ panic
            | faults ↦ fault
          ])
      forks never = tt
      forks (ended {a = ret} {k = k1} h) = resume_with-Good ret k1 h
