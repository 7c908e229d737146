-- ===== src/Task/Schedule/Laws.antt =====
-- schedule is round robin: it gives the processor to the next READY task after the last one.
use ann.Base.{
  ℕ, zero, suc, ◌+◌, ◌-◌, ◌%◌, ◌<◌, ◌≤◌, some, Bool, true, false, ◌≡◌, ◌≢◌, refl, arith, Bool-cases,
  inl, inr, ◌⊎◌, ==_refl, ◌∙◌, bit_or,
}
use native.Mathlib.Decide.{ℕ_discrete}
use ann.Task.{
  in_array, Kernel, Task, rflags_if, run, is_ready, is_run, Outcome, resume, panic, task_max_cnt,
}
use ann.Task.Schedule.{task_run, dispatch, schedule_loop, schedule}

abbrev pub at_distance : Kernel → ℕ → ℕ
at_distance k j = (k.next_task_idx + j) % task_max_cnt

-- The position of `i` counted from next_task_idx.
abbrev pub distance : Kernel → ℕ → ℕ
distance k i = (i + task_max_cnt - k.next_task_idx % task_max_cnt) % task_max_cnt

abbrev pub ready_at : Kernel → ℕ → Bool
ready_at k j = is_ready ((k.tasks (at_distance k j)).state)

-- `o` is the dispatch of the first READY task, counted from next_task_idx.
pub record Picks (k : Kernel) (o : Outcome) : Type 0 where
  pub d : ℕ
  pub within : d < task_max_cnt
  pub on : ready_at k d ≡ true
  pub first : (e : ℕ) → e < d → ready_at k e ≡ false
  pub outcome : o ≡ dispatch (at_distance k d) k

module _ (k : Kernel) (idle : (i : ℕ) → i < task_max_cnt → is_run ((k.tasks i).state) ≡ false) where
  loop-Picks :
      (n j d : ℕ)
      → j + n ≡ task_max_cnt
      → ((e : ℕ) → e < j → ready_at k e ≡ false)
      → d < task_max_cnt
      → ready_at k d ≡ true
      → Picks k (schedule_loop n k.next_task_idx j k)
  unfolding schedule_loop
  loop-Picks zero j d whole off hd on = cc (on, off d (omega arith))
  loop-Picks (suc n) j d whole off hd on = elim (Bool-cases (ready_at k j)) [
    | inl here ↦
        rw here (record { d = j; within = omega arith; on = here; first = off; outcome = refl })
    | inr skip ↦
        rw (skip, idle (at_distance k j) (omega arith))
          (loop-Picks n (j + 1) d (omega arith) (λ e h. ground (arith, off e)) hd on)
  ]

  loop-panic :
      (n j : ℕ)
      → ((e : ℕ) → e < task_max_cnt → is_ready ((k.tasks e).state) ≡ false)
      → schedule_loop n k.next_task_idx j k ≡ panic
  unfolding schedule_loop
  loop-panic zero j off = refl
  loop-panic (suc n) j off =
      rw (off (at_distance k j) (omega arith), idle (at_distance k j) (omega arith))
        (loop-panic n (j + 1) off)

  -- If no task is RUN and task `i` is READY, schedule dispatches the first READY task, counted round
  -- the table from next_task_idx.
  pub schedule-Picks :
      (i : ℕ) → i < task_max_cnt → is_ready ((k.tasks i).state) ≡ true → Picks k (schedule k)
  unfolding schedule
  schedule-Picks i hi on =
      let back : at_distance k (distance k i) ≡ i = omega arith in
      loop-Picks task_max_cnt 0 (distance k i) (omega arith) (λ e h. absurd (omega arith))
        (omega arith) (rw back on)

  -- If no task is RUN and none is READY, schedule panics.
  pub schedule-panic :
      ((i : ℕ) → i < task_max_cnt → is_ready ((k.tasks i).state) ≡ false) → schedule k ≡ panic
  unfolding schedule
  schedule-panic off = loop-panic task_max_cnt 0 off

-- The task as it runs: all its registers as they were saved, but for the interrupt flag.
abbrev pub resumed : Task → Task
resumed t = record t {
  context = record (t.context) { rflags = bit_or t.context.rflags rflags_if };
  state = run;
}

-- Afterwards task `c` runs, in its own space, and all else is as it was, but for next_task_idx.
pub record RunsOnly (k : Kernel) (c : ℕ) (k' : Kernel) : Type 0 where
  pub running : (k'.tasks c).state ≡ run
  pub as_saved : k'.tasks c ≡ resumed (k.tasks c)
  pub chosen : k'.cpu_task ≡ some (in_array c)
  pub space : k'.cr3 ≡ (k.tasks c).pml4
  pub others : (j : ℕ) → j ≢ c → k'.tasks j ≡ k.tasks j
  pub memory : k'.machine ≡ k.machine
  pub processor : k'.cpu_pml4 ≡ (k.tasks c).pml4
  pub free_list : k'.free_tasks ≡ k.free_tasks
  pub ids : k'.last_task_id ≡ k.last_task_id
  pub boot : k'.boot_task ≡ k.boot_task
  pub kernel_space : k'.kernel_pml4 ≡ k.kernel_pml4

dispatch-RunsOnly :
    (c : ℕ) (k : Kernel)
    → (k' : Kernel) × (dispatch c k ≡ resume (in_array c) k')
      × RunsOnly k c k'
      × (k'.next_task_idx ≡ c + 1)
unfolding dispatch task_run
dispatch-RunsOnly c k = (
  _,
  refl,
  record {
    running = rw (==_refl c);
    as_saved = rw (==_refl c) refl;
    chosen = refl;
    space = refl;
    others = λ j ne. ground arith;
    memory = refl;
    processor = refl;
    free_list = refl;
    ids = refl;
    boot = refl;
    kernel_space = refl;
  },
  refl,
)

closer :
    (x i d n : ℕ)
    → i < task_max_cnt
    → d ≤ (i + task_max_cnt - x % task_max_cnt) % task_max_cnt
    → n ≡ (x + d) % task_max_cnt + 1
    → ((x + d) % task_max_cnt ≡ i)
      ⊎ ((i + task_max_cnt - n % task_max_cnt) % task_max_cnt
          < (i + task_max_cnt - x % task_max_cnt) % task_max_cnt)
closer x i d n hi h e = elim (ℕ_discrete ((x + d) % task_max_cnt) i) [
  | yes same ↦ inl same
  | no other ↦ inr (omega arith)
]

Picks-le : {k : Kernel} {o : Outcome} (e : ℕ) (s : Picks k o) → ready_at k e ≡ true → s.d ≤ e
Picks-le e s on = ground (arith, s.first e)

-- If no task is RUN and task `i` is READY, schedule gives the processor and its own address space to
-- a READY task `c`, which goes on with the registers that were saved for it, with the interrupt flag
-- set, and is RUN then. Of the tasks, the memory and the kernel's variables, nothing else changes but
-- next_task_idx and the processor's task and space. Either `c` is `i`, or `i` has come nearer to its
-- turn.
pub schedule-RunsOnly :
    (k : Kernel)
    → ((j : ℕ) → j < task_max_cnt → is_run ((k.tasks j).state) ≡ false)
    → (i : ℕ) → i < task_max_cnt
    → is_ready ((k.tasks i).state) ≡ true
    → (c : ℕ) × (k' : Kernel) × (schedule k ≡ resume (in_array c) k')
      × RunsOnly k c k'
      × (is_ready ((k.tasks c).state) ≡ true)
      × (c < task_max_cnt)
      × ((c ≡ i) ⊎ (distance k' i < distance k i))
schedule-RunsOnly k idle i hi on =
    let s = schedule-Picks k idle i hi on in
    let c = at_distance k s.d in
    let (k', e, r, n) = dispatch-RunsOnly c k in
    let back : at_distance k (distance k i) ≡ i = omega arith in
    (
      c,
      k',
      s.outcome ∙ e,
      r,
      s.on,
      omega arith,
      closer k.next_task_idx i s.d k'.next_task_idx hi (Picks-le (distance k i) s (rw back on)) n,
    )
