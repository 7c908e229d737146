-- ===== src/Interrupt/Waiting.antt =====
-- Timer interrupts one after the other: no READY task waits for ever.
use ann.Base.{
  ℕ, zero, suc, ◌<◌, some, true, false, ◌≡◌, ◌≢◌, refl, arith, inl, inr, ◌⊎◌, ==_refl, ==_no, sym,
  ap, subst, ◌∙◌,
}
use native.Mathlib.Decide.{ℕ_discrete}
use ann.LinkedList.{ListOps}
use ann.Task.{
  TaskContext, ready, is_ready, is_run, TaskPtr, in_array, Kernel, Outcome, resume, panic, fault,
  set_task, task_max_cnt,
}
use ann.Task.Schedule.{schedule}
use ann.Task.Schedule.Laws.{distance, schedule-RunsOnly}
use ann.Monitor.{Monitor}
use ann.Interrupt.{interrupt_handler, dispatch_interrupt, timer_handler, vector_timer}
use ann.Interrupt.Keeps.{Running, Good}
use ann.Interrupt.Keeps.Sequence.{interrupt_handler-Good, Running-memory}

-- What happens from outside: the registers that the entry code saves at each interrupt, and the
-- memory that the task leaves which was resumed.
pub record Trace : Type 0 where
  pub context : ℕ → TaskContext
  pub memory : ℕ → ℕ → ℕ

abbrev pub later : Trace → Trace
later t = record { context = λ n. t.context (suc n); memory = λ n. t.memory (suc n) }

-- The task runs after a handler.
abbrev pub executes : (ℕ → ℕ) → Kernel → Kernel
executes mem k = record k { machine = record (k.machine) { mem = mem } }

module _ ⦃q : ListOps⦄ where
  abbrev pub tick : TaskContext → Monitor → Kernel → Outcome
  tick ctx mon k = (interrupt_handler 0 0 ctx mon k).0

  -- The outcome of `n + 1` interrupts of the timer.
  unfoldable pub ticks : (n : ℕ) → Trace → Monitor → Kernel → Outcome
  ticks zero t mon k = tick (t.context 0) mon k
  ticks (suc n) t mon k = elim (tick (t.context 0) mon k) [
    | resume p k' ↦ ticks n (later t) mon (executes (t.memory 0) k')
    | panic ↦ panic
    | fault ↦ fault
  ]

  -- The state in which the handler of the timer calls schedule.
  abbrev saved : ℕ → TaskContext → Kernel → Kernel
  saved c ctx k = set_task k (in_array c) (record (k.tasks c) { context = ctx; state = ready })

  tick-schedule :
      (c : ℕ) (ctx : TaskContext) (mon : Monitor) (k : Kernel)
      → k.cpu_task ≡ some (in_array c)
      → ctx.interrupt_number ≡ vector_timer
      → tick ctx mon k ≡ schedule (saved c ctx k)
  unfolding interrupt_handler dispatch_interrupt timer_handler
  tick-schedule c ctx mon k e n = rw (interrupt_handler, e, n) refl

  -- One interrupt: task `i` is resumed, or it is nearer to its turn.
  tick-nearer :
      (c i : ℕ) (ctx : TaskContext) (mon : Monitor) (k : Kernel)
      → Running c k
      → ctx.interrupt_number ≡ vector_timer
      → i < task_max_cnt
      → is_ready (k.tasks i).state ≡ true
      → (c' : ℕ) × (k' : Kernel) × (tick ctx mon k ≡ resume (in_array c') k')
        × ((c' ≡ i)
            ⊎ ((distance k' i < distance k i)
                × (is_ready (k'.tasks i).state ≡ true)
                × Running c' k'))
  tick-nearer c i ctx mon k r n hi on =
      let other : i ≢ c = λ e. cc (on, r.running, ap (λ (x : ℕ). is_ready (k.tasks x).state) e) in
      let k0 = saved c ctx k in
      let waits : is_ready (k0.tasks i).state ≡ true = rw (==_no other) on in
      let (c', k', e, only, _, _, turn) = schedule-RunsOnly k0 (λ j h. idle j) i hi waits in
      let outcome : tick ctx mon k ≡ resume (in_array c') k' =
        tick-schedule c ctx mon k r.current n ∙ e in
      (
        c',
        k',
        outcome,
        elim turn [
          | inl now ↦ inl now
          | inr closer ↦ elim (ℕ_discrete c' i) [
            | yes now ↦ inl now
            | no ne ↦ inr (
              closer,
              rw (only.others i (λ z. ne (sym z))) waits,
              subst Good outcome (interrupt_handler-Good c 0 0 ctx mon k r),
            )
          ]
        ],
      )
    where
      idle : (j : ℕ) → is_run ((saved c ctx k).tasks j).state ≡ false
      idle j = elim (ℕ_discrete j c) [
        | yes here ↦ rw (here, ==_refl c) refl
        | no ne ↦ rw (==_no ne) ((r.others j ne).idle)
      ]

  ticks-suc :
      (n : ℕ) (p : TaskPtr) (t : Trace) (mon : Monitor) (k k' : Kernel)
      → tick (t.context 0) mon k ≡ resume p k'
      → ticks (suc n) t mon k ≡ ticks n (later t) mon (executes (t.memory 0) k')
  unfolding ticks
  ticks-suc n p t mon k k' e = rw (ticks, e) refl

  waits-for :
      (d c i : ℕ) (t : Trace) (mon : Monitor) (k : Kernel)
      → distance k i < d
      → Running c k
      → ((n : ℕ) → (t.context n).interrupt_number ≡ vector_timer)
      → i < task_max_cnt
      → is_ready (k.tasks i).state ≡ true
      → (n : ℕ) × (n < d) × (k' : Kernel) × (ticks n t mon k ≡ resume (in_array i) k')
  unfolding ticks
  waits-for zero c i t mon k near r timer hi on = absurd (omega arith)
  waits-for (suc d) c i t mon k near r timer hi on =
      let (c', k', e, turn) = tick-nearer c i (t.context 0) mon k r (timer 0) hi on in
      elim turn [
        | inl now ↦ (0, omega arith, k', rw (e, now) refl)
        | inr (closer, still, r') ↦
            let (n, hn, k2, e2) =
              waits-for d c' i (later t) mon (executes (t.memory 0) k')
                (omega (arith, closer, near)) (Running-memory c' k' (t.memory 0) r')
                (λ n. timer (suc n)) hi still in
            (suc n, omega arith, k2, ticks-suc n (in_array c') t mon k k' e ∙ e2)
      ]

  -- Let task `c` run alone as after a handler, and task `i` of the table be READY. Then task `i` is
  -- resumed after at most 1024 interrupts of the timer, whatever the tasks do to memory and to their
  -- registers between them.
  pub ticks-turn :
      (c i : ℕ) (t : Trace) (mon : Monitor) (k : Kernel)
      → Running c k
      → ((n : ℕ) → (t.context n).interrupt_number ≡ vector_timer)
      → i < task_max_cnt
      → is_ready (k.tasks i).state ≡ true
      → (n : ℕ) × (n < task_max_cnt) × (k' : Kernel) × (ticks n t mon k ≡ resume (in_array i) k')
  ticks-turn c i t mon k r timer hi on =
      waits-for task_max_cnt c i t mon k (omega arith) r timer hi on
