-- ===== src/Task/Destroy/Laws.antt =====
-- Which task task_kill destroys.
use ann.Base.{
  ℕ, zero, suc, ◌+◌, ◌<◌, ◌≤◌, true, bit_and, ◌≡◌, ◌≢◌, refl, inl, inr, ◌==◌, ◌||◌, not,
  if◌then◌else◌, arith, Bool-cases, ==_no, ==_refl, subst,
}
use native.Mathlib.Decide.{ℕ_discrete}
use ann.LinkedList.{ListOps}
use ann.Task.{Kernel, is_ready, is_run, in_array, task_max_cnt}
use ann.Task.Create.{Step, returns}
use ann.Task.Destroy.{kill_loop, task_kill, task_destroy, gdt_dpl_u}

-- Task `i` is alive and has the id.
abbrev pub Bears : Kernel → ℕ → ℕ → Type 0
Bears k id i =
    ((is_run ((k.tasks i).state) || is_ready ((k.tasks i).state)) ≡ true) × ((k.tasks i).id ≡ id)

-- Task `i` is the first that is alive and has the id, counted from `from`.
pub record IsFirst (k : Kernel) (id from cnt i : ℕ) : Type 0 where
  pub lower : from ≤ i
  pub within : i < cnt
  pub bears : Bears k id i
  pub first : (j : ℕ) → from ≤ j → j < i → Bears k id j → ⊥

-- The outcome of task_kill: nothing, if no task bears the id or the first that does is a kernel
-- task; else that task is destroyed.
pub data Kills (k : Kernel) (id from cnt : ℕ) ⦃q : ListOps⦄ : Step (Unit {0}) → Type 0 where
  no_task : ((j : ℕ) → from ≤ j → j < cnt → Bears k id j → ⊥) → Kills k id from cnt (returns tt k)
  kernel_task :
      (i : ℕ)
      → IsFirst k id from cnt i
      → bit_and ((k.tasks i).context.cs) gdt_dpl_u ≡ 0
      → Kills k id from cnt (returns tt k)
  user_task :
      (i : ℕ)
      → IsFirst k id from cnt i
      → bit_and ((k.tasks i).context.cs) gdt_dpl_u ≢ 0
      → Kills k id from cnt (task_destroy (in_array i) k)

module _ ⦃q : ListOps⦄ (k : Kernel) (id : ℕ) where
  later : {i j cnt : ℕ} → (Bears k id i → ⊥) → IsFirst k id (i + 1) cnt j → IsFirst k id i cnt j
  later {i} {j} {cnt} skip f = record {
    lower = omega (arith, f.lower);
    within = f.within;
    bears = f.bears;
    first = λ d a b c. elim (ℕ_discrete d i) [
      | yes e ↦ skip (subst (Bears k id) e c)
      | no ne ↦ f.first d (omega arith) b c
    ];
  }

  past :
      {i cnt : ℕ} {s : Step (Unit {0})}
      → (Bears k id i → ⊥)
      → Kills k id (i + 1) cnt s
      → Kills k id i cnt s
  past {i} {cnt} skip (no_task none) = no_task (λ j a b c. elim (ℕ_discrete j i) [
    | yes e ↦ skip (subst (Bears k id) e c)
    | no ne ↦ none j (omega arith) b c
  ])
  past {i} {cnt} skip (kernel_task j f z) = kernel_task j (later skip f) z
  past {i} {cnt} skip (user_task j f z) = user_task j (later skip f) z

  here : {i cnt : ℕ} → i < cnt → Bears k id i → IsFirst k id i cnt i
  here h b = record {
    lower = omega arith;
    within = h;
    bears = b;
    first = λ j lo hi c. absurd (omega arith);
  }

  alive :
      (n i cnt : ℕ)
      → i < cnt
      → Kills k id (i + 1) cnt (kill_loop n (i + 1) id k)
      → (is_run ((k.tasks i).state) || is_ready ((k.tasks i).state)) ≡ true
      → Kills k id i cnt (
          if not ((k.tasks i).id == id)
          then kill_loop n (i + 1) id k
          else if bit_and ((k.tasks i).context.cs) gdt_dpl_u == 0
          then returns tt k
          else task_destroy (in_array i) k)
  alive n i cnt h rest on = elim (ℕ_discrete ((k.tasks i).id) id) [
    | no other ↦ rw (==_no other) (past (λ (b, same). other same) rest)
    | yes same ↦
        rw (same, ==_refl id)
          (elim (ℕ_discrete (bit_and ((k.tasks i).context.cs) gdt_dpl_u) 0) [
            | yes kernel ↦ rw kernel (kernel_task i (here h (on, same)) kernel)
            | no user ↦ rw (==_no user) (user_task i (here h (on, same)) user)
          ])
  ]

  kill_loop-Kills : (n i cnt : ℕ) → i + n ≡ cnt → Kills k id i cnt (kill_loop n i id k)
  unfolding kill_loop
  kill_loop-Kills zero i cnt e = no_task (λ j lo hi b. absurd (omega arith))
  kill_loop-Kills (suc n) i cnt e =
      let rest = kill_loop-Kills n (i + 1) cnt (omega arith) in
      elim (Bool-cases (is_run ((k.tasks i).state))) [
        | inl r ↦ rw r (alive n i cnt (omega arith) rest (rw r refl))
        | inr nr ↦ elim (Bool-cases (is_ready ((k.tasks i).state))) [
          | inl r ↦ rw (nr, r) (alive n i cnt (omega arith) rest (rw (nr, r) refl))
          | inr nn ↦ rw (nr, nn) (past (λ (b, same). absurd (ground (arith, b, nr, nn))) rest)
        ]
      ]

  -- task_kill destroys the first task that is RUN or READY and has the id, if that is a user's task.
  -- If it is one of the kernel, or there is none, task_kill changes nothing.
  pub task_kill-Kills : Kills k id 0 task_max_cnt (task_kill id k)
  unfolding task_kill
  task_kill-Kills = kill_loop-Kills task_max_cnt 0 task_max_cnt (omega arith)
