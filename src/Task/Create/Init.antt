-- ===== src/Task/Create/Init.antt =====
-- All tasks are free after task_init.
use ann.Base.{
  ℕ, zero, suc, ◌<◌, ◌≤◌, false, some, ◌≡◌, refl, ltb, leb, ◌&&◌, arith, [], has, Distinct, ==_refl,
  ==_no,
}
use native.Mathlib.Decide.{ℕ_discrete}
use ann.LinkedList.{ListOps}
use ann.Task.{free, Kernel, self_task}
use ann.Task.Create.{init_tasks, task_init, zero_task}

-- The tasks from `n` to below `cnt` are FREE, and they are the elements of the free list.
pub record Cleared (n cnt : ℕ) (k : Kernel) : Type 0 where
  pub distinct : Distinct k.free_tasks
  pub listed : (i : ℕ) → has i k.free_tasks ≡ (leb n i && ltb i cnt)
  pub states : (i : ℕ) → n ≤ i → i < cnt → (k.tasks i).state ≡ free

module _ ⦃q : ListOps⦄ where
  init_tasks-Cleared :
      (n cnt : ℕ) (k : Kernel) → n ≤ cnt → Cleared n cnt k → Cleared 0 cnt (init_tasks n k)
  unfolding init_tasks
  init_tasks-Cleared zero cnt k h s = s
  init_tasks-Cleared (suc n) cnt k h s =
      let off : has n k.free_tasks ≡ false = ground (arith, s.listed n) in
      rw (q.insert_head_lem n k.free_tasks off) (
        init_tasks-Cleared n cnt _ (omega arith) (record {
          distinct = (off, s.distinct);
          listed = λ i. ground (arith, s.listed i);
          states = λ i lo hi. elim (ℕ_discrete i n) [
            | yes e ↦ rw (e, ==_refl n) refl
            | no ne ↦ rw (==_no ne) (s.states i (omega arith) hi)
          ];
        }))

  -- From an empty free list, task_init puts every task of the table on the free list, once, and
  -- makes it FREE. The processor's task is its own one, which is cleared.
  pub task_init-Cleared :
      (cnt : ℕ) (k : Kernel)
      → k.free_tasks ≡ []
      → Cleared 0 cnt (task_init cnt k)
        × ((task_init cnt k).cpu_task ≡ some self_task)
        × ((task_init cnt k).boot_task ≡ zero_task)
  unfolding task_init
  task_init-Cleared cnt k e =
      let start : Cleared cnt cnt k = record {
        distinct = rw e tt;
        listed = λ i. rw e (ground arith);
        states = λ i lo hi. absurd (omega arith);
      } in
      let done = init_tasks-Cleared cnt cnt k (omega arith) start in
      (record { distinct = done.distinct; listed = done.listed; states = done.states }, refl, refl)
