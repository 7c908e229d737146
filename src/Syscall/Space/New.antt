-- ===== src/Syscall/Space/New.antt =====
-- sys_fork with task_new: the new address space meets what the loops need.
use ann.Base.{
  ℕ, zero, suc, ◌*◌, ◌<◌, ◌≤◌, none, some, Bool, true, false, ◌≡◌, ◌≢◌, refl, arith, inl, inr, List,
  ◌∷◌, has, Distinct, ◌==◌, ◌||◌, ltb, Bool-cases, sym, ap, subst, ◌∙◌, ==_refl, update, length,
}
use ann.LinkedList.{ListOps}
use ann.Memory.Layout.{present}
use ann.Memory.Layout.Laws.{frame_of}
use ann.Memory.Map.Walk.{index, entry_at, translate-suc, Typed}
use ann.Memory.Map.Write.{Held}
use ann.Memory.Map.Grow.{present-zero}
use ann.Memory.Map.Tree.{TablePath, IsUser, AreRoots, IsTree, TablePath-back, TablePath-level}
use ann.Memory.Map.UserPage.{user_pages}
use ann.Task.{Kernel, TaskPtr, in_array}
use ann.Task.Create.{returns, task_new}
use ann.Task.Create.Laws.{IsNew, task_new-IsNew}
use ann.Syscall.{sys_fork, fork_into, child_name}
use ann.Memory.Map.Spaces.{page_entry}
use ann.Syscall.Space.Page.{Sharable, mapped_pages}
use ann.Syscall.Space.Call.{Forked, ForkResult, fork_into-ForkResult}

-- `roots` and a new PML4
abbrev pub with_root : (ℕ → Bool) → ℕ → ℕ → Bool
with_root roots p x = roots x || x == p

module _ (roots : ℕ → Bool) (lv : ℕ → ℕ) (k k1 : Kernel) (kf i p : ℕ) (pages : List ℕ)
    (typed : Typed lv k.machine) (are_roots : AreRoots roots lv) (tree : IsTree roots k.machine.mem)
    (lk : lv kf ≡ 4) (no_user : present (k.machine.mem (entry_at kf 2)) ≡ false)
    (ep : k.machine.free ≡ p ∷ pages) (ep1 : k1.machine.free ≡ pages)
    (new : IsNew lv k kf i p k1) where
  spare : lv p ≡ 0
  spare = typed.spare p (rw (ep, ==_refl p) refl)

  new_level : update lv p 4 p ≡ 4
  new_level = rw (==_refl p) refl

  new-AreRoots : AreRoots (with_root roots p) (update lv p 4)
  new-AreRoots x h = ground (arith, are_roots x)

  no_entry : (j : ℕ) → j < 3 → present (k1.machine.mem (entry_at p j)) ≡ false
  no_entry j h = ground (arith, new.entries j, present-zero, no_user)

  -- The new PML4 has no table below it in the user part.
  TablePath-new : (d q g : ℕ) → TablePath k1.machine.mem p d q g → (d ≡ 0) × (q ≡ 0) × (g ≡ p)
  TablePath-new zero q g (z, e) = (refl, z, e)
  TablePath-new (suc d) q g (q0, g0, j, w, hj, u, on, eq, eg) =
      let (dz, qz, gz) = TablePath-new d q0 g0 w in
      let small : j < 3 = subst (λ a. IsUser a j) dz u in
      absurd (ground (arith, no_entry j small, on, gz))

  old-TablePath :
      (x d q g : ℕ)
      → lv x ≡ 4
      → d ≤ 3
      → TablePath k1.machine.mem x d q g
      → TablePath k.machine.mem x d q g
  old-TablePath x d q g lx =
      TablePath-back typed k1.machine.mem (λ a n j la hj. new.tables a (suc n) j la hj) x d q g lx

  old_level : (x d q g : ℕ) → lv x ≡ 4 → d ≤ 3 → TablePath k1.machine.mem x d q g → g ≢ p
  old_level x d q g lx le w e =
      omega
        (arith, TablePath-level typed x d q g lx le (old-TablePath x d q g lx le w), ap lv e, spare)

  new-IsTree : IsTree (with_root roots p) k1.machine.mem
  new-IsTree x x' d q q' g rx rx' le w w' = elim (Bool-cases (x == p)) [
    | inl here ↦
        let ex : x ≡ p = ground arith in
        let (dz, qz, gz) =
          TablePath-new d q g (subst (λ a. TablePath k1.machine.mem a d q g) ex w) in
        elim (Bool-cases (x' == p)) [
          | inl here' ↦
              let ex' : x' ≡ p = ground arith in
              let (dz', qz', gz') =
                TablePath-new d q' g (subst (λ a. TablePath k1.machine.mem a d q' g) ex' w') in
              (omega arith, omega arith)
          | inr there' ↦
              let root : roots x' ≡ true = ground arith in
              absurd (old_level x' d q' g (are_roots x' root) le w' gz)
        ]
    | inr there ↦
        let root : roots x ≡ true = ground arith in
        elim (Bool-cases (x' == p)) [
          | inl here' ↦
              let ex' : x' ≡ p = ground arith in
              let (dz', qz', gz') =
                TablePath-new d q' g (subst (λ a. TablePath k1.machine.mem a d q' g) ex' w') in
              absurd (old_level x d q g (are_roots x root) le w gz')
          | inr there' ↦
              let root' : roots x' ≡ true = ground arith in
              tree x x' d q q' g root root' le (old-TablePath x d q g (are_roots x root) le w)
                (old-TablePath x' d q' g (are_roots x' root') le w')
        ]
  ]

  new_empty : (r : ℕ) → r < user_pages → page_entry k1.machine.mem p r ≡ none
  new_empty r h = new.space (r * 4096) ∙ elim (Bool-cases (ltb (index 3 (r * 4096)) 2)) [
    | inl user ↦ rw user refl
    | inr top ↦
        let third : index 3 (r * 4096) ≡ 2 = ground arith in
        rw top (translate-suc k.machine.mem kf (r * 4096) 2 ∙ rw (third, no_user) refl)
  ]

  not_new : (o : ℕ) → has o k.machine.free ≡ false → o ≢ p
  not_new o h e = ground (arith, rw ep at h)

  new-Held : (o : ℕ) → Held lv k.machine o → Held (update lv p 4) k1.machine o
  new-Held o h =
      let ne = not_new o h.taken in
      record {
        counted = rw (new.counters o ne) h.counted;
        taken = rw ep1 (ground (arith, rw ep at h.taken));
        data_page = ground (arith, h.data_page);
      }

  new-Sharable :
      (src : ℕ)
      → roots src ≡ true
      → Sharable lv k.machine src
      → Sharable (update lv p 4) k1.machine src
  new-Sharable src rs ok = record {
    held = λ r e hr h. new-Held (frame_of e) (ok.held r e hr (before r e h));
    nonzero = λ r e hr h. ok.nonzero r e hr (before r e h);
    room = λ r e hr h.
        let o = ok.held r e hr (before r e h) in
        rw (new.counters (frame_of e) (not_new (frame_of e) o.taken))
          (ok.room r e hr (before r e h));
  }
    where
      before :
          (r e : ℕ)
          → page_entry k1.machine.mem src r ≡ some e
          → page_entry k.machine.mem src r ≡ some e
      before r e h = sym (new.spaces src (r * 4096) (are_roots src rs)) ∙ h

sys_fork-made :
    ⦃ops : ListOps⦄ (task : TaskPtr) (k k1 : Kernel) (i : ℕ)
    → task_new child_name k ≡ returns (some i) k1
    → sys_fork task k ≡ fork_into task i k1
unfolding sys_fork
sys_fork-made task k k1 i e = rw (sys_fork, e) refl

module _ ⦃ops : ListOps⦄ (roots : ℕ → Bool) (lv : ℕ → ℕ) (k : Kernel) (kf i p src j : ℕ)
    (rest pages : List ℕ) (free_lem : k.free_tasks ≡ i ∷ rest) (once : Distinct k.free_tasks)
    (typed : Typed lv k.machine) (are_roots : AreRoots roots lv) (tree : IsTree roots k.machine.mem)
    (ek : k.kernel_pml4 ≡ kf * 4096) (lk : lv kf ≡ 4)
    (no_user : present (k.machine.mem (entry_at kf 2)) ≡ false) (ep : k.machine.free ≡ p ∷ pages)
    (other : j ≢ i) (parent : (k.tasks j).pml4 ≡ some (src * 4096)) (rs : roots src ≡ true)
    (ok : Sharable lv k.machine src) where
  -- sys_fork is task_new and, with the task that it made, fork_into.
  sys_fork-ForkResult :
      (k1 : Kernel) × ((k1.machine.free ≡ pages) × IsNew lv k kf i p k1)
      × ForkResult (with_root roots p) p src (in_array j) i k1 (sys_fork (in_array j) k)
  sys_fork-ForkResult =
      let (k1, made, left, ep1, new) =
        task_new-IsNew child_name k i rest free_lem once kf p pages typed ek lk ep in
      let same : (k1.tasks j).pml4 ≡ some (src * 4096) =
        ap (λ t. t.pml4) (new.others j other) ∙ parent in
      let apart : p ≢ src =
        λ e. omega (arith, are_roots src rs, typed.spare p (rw (ep, ==_refl p) refl), ap lv e) in
      let forked =
        fork_into-ForkResult (with_root roots p) (update lv p 4) p src (in_array j) i k1 same
          new.own new.typed
          (new-AreRoots roots lv k k1 kf i p pages typed are_roots tree lk no_user ep ep1 new)
          (new-IsTree roots lv k k1 kf i p pages typed are_roots tree lk no_user ep ep1 new)
          (rw rs refl) (ground arith) apart
          (new_empty roots lv k k1 kf i p pages typed are_roots tree lk no_user ep ep1 new)
          (new-Sharable roots lv k k1 kf i p pages typed are_roots tree lk no_user ep ep1 new src rs
            ok) in
      (
        k1,
        (ep1, new),
        subst (ForkResult (with_root roots p) p src (in_array j) i k1)
            (sym (sys_fork-made (in_array j) k k1 i made)) forked,
      )

  start_pages :
      (k1 : Kernel)
      → IsNew lv k kf i p k1
      → (n : ℕ)
      → mapped_pages (page_entry k1.machine.mem src) n
        ≡ mapped_pages (page_entry k.machine.mem src) n
  unfolding mapped_pages
  start_pages k1 new zero = refl
  start_pages k1 new (suc n) =
      rw (start_pages k1 new n, new.spaces src (n * 4096) (are_roots src rs)) refl

  -- Let `i` be the first free task, `p` the first free page, the tables well-typed, with the PML4 of the
  -- kernel, which has no third entry, and the PML4s `roots`, from which no table of the user part is
  -- reached in two ways; let task `j`, another than `i`, have the PML4 `src` among `roots`, let its
  -- pages be data pages in use with fewer than 2 ^ 31 references, and behind `p` let more than six pages be
  -- free for each user page that it has. Then sys_fork of task `j` does not panic. It makes the new task `i`
  -- with its PML4 in page `p`, and returns its id: the child is READY, with the context of `j` but for
  -- the result 0, and has every user page of `j`, without the write flag and marked for both where it
  -- was writable or marked. No user page of another PML4 of `roots` changes, and no other task.
  pub sys_fork-Forked :
      6 * mapped_pages (page_entry k.machine.mem src) user_pages < length pages
      → (k1 : Kernel) × (ret : ℕ) × (k' : Kernel) × (sys_fork (in_array j) k ≡ returns ret k')
        × IsNew lv k kf i p k1
        × Forked (with_root roots p) p src (in_array j) i k1 ret k'
  sys_fork-Forked enough =
      let (k1, (left, new), result) = sys_fork-ForkResult in
      elim result [
        | inl (ret, k', e, forked) ↦ (k1, ret, k', e, new, forked)
        | inr (m', (levels, tree', others, part), e) ↦
            absurd (omega (arith, part.need, enough, start_pages k1 new user_pages, ap length left))
      ]
