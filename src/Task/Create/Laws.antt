-- ===== src/Task/Create/Laws.antt =====
-- The address space of a new task.
use ann.Base.{
  false, ◌==◌, ◌||◌, ℕ, suc, ◌+◌, ◌-◌, ◌*◌, ◌<◌, ◌^◌, ◌%◌, true, none, some, ◌≡◌, ◌≢◌, refl, ltb,
  leb, ◌&&◌, if◌then◌else◌, arith, Bool-cases, inl, inr, sym, List, [], ◌∷◌, has, Distinct, update,
  ==_refl, ==_no,
}
use mathlib.Core.Path.{fun_ext}
use ann.LinkedList.{ListOps}
use ann.CString.{Bytes}
use ann.Memory.Layout.{present, pml4_idx}
use ann.Memory.Layout.Laws.{frame_of}
use ann.Memory.Machine.{Machine, ok}
use ann.Memory.Pages.{page_incref, clear_page}
use ann.Memory.Pages.Laws.{page_alloc-cons, page_alloc-nil, page2pa_lem}
use ann.Memory.Map.Walk.{index, index-lt, entry_at, translate, translate-suc, Typed}
use ann.Memory.Map.Agree.{translate-agree}
use ann.Memory.Map.Grow.{present-zero}
use ann.Task.{dont_run, Kernel}
use ann.Task.Create.{returns, task_new, new_in, init_pml4, copy_entries}

module _ {lv : ℕ → ℕ} {m : Machine} (t : Typed lv m) (mem : ℕ → ℕ)
    (agree : (g n i : ℕ) → lv g ≡ suc n → i < 512 → mem (entry_at g i) ≡ m.mem (entry_at g i)) where
  -- A PML4 whose first two entries are 0 and whose others are those of `kf`.
  translate-copied :
      (kf p va : ℕ)
      → lv kf ≡ 4
      → ((i : ℕ) → i < 512 → mem (entry_at p i) ≡ (if ltb i 2 then 0 else m.mem (entry_at kf i)))
      → translate 3 mem p va ≡ (if ltb (index 3 va) 2 then none else translate 3 m.mem kf va)
  translate-copied kf p va lk copied =
      let e = m.mem (entry_at kf (index 3 va)) in
      rw
        (translate-suc mem p va 2, translate-suc m.mem kf va 2, copied (index 3 va) (index-lt 3 va))
        (elim (Bool-cases (ltb (index 3 va) 2)) [
          | inl user ↦ rw (user, present-zero) refl
          | inr kernel ↦ rw kernel (elim (Bool-cases (present e)) [
            | inl on ↦
                rw
                  (
                    on,
                    translate-agree t mem agree 2 (frame_of e) va
                        (t.linked kf 2 (index 3 va) lk (index-lt 3 va) on),
                  )
                  refl
            | inr off ↦ rw off refl
          ])
        ])

-- Memory after the page `p` is cleared and the entries from the third on are copied from `kf`.
abbrev pub pml4_mem : (ℕ → ℕ) → ℕ → ℕ → ℕ → ℕ
pml4_mem mem kf p a =
    if leb (p * 4096 + 16) a && ltb a (p * 4096 + 16 + 4080)
    then mem (kf * 4096 + 16 + (a - (p * 4096 + 16)))
    else if leb (p * 4096) a && ltb a (p * 4096 + 4096)
    then 0
    else mem a

init_pml4_lem :
    (kf p : ℕ) (m : Machine)
    → p < 2 ^ 52
    → kf ≢ p
    → init_pml4 (kf * 4096) p m
      ≡ ok tt
          (record m { ref = update m.ref p ((m.ref p + 1) % 2 ^ 32); mem = pml4_mem m.mem kf p })
unfolding init_pml4 page_incref clear_page copy_entries pml4_idx
init_pml4_lem kf p m h ne = rw (page2pa_lem p h, same_mem) refl
  where
    same_mem :
        (λ a.
          if leb (p * 4096 + 16) a && ltb a (p * 4096 + 16 + 4080)
          then (if leb (p * 4096) (kf * 4096 + 16 + (a - (p * 4096 + 16)))
                && ltb (kf * 4096 + 16 + (a - (p * 4096 + 16))) (p * 4096 + 4096)
              then 0
              else m.mem (kf * 4096 + 16 + (a - (p * 4096 + 16))))
          else (if leb (p * 4096) a && ltb a (p * 4096 + 4096) then 0 else m.mem a))
        ≡ pml4_mem m.mem kf p
    same_mem = fun_ext λ a. ground arith

pml4_mem-other :
    (mem : ℕ → ℕ) (kf p g i : ℕ)
    → g ≢ p
    → i < 512
    → pml4_mem mem kf p (entry_at g i) ≡ mem (entry_at g i)
pml4_mem-other mem kf p g i ne h = ground arith

pml4_mem-copied :
    (mem : ℕ → ℕ) (kf p i : ℕ)
    → i < 512
    → pml4_mem mem kf p (entry_at p i) ≡ (if ltb i 2 then 0 else mem (entry_at kf i))
pml4_mem-copied mem kf p i h = elim (Bool-cases (ltb i 2)) [
  | inl user ↦ rw user (ground arith)
  | inr kernel ↦
      let same : kf * 4096 + 16 + (entry_at p i - (p * 4096 + 16)) ≡ entry_at kf i = ground arith in
      rw (kernel, sym same) (ground arith)
]

pml4_mem-entry :
    (mem : ℕ → ℕ) (kf p g i : ℕ)
    → i < 512
    → pml4_mem mem kf p (entry_at g i)
      ≡ (if g == p then if ltb i 2 then 0 else mem (entry_at kf i) else mem (entry_at g i))
pml4_mem-entry mem kf p g i h = elim (Bool-cases (g == p)) [
  | inl this ↦ let e : g ≡ p = ground arith in rw (this, e) (pml4_mem-copied mem kf p i h)
  | inr other ↦ rw other (pml4_mem-other mem kf p g i (λ e. ground arith) h)
]

-- The tables stay well-typed when the new PML4 is one of them.
pml4_mem-Typed :
    {lv : ℕ → ℕ} {m : Machine}
    → Typed lv m
    → (kf p : ℕ) (pages : List ℕ) → lv kf ≡ 4
    → m.free ≡ p ∷ pages
    → (ref : ℕ → ℕ)
    → Typed (update lv p 4) (record m { mem = pml4_mem m.mem kf p; ref = ref; free = pages })
pml4_mem-Typed {lv} {m} t kf p pages lk ep ref =
    let listed : has p m.free ≡ true = rw (ep, ==_refl p) refl in
    let spare = t.spare p listed in
    let free_cons : (r : ℕ) → has r m.free ≡ (r == p || has r pages) = λ r. rw ep refl in
    let split : (has p pages ≡ false) × Distinct pages = rw ep at t.distinct in
    record {
      distinct = split.1;
      bounded = λ r h. t.bounded r (ground (arith, free_cons r));
      spare = λ r h. ground (arith, free_cons r, split, t.spare r);
      linked = λ g n i lg hi on. ground (
        arith,
        pml4_mem-entry m.mem kf p g i hi,
        t.linked g n i,
        t.linked kf 2 i,
        present-zero,
        spare,
      );
      blank = λ g n i lg hi off.
          ground (arith, pml4_mem-entry m.mem kf p g i hi, t.blank g n i, t.blank kf 3 i);
    }

-- The kernel after task_new put its new task into slot `i` and its PML4 into page `p`.
pub record IsNew (lv : ℕ → ℕ) (k : Kernel) (kf i p : ℕ) (k' : Kernel) : Type 0 where
  pub own : (k'.tasks i).pml4 ≡ some (p * 4096)
  pub waits : (k'.tasks i).state ≡ dont_run
  pub counter : k'.machine.ref p ≡ 1
  pub others : (j : ℕ) → j ≢ i → k'.tasks j ≡ k.tasks j
  pub space :
      (va : ℕ)
      → translate 3 k'.machine.mem p va
        ≡ (if ltb (index 3 va) 2 then none else translate 3 k.machine.mem kf va)
  pub typed : Typed (update lv p 4) k'.machine
  pub tables :
      (g n j : ℕ)
      → lv g ≡ suc n
      → j < 512
      → k'.machine.mem (entry_at g j) ≡ k.machine.mem (entry_at g j)
  pub entries :
      (j : ℕ)
      → j < 512
      → k'.machine.mem (entry_at p j) ≡ (if ltb j 2 then 0 else k.machine.mem (entry_at kf j))
  pub counters : (o : ℕ) → o ≢ p → k'.machine.ref o ≡ k.machine.ref o
  pub spaces :
      (g va : ℕ) → lv g ≡ 4 → translate 3 k'.machine.mem g va ≡ translate 3 k.machine.mem g va

distinct_levels : {a n : ℕ} → a ≡ suc n → a ≢ 0
distinct_levels h z = omega arith

module _ ⦃q : ListOps⦄ (name : Bytes) (k : Kernel) (i : ℕ) (rest : List ℕ)
    (free_lem : k.free_tasks ≡ i ∷ rest) (once : Distinct k.free_tasks) where
  task_new-first : task_new name k ≡ new_in i name k
  unfolding task_new
  task_new-first =
      let head : q.first k.free_tasks ≡ some i = rw (q.first_lem k.free_tasks, free_lem) refl in
      rw (task_new, head) refl

  removed_task : q.remove i k.free_tasks ≡ rest
  removed_task = ground (arith, q.remove_lem i k.free_tasks once, ==_refl i)

  -- Let `i` be the first free task, the tables well-typed and the kernel's PML4 among them, and `p`
  -- the first free page. Then task_new returns task `i`, not yet to be run, with its PML4 in page
  -- `p`. No address of the user's part is mapped in the new address space, and every other one is
  -- translated as in the kernel's. No other task and no other address space has changed, and `i` and
  -- `p` are no longer free.
  pub task_new-IsNew :
      {lv : ℕ → ℕ} (kf p : ℕ) (pages : List ℕ)
      → Typed lv k.machine
      → k.kernel_pml4 ≡ kf * 4096
      → lv kf ≡ 4
      → k.machine.free ≡ p ∷ pages
      → (k' : Kernel) × (task_new name k ≡ returns (some i) k')
        × (k'.free_tasks ≡ rest)
        × (k'.machine.free ≡ pages)
        × IsNew lv k kf i p k'
  unfolding new_in
  task_new-IsNew {lv} kf p pages t ek lk ep =
      let listed : has p k.machine.free ≡ true = rw (ep, ==_refl p) refl in
      let small = t.bounded p listed in
      let spare = t.spare p listed in
      let apart : kf ≢ p = λ e. distinct_levels lk (rw e spare) in
      rw
        (
          task_new-first,
          new_in,
          page_alloc-cons k.machine p pages ep t.distinct,
          ek,
          init_pml4_lem kf p _ small apart,
        )
        (
          _,
          refl,
          removed_task,
          refl,
          record {
            own = rw (==_refl i, page2pa_lem p small) refl;
            waits = rw (==_refl i) refl;
            counter = ground arith;
            others = λ j ne. rw (==_no ne) refl;
            space = λ va.
                translate-copied t _ (agrees) kf p va lk
                  (λ j h. pml4_mem-copied k.machine.mem kf p j h);
            typed = pml4_mem-Typed t kf p pages lk ep _;
            tables = agrees;
            entries = λ j h. pml4_mem-copied k.machine.mem kf p j h;
            counters = λ o ne. ground arith;
            spaces = λ g va lg. translate-agree t _ agrees 3 g va lg;
          },
        )
    where
      agrees :
          (g n j : ℕ)
          → lv g ≡ suc n
          → j < 512
          → pml4_mem k.machine.mem kf p (entry_at g j) ≡ k.machine.mem (entry_at g j)
      agrees g n j lg h =
          let listed : has p k.machine.free ≡ true = rw (ep, ==_refl p) refl in
          let spare = t.spare p listed in
          pml4_mem-other k.machine.mem kf p g j (λ e. distinct_levels lg (rw e spare)) h

  -- With a free task `i` and no free page, task_new returns NULL, and `i` is no longer on the list
  -- of free tasks.
  pub task_new-lost :
      k.machine.free ≡ []
      → (k' : Kernel) × (task_new name k ≡ returns none k') × (k'.free_tasks ≡ rest)
  unfolding new_in
  task_new-lost empty =
      rw (task_new-first, new_in, page_alloc-nil k.machine empty) (_, refl, removed_task)
