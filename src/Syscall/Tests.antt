-- ===== src/Syscall/Tests.antt =====
-- A run of fork's sharing: page 5 is mapped, writable, in the parent's space of page 2; the child's
-- empty PML4 is page 7.
use ann.Base.{
  zero, suc, ◌<◌, ◌≢◌, ◌||◌, sym, ◌∙◌, ap, ℕ, ◌+◌, ◌*◌, ◌≡◌, refl, arith, some, ◌==◌, ltb, ◌&&◌,
  ◌≤◌, ◌^◌, Option, none, inl, inr, Option-cases, if◌then◌else◌, List, [], ◌∷◌, Bool, true,
}
use native.Mathlib.Decide.{ℕ_discrete}
use ann.LinkedList.{plain_list}
use ann.Memory.Machine.{Machine, Run, ok}
use ann.Memory.Layout.{present, entry_addr, pml4_idx, pdp_idx, pd_idx, pt_idx, page_addr}
use ann.Memory.Pages.{
  page_alloc, page_incref, page_decref, page_free, page2pa, pa2page, clear_page, unlink, link_head,
}
use ann.Memory.Map.{
  mmap_lookup, next_table, table_entry, page_lookup, page_remove, page_insert, insert_at,
}
use ann.Memory.Map.Walk.{slot_of, translate, Typed, entry_at, index, index-lt, translate-suc}
use ann.Memory.Map.Tree.{TablePath, IsTree, AreRoots}
use ann.Memory.Map.UserPage.{user_pages}
use ann.Memory.Map.After.{translate-slot_of}
use ann.Memory.Layout.Laws.{frame_of}
use ann.Memory.Map.Spaces.{page_entry}
use ann.Syscall.Space.Page.{Sharable, mapped_pages}
use ann.Syscall.Space.Fork.{Forks, share_space-Forks}
use ann.Memory.Map.Write.{Held, slot_of-level}
use ann.Memory.Map.Grow.{present-zero, present-new, frame_of-new}
use ann.Memory.Yields.{Yields}
use ann.Syscall.Share.{Shares, task_share_page-Shares}
use ann.Task.{Kernel, run, dont_run, in_array}
use ann.Task.Create.{zero_task, returns}
use ann.Syscall.Space.Call.{Forked}
use ann.Task.Create.Laws.{IsNew}
use ann.Syscall.Space.New.{with_root, sys_fork-Forked}
use ann.Syscall.{sys_fork, task_share_page, for_entries, share_space}

abbrev left : List ℕ
left = 9 ∷ 10 ∷ 11 ∷ 12 ∷ 13 ∷ 14 ∷ 15 ∷ 16 ∷ []

abbrev before : Machine
before = record {
  mem = λ a.
      if a == 2 * 4096
      then 3 * 4096 + 7
      else if a == 3 * 4096
      then 4 * 4096 + 7
      else if a == 4 * 4096
      then 6 * 4096 + 7
      else if a == 6 * 4096
      then 5 * 4096 + 7
      else 0;
  ref = λ p. if ltb 0 p && ltb p 8 then 1 else 0;
  free = 8 ∷ left;
  pages_cnt = 17;
}

abbrev looks_at : Run Bool → List ℕ
looks_at (ok true m) = (m.mem (6 * 4096)) ∷ (m.mem (10 * 4096)) ∷ (m.ref 5) ∷ []
looks_at _ = []

-- Both have the page now, not writable and marked, and it has two references.
shared_page :
    looks_at (task_share_page (7 * 4096) (2 * 4096) 0 7 before)
    ≡ (5 * 4096 + 2053) ∷ (5 * 4096 + 2053) ∷ 2 ∷ []
unfolding task_share_page mmap_lookup next_table table_entry page_lookup page_remove page_insert
    insert_at page_alloc page_incref page_decref page_free page2pa pa2page clear_page unlink
    link_head present entry_addr pml4_idx pdp_idx pd_idx pt_idx page_addr
shared_page = refl

shared_space :
    looks_at (share_space (7 * 4096) (2 * 4096) before)
    ≡ (5 * 4096 + 2053) ∷ (5 * 4096 + 2053) ∷ 2 ∷ []
unfolding share_space for_entries task_share_page mmap_lookup next_table table_entry page_lookup
    page_remove page_insert insert_at page_alloc page_incref page_decref page_free page2pa pa2page
    clear_page unlink link_head present entry_addr pml4_idx pdp_idx pd_idx pt_idx page_addr
shared_space = refl

abbrev before_levels : ℕ → ℕ
before_levels f =
    if f == 2
    then 4
    else if f == 3
    then 3
    else if f == 4
    then 2
    else if f == 6
    then 1
    else if f == 7
    then 4
    else 0

before-Typed : Typed before_levels before
before-Typed = record {
  distinct = ground arith;
  bounded = λ p h. ground arith;
  spare = λ p h. ground arith;
  linked = λ f n i a b on. ground (arith, present-zero);
  blank =
      λ f n i a b off. ground (arith, present-new 3, present-new 4, present-new 5, present-new 6);
}

parent_mapped : translate 3 before.mem 2 0 ≡ some (5 * 4096 + 7)
unfolding translate slot_of
parent_mapped = rw (present-new 3, present-new 4, present-new 6, present-new 5)

child_empty : translate 3 before.mem 7 0 ≡ none
unfolding translate slot_of
child_empty = rw present-zero

page-Held : Held before_levels before 5
page-Held = record { counted = omega arith; taken = refl; data_page = refl }

task_share_page-Shares_example :
    Yields
      (Shares 7 2 0 7
        (5 * 4096 + 7)
        before-Typed
        refl
        refl
        parent_mapped
        page-Held
        (omega arith)
        (omega arith)
        child_empty)
      (task_share_page (7 * 4096) (2 * 4096) 0 7 before)
task_share_page-Shares_example =
    task_share_page-Shares 7 2 0 7 (5 * 4096 + 7) before-Typed refl refl parent_mapped page-Held
      (omega arith) (omega arith) child_empty

-- The address spaces of parent and child
abbrev spaces : ℕ → Bool
spaces x = x == 2 || x == 7

-- The only entries
before-entries :
    (g i : ℕ)
    → i < 512
    → present (before.mem (entry_at g i)) ≡ true
    → (i ≡ 0) × (g ≢ 7) × (g ≡ 6 → before.mem (entry_at g i) ≡ 5 * 4096 + 7)
before-entries g i h on = ground (arith, present-zero)

before-TablePath :
    (x k q g : ℕ)
    → spaces x ≡ true
    → TablePath before.mem x k q g
    → (q ≡ 0) × (k ≡ 0 → g ≡ x) × (0 < k → x ≡ 2)
before-TablePath x zero q g rx (z, e) = (z, λ k. e, λ k. omega arith)
before-TablePath x (suc k) q g rx (q0, g0, i, w, hi, u, on, eq, eg) =
    let (z, top, deep) = before-TablePath x k q0 g0 rx w in
    let (iz, no_child, _) = before-entries g0 i hi on in
    (omega arith, λ h. omega arith, λ h. ground arith)

before-IsTree : IsTree spaces before.mem
before-IsTree x x' k q q' g rx rx' le w w' =
    let (z, top, deep) = before-TablePath x k q g rx w in
    let (z', top', deep') = before-TablePath x' k q' g rx' w' in (ground arith, omega arith)

before-empty : (r : ℕ) → r < user_pages → page_entry before.mem 7 r ≡ none
before-empty r h =
    let nothing : before.mem (entry_at 7 (index 3 (r * 4096))) ≡ 0 =
      ground (arith, index-lt 3 (r * 4096)) in
    translate-suc before.mem 7 (r * 4096) 2 ∙ rw (nothing, present-zero) refl

before-frame : (r e : ℕ) → page_entry before.mem 2 r ≡ some e → frame_of e ≡ 5
before-frame r e h =
    let (s, at, value, on) = translate-slot_of before 2 (r * 4096) e h in
    let (pt, level, last) = slot_of-level 3 2 (r * 4096) before-Typed refl at in
    let entry = ap before.mem (sym last) ∙ value in
    let table : pt ≡ 6 = ground arith in
    let (iz, no_child, leaf) =
      before-entries pt (index 0 (r * 4096)) (index-lt 0 (r * 4096)) (rw entry on) in
    let this : e ≡ 5 * 4096 + 7 = sym entry ∙ leaf table in omega (arith, this)

before-Sharable : Sharable before_levels before 2
before-Sharable = record {
  held = λ r e hr h. rw (before-frame r e h) page-Held;
  nonzero = λ r e hr h. rw (before-frame r e h) (omega arith);
  room = λ r e hr h. rw (before-frame r e h) (omega arith);
}

before-AreRoots : AreRoots spaces before_levels
before-AreRoots x h = ground arith

share_space-Forks_example :
    Yields (Forks spaces 7 2 before) (share_space (7 * 4096) (2 * 4096) before)
share_space-Forks_example =
    share_space-Forks spaces before_levels before 7 2 before-Typed before-AreRoots before-IsTree
      refl refl (omega arith) before-empty before-Sharable

abbrev fork_kernel : Kernel
fork_kernel = record {
  machine = before;
  tasks = λ j.
      if j == 0
      then record zero_task { state = run; id = 1; pml4 = some (2 * 4096) }
      else record zero_task { state = dont_run; id = 2; pml4 = some (7 * 4096) };
  boot_task = zero_task;
  free_tasks = [];
  last_task_id = 2;
  next_task_idx = 1;
  cpu_task = some (in_array 0);
  cpu_pml4 = some (2 * 4096);
  cr3 = some (2 * 4096);
  kernel_pml4 = 0x1000;
}

-- The same parent, with a new task in place of the other and page 7 as the kernel's PML4.
abbrev one_task : Kernel
one_task = record fork_kernel { free_tasks = 1 ∷ 2 ∷ []; kernel_pml4 = 7 * 4096 }

abbrev parent_space : ℕ → Bool
parent_space x = x == 2

step_down :
    (n g g' va e : ℕ)
    → before.mem (entry_at g 0) ≡ g' * 4096 + 7
    → ((i : ℕ) → i < 512 → i ≢ 0 → before.mem (entry_at g i) ≡ 0)
    → g' < 2 ^ 52
    → translate (suc n) before.mem g va ≡ some e
    → (index (suc n) va ≡ 0) × (translate n before.mem g' va ≡ some e)
step_down n g g' va e first others small h = elim (ℕ_discrete (index (suc n) va) 0) [
  | yes z ↦ (
    z,
    sym (
          translate-suc before.mem g va n
          ∙ rw (z, first, present-new g', frame_of-new g' small) refl)
        ∙ h,
  )
  | no other ↦
      let nothing = others (index (suc n) va) (index-lt (suc n) va) other in
      let gone : translate (suc n) before.mem g va ≡ none =
        translate-suc before.mem g va n ∙ rw (nothing, present-zero) refl in
      cc
]

only_first : (r e : ℕ) → r < user_pages → page_entry before.mem 2 r ≡ some e → r ≡ 0
only_first r e small h =
    let va = r * 4096 in
    let (i3, h3) = step_down 2 2 3 va e refl (λ i lt ne. ground arith) (omega arith) h in
    let (i2, h2) = step_down 1 3 4 va e refl (λ i lt ne. ground arith) (omega arith) h3 in
    let (i1, h1) = step_down 0 4 6 va e refl (λ i lt ne. ground arith) (omega arith) h2 in
    let (s, at, value, on) = translate-slot_of before 2 va e h in
    let (pt, level, last) = slot_of-level 3 2 va before-Typed refl at in
    let entry = ap before.mem (sym last) ∙ value in
    let (i0, no_child, leaf) = before-entries pt (index 0 va) (index-lt 0 va) (rw entry on) in
    omega (arith, i3, i2, i1, i0, small)

mapped_pages-one :
    (maps : ℕ → Option ℕ) (n : ℕ)
    → ((r e : ℕ) → r < n → maps r ≡ some e → r ≡ 0)
    → mapped_pages maps n ≤ 1
unfolding mapped_pages
mapped_pages-one maps zero h = omega arith
mapped_pages-one maps (suc n) h =
    let before_n = mapped_pages-one maps n (λ r e lt. h r e (omega arith)) in
    elim (Option-cases (maps n)) [
      | inl off ↦ rw off (omega (arith, before_n))
      | inr (e, on) ↦ (let first = h n e (omega arith) on in rw on (rw first (omega arith)))
    ]

sys_fork-Forked_example :
    (k1 : Kernel) × (ret : ℕ) × (k' : Kernel) × (sys_fork (in_array 0) one_task ≡ returns ret k')
    × IsNew before_levels one_task 7 1 8 k1
    × Forked (with_root parent_space 8) 8 2 (in_array 0) 1 k1 ret k'
sys_fork-Forked_example =
    sys_fork-Forked parent_space before_levels one_task 7 1 8 2 0 (2 ∷ []) left refl (ground arith)
      before-Typed (λ x h. ground arith)
      (λ x x' k q q' g rx rx'. before-IsTree x x' k q q' g (ground arith) (ground arith)) refl refl
      present-zero refl (omega arith) refl refl before-Sharable
      (omega (arith, mapped_pages-one (page_entry before.mem 2) user_pages only_first))
