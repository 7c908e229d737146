-- ===== src/Memory/Tests.antt =====
-- A machine with one empty PML4 and a few free pages, and the theorems at it.
use ann.Base.{
  ℕ, ◌+◌, ◌*◌, Option, none, some, true, false, ◌≡◌, refl, if◌then◌else◌, arith, inl, [], ◌∷◌, ◌==◌,
}
use ann.LinkedList.{plain_list}
use ann.Memory.Layout.{
  page_addr, pml4_idx, pdp_idx, pd_idx, pt_idx, user_stack_top, present, entry_addr,
}
use ann.Memory.Layout.Laws.{page_addr-idx}
use ann.Memory.Machine.{Machine, Run, ok, panic, and_then}
use ann.Memory.Yields.{Yields}
use ann.Memory.Pages.{page_alloc, page_decref, page_incref, page2pa, pa2page, clear_page}
use ann.Memory.Pages.Laws.{page_decref_lem, dropped}
use ann.Memory.Map.{
  mmap_lookup, page_lookup, page_remove, page_insert, insert_at, next_table, table_entry,
}
use ann.Memory.Map.Walk.{slot_of, translate, Typed}
use ann.Memory.Map.Grow.{present-zero, present-new}
use ann.Memory.Map.Lookup.{mmap_lookup-slot_of}
use ann.Memory.Map.Create.{Ends, SlotIn, mmap_lookup-SlotIn}
use ann.Memory.Map.Remove.{
  HeldAt, page_lookup-translate, mapped_page, Unmapped, page_remove-Unmapped,
}
use ann.Memory.Map.Insert.{Done, page_insert-Done}

-- The PML4 is page 1, page 9 is in use, pages 2 to 6 are free.
abbrev tiny : Machine
tiny = record {
  mem = λ a. 0;
  ref = λ p. if p == 1 then 1 else if p == 9 then 1 else 0;
  free = 2 ∷ 3 ∷ 4 ∷ 5 ∷ 6 ∷ [];
  pages_cnt = 10;
}

abbrev levels : ℕ → ℕ
levels f = if f == 1 then 4 else 0

tiny-Typed : Typed levels tiny
tiny-Typed = record {
  distinct = ground arith;
  bounded = λ p h. ground arith;
  spare = λ p h. ground arith;
  linked = λ f n i a b on. ground (arith, present-zero);
  blank = λ f n i a b off. refl;
}

nothing_mapped : (va : ℕ) → translate 3 tiny.mem 1 va ≡ none
unfolding translate slot_of
nothing_mapped va = rw present-zero

page_addr-idx_example :
    page_addr
      (pml4_idx 0xa_0000_0123)
      (pdp_idx 0xa_0000_0123)
      (pd_idx 0xa_0000_0123)
      (pt_idx 0xa_0000_0123)
      0x123
    ≡ 0xa_0000_0123
page_addr-idx_example = page_addr-idx 0xa_0000_0123 (inl (omega arith))

mmap_lookup-slot_of_example :
    mmap_lookup (1 * 4096) user_stack_top false tiny ≡ ok (slot_of 3 tiny.mem 1 user_stack_top) tiny
mmap_lookup-slot_of_example = mmap_lookup-slot_of 1 user_stack_top tiny

mmap_lookup-SlotIn_example :
    Yields
      (Ends (SlotIn levels tiny 1 user_stack_top) levels tiny)
      (mmap_lookup (1 * 4096) user_stack_top true tiny)
mmap_lookup-SlotIn_example = mmap_lookup-SlotIn 1 user_stack_top tiny-Typed refl

page_lookup-translate_example :
    page_lookup (1 * 4096) 0x5000 tiny
    ≡ ok (mapped_page (translate 3 tiny.mem 1 0x5000), slot_of 3 tiny.mem 1 0x5000) tiny
page_lookup-translate_example = page_lookup-translate tiny 1 0x5000

page_insert-Done_example :
    Yields (Done levels tiny 1 9 user_stack_top 6) (page_insert (1 * 4096) 9 user_stack_top 6 tiny)
page_insert-Done_example =
    page_insert-Done 1 9 user_stack_top 6 tiny-Typed refl (omega arith) (omega arith) (omega arith)
      (λ e h. cc (nothing_mapped user_stack_top)) refl

page_decref_lem_example : page_decref 9 tiny ≡ ok tt (dropped tiny 9)
page_decref_lem_example = page_decref_lem tiny 9 refl

-- The machine with page 9 mapped through tables in pages 2, 3 and 4.
abbrev mapped : Machine
mapped = record tiny {
  mem = λ a.
      if a == 4096
      then 2 * 4096 + 7
      else if a == 2 * 4096
      then 3 * 4096 + 7
      else if a == 3 * 4096
      then 4 * 4096 + 7
      else if a == 4 * 4096 + 8
      then 9 * 4096 + 7
      else 0;
  free = 5 ∷ 6 ∷ [];
}

abbrev mapped_levels : ℕ → ℕ
mapped_levels f =
    if f == 1 then 4 else if f == 2 then 3 else if f == 3 then 2 else if f == 4 then 1 else 0

mapped-Typed : Typed mapped_levels mapped
mapped-Typed = record {
  distinct = ground arith;
  bounded = λ p h. ground arith;
  spare = λ p h. ground arith;
  linked = λ f n i a b on. ground (arith, present-zero);
  blank =
      λ f n i a b off. ground (arith, present-new 2, present-new 3, present-new 4, present-new 9);
}

mapped-translate : translate 3 mapped.mem 1 0x1000 ≡ some (9 * 4096 + 7)
unfolding translate slot_of
mapped-translate = rw (present-new 2, present-new 3, present-new 4, present-new 9)

mapped-HeldAt : HeldAt mapped_levels mapped 1 0x1000
mapped-HeldAt e h =
    let same : e ≡ 9 * 4096 + 7 = cc (mapped-translate) in
    rw same (record { counted = omega arith; taken = refl; data_page = refl })

page_remove-Unmapped_example :
    Yields
      (λ _ m'. Unmapped mapped_levels mapped 1 0x1000 m')
      (page_remove (1 * 4096) 0x1000 mapped)
page_remove-Unmapped_example = page_remove-Unmapped 1 0x1000 mapped-Typed refl mapped-HeldAt

abbrev result_of : {A : Type 0} → Run A → Option A
result_of (ok a m) = some a
result_of panic = none

-- Page 9 is mapped and found again; the tables took pages 2, 3 and 4.
insert_then_lookup :
    result_of (and_then (page_insert 4096 9 0x1000 6 tiny) (λ done. page_lookup 4096 0x1000))
    ≡ some (some 9, some (4 * 4096 + 8))
unfolding page_insert insert_at mmap_lookup next_table page_lookup page_remove page_alloc
    page_incref page2pa pa2page present entry_addr pml4_idx pdp_idx pd_idx pt_idx table_entry
    clear_page
insert_then_lookup = refl
