-- ===== src/Memory/Map/Lookup.antt =====
-- mmap_lookup against the walk: without `create` it is the walk, with `create` it adds tables and
-- changes no translation.
use ann.Base.{
  ℕ, ◌+◌, ◌*◌, ◌^◌, ◌<◌, none, some, Bool, true, false, ◌≡◌, refl, arith, Bool-cases, inl, inr,
  List, [], ◌∷◌, Distinct, bit_or_low, bit_or_field,
}
use ann.LinkedList.{ListOps}
use ann.Memory.Layout.{present}
use ann.Memory.Layout.Laws.{
  frame_of, pml4_idx_mod, pdp_idx_mod, pd_idx_mod, pt_idx_mod, entry_addr_frame,
}
use ann.Memory.Machine.{Machine, ok}
use ann.Memory.Pages.{clear_page}
use ann.Memory.Pages.Laws.{page2pa_lem, page_alloc-nil, page_alloc-cons}
use ann.Memory.Map.{table_entry, next_table, mmap_lookup}
use ann.Memory.Map.Walk.{index, entry_at, slot_of}
use ann.Memory.Map.Grow.{grown_mem, grown, present-new, frame_of-new}

table_entry_lem : (p : ℕ) → p < 2 ^ 52 → table_entry p ≡ p * 4096 + 7
unfolding table_entry
table_entry_lem p h =
    ground (arith, page2pa_lem p h, bit_or_field 12 p 1, bit_or_low 12 p 1 2, bit_or_low 12 p 3 4)

module _ ⦃q : ListOps⦄ where
  pub next_table-present :
      (create : Bool) (s : ℕ) (m : Machine)
      → present (m.mem s) ≡ true
      → next_table create s m ≡ ok (some (frame_of (m.mem s) * 4096)) m
  unfolding next_table
  next_table-present create s m on = ground (arith, entry_addr_frame (m.mem s))

  pub next_table-absent :
      (s : ℕ) (m : Machine) → present (m.mem s) ≡ false → next_table false s m ≡ ok none m
  unfolding next_table
  next_table-absent s m off = ground arith

  -- Without `create`, mmap_lookup returns the address of the entry that the walk of the four tables
  -- leads to, or NULL if a table is missing, and changes nothing.
  pub mmap_lookup-slot_of :
      (f va : ℕ) (m : Machine) → mmap_lookup (f * 4096) va false m ≡ ok (slot_of 3 m.mem f va) m
  unfolding mmap_lookup slot_of
  mmap_lookup-slot_of f va m =
      let e3 = m.mem (entry_at f (index 3 va)) in
      let e2 = m.mem (entry_at (frame_of e3) (index 2 va)) in
      let e1 = m.mem (entry_at (frame_of e2) (index 1 va)) in
      rw pml4_idx_mod (elim (Bool-cases (present e3)) [
        | inr off ↦ rw (next_table-absent _ m off, off)
        | inl on3 ↦
            rw (next_table-present false _ m on3, on3, pdp_idx_mod)
              (elim (Bool-cases (present e2)) [
                | inr off ↦ rw (next_table-absent _ m off, off)
                | inl on2 ↦
                    rw (next_table-present false _ m on2, on2, pd_idx_mod)
                      (elim (Bool-cases (present e1)) [
                        | inr off ↦ rw (next_table-absent _ m off, off)
                        | inl on1 ↦ rw (next_table-present false _ m on1, on1, pt_idx_mod)
                      ])
              ])
      ])

  pub next_table-nil :
      (s : ℕ) (m : Machine)
      → present (m.mem s) ≡ false
      → m.free ≡ []
      → next_table true s m ≡ ok none m
  unfolding next_table
  next_table-nil s m off e = rw (off, page_alloc-nil m e)

  pub next_table-cons :
      (s p : ℕ) (rest : List ℕ) (m : Machine)
      → present (m.mem s) ≡ false
      → m.free ≡ p ∷ rest
      → Distinct m.free
      → p < 2 ^ 52
      → next_table true s m ≡ ok (some (p * 4096)) (grown m s p rest)
  unfolding next_table grown_mem clear_page
  next_table-cons s p rest m off e d h =
      rw (off, page_alloc-cons m p rest e d)
        (rw
          (
            table_entry_lem p h,
            page2pa_lem p h,
            present-new p,
            entry_addr_frame (p * 4096 + 7),
            frame_of-new p h,
          )
          refl)
