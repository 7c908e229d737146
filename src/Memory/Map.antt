-- ===== src/Memory/Map.antt =====
-- Page tables: mmap_lookup, page_insert, page_remove and page_lookup of kernel/lib/memory/map.c.
-- The translation buffer is not part of the state, so `invlpg` has no counterpart.
pub mod Walk
pub mod Grow
pub mod Tree
pub mod UserPage
pub mod Spaces
pub mod Lookup
pub mod Stock
pub mod Create
pub mod Write
pub mod Remove
pub mod After
pub mod Agree
pub mod Insert
use ann.Base.{ℕ, ◌+◌, ◌*◌, Option, none, some, Bool, true, false, bit_or, ◌==◌, if◌then◌else◌, not}
use ann.LinkedList.{ListOps}
use ann.Memory.Layout.{entry_addr, pml4_idx, pdp_idx, pd_idx, pt_idx, pte_p, pte_w, pte_u, present}
use ann.Memory.Machine.{
  Machine, Cmd, Run, ok, pure, ◌>>=◌, ◌>>◌, or_null, assert, load, store, set_ref,
}
use ann.Memory.Pages.{clear_page, page2pa, pa2page, page_incref, page_alloc, page_decref}

-- `&table[i]`, for entries of eight bytes.
abbrev pub slot : ℕ → ℕ → ℕ
slot table i = table + 8 * i

-- What an upper table holds for the new table in page `p`.
unfoldable pub table_entry : ℕ → ℕ
table_entry p = bit_or (bit_or (bit_or (page2pa p) pte_p) pte_w) pte_u

module _ ⦃q : ListOps⦄ where
  -- The part of mmap_lookup from one label to the next, which is there three times: the table that
  -- the entry at `s` names, made anew if there is none and `create` is set.
  unfoldable pub next_table : Bool → ℕ → Cmd (Option ℕ)
  next_table create s = do
    e ← load s
    if present e
        then (assert (present e) >> pure (some (entry_addr e)))
        else if not create
        then pure none
        else or_null page_alloc (λ p. do
          clear_page (page2pa p)
          set_ref p 1
          let e' = table_entry p
          store s e'
          assert (present e')
          pure (some (entry_addr e')))

  unfoldable pub mmap_lookup : (pml4 va : ℕ) → Bool → Cmd (Option ℕ)
  mmap_lookup pml4 va create = or_null (next_table create (slot pml4 (pml4_idx va))) λ pdp.
      or_null (next_table create (slot pdp (pdp_idx va))) λ pd.
        or_null (next_table create (slot pd (pd_idx va))) λ pt. pure (some (slot pt (pt_idx va)))

  -- The page mapped at `va`, with the address of its entry: the result, and what is stored through
  -- `pte_p`.
  unfoldable pub page_lookup : (pml4 va : ℕ) → Cmd (Option ℕ × Option ℕ)
  page_lookup pml4 va = do
    pte ← mmap_lookup pml4 va false
    elim pte [
      | none ↦ pure (none, none)
      | some s ↦ do
        e ← load s
        if not (present e)
            then pure (none, some s)
            else pure (some (pa2page (entry_addr e)), some s)
    ]

  unfoldable pub page_remove : (pml4 va : ℕ) → Cmd (Unit {0})
  page_remove pml4 va = do
    found ← page_lookup pml4 va
    let (page, pte) = found
    elim page [
      | none ↦ pure tt
      | some p ↦ page_decref p >> elim pte [ none ↦ pure tt | some s ↦ store s 0 ]
    ]

  -- page_insert from the point where the address of the entry, `s`, is known. The result is `true`
  -- for the return value 0, `false` for -1.
  unfoldable pub insert_at : (pml4 p va perm s : ℕ) → Cmd Bool
  insert_at pml4 p va perm s = do
    e ← load s
    if entry_addr e == page2pa p
        then (store s (bit_or (bit_or (page2pa p) perm) pte_p) >> pure true)
        else do
          page_remove pml4 va
          store s (bit_or (bit_or (page2pa p) perm) pte_p)
          page_incref p
          pure true

  unfoldable pub page_insert : (pml4 p va perm : ℕ) → Cmd Bool
  page_insert pml4 p va perm = do
    pte ← mmap_lookup pml4 va true
    elim pte [ none ↦ pure false | some s ↦ insert_at pml4 p va perm s ]
