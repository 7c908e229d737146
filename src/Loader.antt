-- ===== src/Loader.antt =====
-- The memory map that the second stage loader builds: kernel/loader/loader.c. The loader runs in
-- 32-bit mode without paging, so a pointer is a physical address below 2 ^ 32.
pub mod Laws
pub mod FreeList
pub mod Boot
mod Tests
use ann.Base.{
  ℕ, zero, suc, ◌+◌, ◌-◌, ◌*◌, ◌/◌, ◌%◌, ◌^◌, Option, none, some, Bool, true, false, bit_or, List,
  [], ◌∷◌, ◌==◌, ◌/=◌, ltb, leb, ◌&&◌, ◌||◌, not, if◌then◌else◌, update,
}
use ann.LinkedList.{ListOps}
use ann.Memory.Layout.{
  u64, page_size, round_down, round_up, apic_base_pa, ioapic_base_pa, present, pte_p, pte_w,
  entry_addr,
}
use ann.Memory.Machine.{
  Machine, Cmd, Run, ok, pure, ◌>>=◌, ◌>>◌, assert, load, store, get_ref, set_ref,
}
use ann.Memory.Pages.{pa2page, page_incref, unlink, link_head}
use ann.Memory.Map.{mmap_lookup}

-- struct bios_mmap_entry
pub record BiosMmapEntry : Type 0 where
  pub base_addr : ℕ
  pub addr_len : ℕ
  pub type_of : ℕ
  pub acpi_attrs : ℕ

abbrev pub memory_type_free : ℕ
memory_type_free = 1

-- The result and the new value of `free_memory`. Pointers are 32 bits wide here.
unfoldable pub loader_alloc : (size align free_memory : ℕ) → ℕ × ℕ
loader_alloc size align free_memory =
    let up = (free_memory + align - 1) % 2 ^ 32 in
    let ret = up - up % align in (ret, (ret + size) % 2 ^ 32)

-- The loop of loader_detect_memory from entry `i` on, with `n` entries left.
unfoldable pub max_address : (n i max : ℕ) → (ℕ → BiosMmapEntry) → ℕ
max_address zero i max mm = max
max_address (suc n) i max mm =
    let end = u64 ((mm i).base_addr + (mm i).addr_len) in
    if (mm i).type_of /= memory_type_free
    then max_address n (i + 1) max mm
    else if ltb end max
    then max_address n (i + 1) max mm
    else max_address n (i + 1) end mm

-- `max_physical_address` and `pages_cnt`
unfoldable pub loader_detect_memory : (ℕ → BiosMmapEntry) → ℕ → ℕ × ℕ
loader_detect_memory mm cnt =
    let max = max_address cnt 0 0 mm in (max, round_down max page_size / page_size)

-- The loop of page_is_available, with `n` rounds left. It reads the entry that `mm` points to, and
-- `mm` does not move.
unfoldable pub check_areas : (n : ℕ) → ℕ → (ℕ → BiosMmapEntry) → Bool → Bool
check_areas zero addr mm available = available
check_areas (suc n) addr mm available =
    if ltb addr (mm 0).base_addr
    then check_areas n addr mm available
    else if leb (u64 ((mm 0).base_addr + (mm 0).addr_len)) (u64 (addr + page_size))
    then check_areas n addr mm available
    else check_areas n addr mm (available && (mm 0).type_of == memory_type_free)

-- `end` is the end of the loader's image.
unfoldable pub page_is_available :
    (addr : ℕ) → (ℕ → BiosMmapEntry) → (cnt end free_memory : ℕ) → Bool
page_is_available addr mm cnt end free_memory =
    if addr == 0
    then false
    else if leb apic_base_pa addr && ltb addr (apic_base_pa + page_size)
    then false
    else if leb ioapic_base_pa addr && ltb addr (ioapic_base_pa + page_size)
    then false
    else if leb end addr && ltb addr free_memory
    then false
    else check_areas cnt addr mm true

module _ ⦃q : ListOps⦄ where
  -- The loop of loader_init_memory that fills the list of free pages, from page `i` on, with `n`
  -- pages left. `available` is page_is_available for the address of a page.
  unfoldable pub fill_free : (n i : ℕ) → (ℕ → Bool) → Machine → Machine
  fill_free zero i available m = m
  fill_free (suc n) i available m =
      if not (available (i * page_size))
      then fill_free n (i + 1) available (record m { ref = update m.ref i 1 })
      else fill_free n (i + 1) available (record m { free = q.insert_head i m.free })

  -- The pages array is 0, the list empty, and then filled.
  unfoldable pub init_pages :
      (ℕ → BiosMmapEntry) → (cnt end free_memory pages_cnt : ℕ) → (ℕ → ℕ) → Machine
  init_pages mm cnt end free_memory pages_cnt mem =
      fill_free pages_cnt 0 (λ addr. page_is_available addr mm cnt end free_memory)
        (record { mem = mem; ref = λ p. 0; free = []; pages_cnt = pages_cnt })

  -- The loop of loader_map_section at offset `i`, with `n` pages left; `false` stands for -1.
  unfoldable pub map_pages : (n i pml4 va pa : ℕ) → Bool → Cmd Bool
  map_pages zero i pml4 va pa hard = pure true
  map_pages (suc n) i pml4 va pa hard = mmap_lookup pml4 (u64 (va + i)) true >>= λ o. elim o [
    | none ↦ pure false
    | some pte ↦ do
      e ← load pte
      assert (not (present e))
      store pte (bit_or (bit_or (entry_addr (u64 (pa + i))) pte_p) pte_w)
      r ← get_ref (pa2page (entry_addr (u64 (pa + i))))
      if r /= 0
          then pure tt
          else page_incref (pa2page (entry_addr (u64 (pa + i))))
            >> (if hard then unlink (pa2page (entry_addr (u64 (pa + i)))) else pure tt)
      map_pages n (i + page_size) pml4 va pa hard
  ]

  unfoldable pub loader_map_section : (pml4 va pa len : ℕ) → Bool → Cmd Bool
  loader_map_section pml4 va pa len hard =
      map_pages (round_up len page_size / page_size) 0 pml4 (round_down va page_size) pa hard
