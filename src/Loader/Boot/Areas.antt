-- ===== src/Loader/Boot/Areas.antt =====
-- The areas that loader_init_memory allocates.
use ann.Base.{ℕ, ◌+◌, ◌*◌, ◌%◌, ◌^◌, ◌<◌, ◌≤◌, ◌≡◌, arith}
use ann.Memory.Layout.{page_size}
use ann.Loader.Laws.{loader_alloc-Allocates}
use ann.Loader.Boot.{Allocated, allocate, gdt_size}

-- One area after the other, aligned, from `free_memory` up to the new `free_memory`
pub record AreApart (pages_cnt free_memory : ℕ) (a : Allocated) : Type 0 where
  pub config : (free_memory ≤ a.config) × (a.config % page_size ≡ 0)
  pub gdt : (a.config + 32 ≤ a.gdt) × (a.gdt % 16 ≡ 0)
  pub pml4 : (a.gdt + gdt_size ≤ a.pml4) × (a.pml4 % page_size ≡ 0)
  pub pages : (a.pml4 + page_size ≤ a.pages) × (a.pages % page_size ≡ 0)
  pub end : a.free_memory ≡ a.pages + 24 * pages_cnt
  pub waste : a.free_memory < free_memory + 24 * pages_cnt + 5 * page_size

-- Where `free_memory`, the records of the pages and five pages more end below 4 GB: the areas for the
-- configuration, the GDT, the PML4 and the records of the pages follow each other without overlap,
-- aligned, between the old and the new `free_memory`, and less than five pages are used besides the
-- records.
pub allocate-AreApart :
    (pages_cnt free_memory : ℕ)
    → free_memory + 24 * pages_cnt + 5 * page_size < 2 ^ 32
    → AreApart pages_cnt free_memory (allocate pages_cnt free_memory)
unfolding allocate
allocate-AreApart pages_cnt free_memory h =
    let c = loader_alloc-Allocates 32 page_size free_memory (omega arith) (omega arith) in
    let g = loader_alloc-Allocates gdt_size 16 _ (omega arith) (omega (arith, c.next, c.close)) in
    let p =
      loader_alloc-Allocates page_size page_size _ (omega arith)
        (omega (arith, c.next, c.close, g.next, g.close)) in
    let r =
      loader_alloc-Allocates (24 * pages_cnt) page_size _ (omega arith)
        (omega (arith, c.next, c.close, g.next, g.close, p.next, p.close)) in
    record {
      config = (c.fresh, c.aligned);
      gdt = (omega (arith, c.next, g.fresh), g.aligned);
      pml4 = (omega (arith, g.next, p.fresh), p.aligned);
      pages = (omega (arith, p.next, r.fresh), r.aligned);
      end = r.next;
      waste = omega (arith, c.next, c.close, g.next, g.close, p.next, p.close, r.next, r.close);
    }
