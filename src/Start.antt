-- ===== src/Start.antt =====
-- The start of the kernel: kernel_init_mmap of kernel/kernel.c turns the pages array of the loader,
-- with records of 12 bytes, into one with records of 24 bytes, in place. The array is a function from
-- the numbers of its 32-bit words. The conversion of the pointers in the configuration, the GDT and
-- what the function prints are not modelled.
pub mod Laws
mod Tests
use ann.Base.{
  ℕ, zero, suc, ◌+◌, ◌*◌, ◌/◌, ◌%◌, ◌^◌, Option, none, some, Bool, true, false, List, [], head?,
  update, ◌≡◌, ◌==◌, leb, ltb, ◌&&◌, ◌||◌, if◌then◌else◌,
}
use ann.LinkedList.{ListOps}
use ann.Terminal.{assert}

-- Is word `j` one of the links of page `p` or of the first page of `l`?
abbrev pub is_link : (p : ℕ) → List ℕ → ℕ → Bool
is_link p l j =
    leb 2 (j % 6) && ((j / 6 == p) || elim (head? l) [ none ↦ false | some h ↦ j / 6 == h ])

-- What LIST_INSERT_HEAD(&state.free, p, link) of stdlib/queue.h, a copy of the BSD macros, writes into
-- the array: as queue(3) says, links of the new element and of the one that was first.
pub record LinkStore : Type 0 where
  pub set_links : (p : ℕ) → List ℕ → (ℕ → ℕ) → ℕ → ℕ
  pub set_links_lem :
      (p : ℕ) (l : List ℕ) (words : ℕ → ℕ) (j : ℕ)
      → is_link p l j ≡ false
      → set_links p l words j ≡ words j

-- struct page32, packed: `ref` is one word, `links` are the two behind it.
abbrev pub ref32 : (ℕ → ℕ) → ℕ → ℕ
ref32 words i = words (3 * i)

abbrev pub links32 : (ℕ → ℕ) → ℕ → ℕ
links32 words i = words (3 * i + 1) + words (3 * i + 2) * 2 ^ 32

-- `memset(p, 0, sizeof(*p))` of `struct page`, which has `ref` in its first word; then `p->ref = rc`.
unfoldable pub reset_page : (i rc : ℕ) → (ℕ → ℕ) → ℕ → ℕ
reset_page i rc words =
    update (λ j. if leb (6 * i) j && ltb j (6 * i + 6) then 0 else words j) (6 * i) rc

-- The array, the free list of mmap_state, and the local variable `used_pages`.
pub record PagesState : Type 0 where
  pub words : ℕ → ℕ
  pub free : List ℕ
  pub used_pages : ℕ

module _ ⦃q : ListOps⦄ ⦃ls : LinkStore⦄ where
  -- The loop of kernel_init_mmap, with `n` pages left; it counts down.
  unfoldable pub convert_pages : (n : ℕ) → PagesState → Option PagesState
  convert_pages zero s = some s
  convert_pages (suc i) s =
      let rc = ref32 s.words i in
      let words = reset_page i rc s.words in
      let used =
        convert_pages i (record s { words = words; used_pages = (s.used_pages + 1) % 2 ^ 32 }) in
      let linked =
        convert_pages i
          (record s { words = ls.set_links i s.free words; free = q.insert_head i s.free }) in
      if links32 s.words i == 0 then assert (rc == 1) used else assert (leb rc 1) linked

  unfoldable pub kernel_init_mmap : (pages_cnt : ℕ) → (ℕ → ℕ) → Option PagesState
  kernel_init_mmap pages_cnt words =
      convert_pages pages_cnt (record { words = words; free = []; used_pages = 0 })
